-- ===== src/TokenRevocation.antt =====
-- app/core/token_revocation.py: the blacklist of access tokens, and the checks that every use of a
-- token makes. `decode_token` of jwt.py and the Redis client are parameters.
use omnibioai_auth.Prelude.{
  ℕ, ◌+◌, ◌-◌, ◌≤◌, ◌≡◌, not, ◌||◌, leb, [], ◌∷◌, String, Bool, true, false, Option, none, some,
  List, max, first, contains, ◌==◌, ◌≈◌, Result, ok, err, ◌>>◌, if◌then◌else◌,
}
use Prim.Native.String.{◌++◌ as append}
use omnibioai_auth.Models.{User, Db}

-- The claims of a verified token that this service reads; `none` is an absent claim. The
-- subject is the number whose text the claim holds, and `exp` is in seconds.
pub record Payload : Type 0 where
  pub jti : Option String
  pub sub : Option ℕ
  pub exp : ℕ
  pub auth_method : Option String
  pub token_type : Option String
  pub client_id : Option String
  pub roles : Option (List String)
  pub permissions : Option (List String)
  pub scopes : Option (List String)

-- The `HTTPException`s, by detail: 401, 403, 404 and 503, and the error 500 of a claim that is not
-- there.
pub data HttpError : Type 0 where
  invalid_token token_revoked user_inactive : HttpError
  forbidden service_token_required : HttpError
  organization_not_found team_not_found : HttpError
  state_unavailable : HttpError
  missing_claim : HttpError

-- Redis as this module uses it. `none` is an exception, and `ttl_of` the whole seconds that a key
-- has left, 0 for an absent one. What is relied on is the documented behaviour of SETEX and EXISTS,
-- and that the lifetime of every key runs down as the seconds go by.
pub record Blacklist : Type 1 where
  pub Store : Type 0
  pub exists : String → Store → Option Bool
  pub setex : String → ℕ → Store → Option Store
  pub elapse : ℕ → Store → Store
  pub ttl_of : String → Store → ℕ
  pub ttl_of-setex :
      (k j : String) (ttl : ℕ) (s s' : Store)
      → 1 ≤ ttl
      → setex k ttl s ≡ some s'
      → ttl_of j s' ≡ (if k ≈ j then ttl else ttl_of j s)
  pub ttl_of-elapse : (j : String) (n : ℕ) (s : Store) → ttl_of j (elapse n s) ≡ ttl_of j s - n
  pub exists-ttl_of :
      (j : String) (s : Store) (b : Bool) → exists j s ≡ some b → b ≡ not (ttl_of j s == 0)

-- `f"blacklist:jti:{jti}"`
abbrev pub blacklist_key : String → String
blacklist_key jti = append "blacklist:jti:" jti

-- `if jti`
abbrev pub named : Option String → Option String
named none = none
named (some j) = if j ≈ "" then none else some j

abbrev pub is_active_user : Option User → Bool
is_active_user none = false
is_active_user (some u) = u.status ≈ "active"

abbrev pub in_revoked_table : Option String → Db → Bool
in_revoked_table none db = false
in_revoked_table (some jti) db = contains jti db.revoked_tokens

module _ (r : Blacklist) where
  -- A token that does not decode has nothing to write.
  unfoldable pub blacklist_access_token : ℕ → Option Payload → r.Store → Result HttpError r.Store
  blacklist_access_token now none s = ok s
  blacklist_access_token now (some payload) s = elim (named payload.jti) [
    | none ↦ ok s
    | some jti ↦ elim (r.setex (blacklist_key jti) (max (payload.exp - now) 1) s) [
      | none ↦ err state_unavailable
      | some s' ↦ ok s'
    ]
  ]

  unfoldable pub check_blacklist : Option String → r.Store → Result HttpError (Unit {0})
  check_blacklist none s = ok tt
  check_blacklist (some jti) s = elim (r.exists (blacklist_key jti) s) [
    | none ↦ err state_unavailable
    | some true ↦ err token_revoked
    | some false ↦ ok tt
  ]

  unfoldable pub check_user : Option ℕ → Db → Result HttpError (Unit {0})
  check_user none db = ok tt
  check_user (some sub) db =
      if is_active_user (first (λ u. u.id == sub) db.users) then ok tt else err user_inactive

  unfoldable pub assert_token_usable : Payload → r.Store → Db → Result HttpError (Unit {0})
  unfolding check_blacklist check_user
  assert_token_usable payload s db =
      check_blacklist (named payload.jti) s
      >> (if in_revoked_table (named payload.jti) db then err token_revoked else ok tt)
      >> check_user payload.sub db

-- A later moment: so many seconds go by, and a token is logged out.
pub record Later : Type 0 where
  pub seconds_passed : ℕ
  pub logged_out : Payload

-- A logout under the same key is of a token that lives at least as long.
abbrev pub keeps : String → ℕ → Later → Bool
keeps jti exp later = elim (named later.logged_out.jti) [
  | none ↦ true
  | some j ↦ not (blacklist_key j ≈ blacklist_key jti) || leb exp later.logged_out.exp
]

module _ (r : Blacklist) where
  -- The keys after a logout, which are as before if it fails.
  abbrev pub store_after : r.Store → Result HttpError r.Store → r.Store
  store_after s (ok s') = s'
  store_after s (err e) = s

  -- The clock and the keys after those moments.
  unfoldable pub run : List Later → ℕ → r.Store → ℕ × r.Store
  unfolding blacklist_access_token
  run [] now s = (now, s)
  run (later ∷ laters) now s =
      let now' = now + later.seconds_passed in
      let s' = r.elapse later.seconds_passed s in
      run laters now' (store_after s' (blacklist_access_token r now' (some later.logged_out) s'))

  -- The key lives until the expiry of the token.
  abbrev Covers : String → ℕ → ℕ → r.Store → Type 0
  Covers jti exp now s = exp ≤ now + r.ttl_of (blacklist_key jti) s
