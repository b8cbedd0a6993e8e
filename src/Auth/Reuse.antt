-- ===== src/Auth/Reuse.antt =====
-- A refresh token is exchanged once; a second presentation kills its family.
use omnibioai_auth.Prelude.{
  String, ◌≡◌, refl, Bool, true, false, not, Option, none, some, List, [], ◌∷◌, ◌++◌, arith, ≈_iff,
  ≈_refl, is_none, first, first-update_all, first-update_first_key, first-append_some, Option-cases,
  inl, inr, update_first,
}
use omnibioai_auth.Models.{RefreshToken, UserSession, User, Db}
use omnibioai_auth.Auth.Claims.{Claims}
use omnibioai_auth.Session.{Settings, revoke, touch, create}
use omnibioai_auth.Auth.Refresh.{
  Crypto, Call, TeamChoice, has_hash, in_family, revoke_family, log_session_revoked, succeed,
  successor, rotate_out, family_or_new, exchange, rotate_row, rotate_refresh_token,
}
use omnibioai_auth.Auth.Issue.{record_login}
use omnibioai_auth.Auth.Trace.{Operation, run}
use omnibioai_auth.Auth.Grant.{rotate_refresh_token-IsGranted, rotate_granted}
use omnibioai_auth.Auth.Keeps.{Keeps, Anything, AllAdmit-Anything, run_keeps}

-- The row under a hash has been exchanged.
abbrev pub spent_row : Option RefreshToken → Bool
spent_row none = false
spent_row (some t) = not (is_none t.rotated_at)

abbrev pub IsSpent : String → Db → Type 0
IsSpent h db = spent_row (first (has_hash h) db.refresh_tokens) ≡ true

-- An added row is behind every row that is there.
spent-append :
    (h : String) (ts : List RefreshToken) (new : RefreshToken)
    → spent_row (first (has_hash h) ts) ≡ true
    → spent_row (first (has_hash h) (ts ++ new ∷ [])) ≡ true
spent-append h ts new e = elim (Option-cases (first (has_hash h) ts)) [
  | inl missing ↦ ground arith
  | inr (t, found) ↦ ground (arith, first-append_some (has_hash h) ts (new ∷ []) t found)
]

spent-update_first :
    (h h' : String) (f : RefreshToken → RefreshToken) (ts : List RefreshToken)
    → ((t : RefreshToken) → (f t).token_hash ≡ t.token_hash)
    → ((t : RefreshToken) → is_none (f t).rotated_at ≡ true → is_none t.rotated_at ≡ true)
    → spent_row (first (has_hash h) ts) ≡ true
    → spent_row (first (has_hash h) (update_first (has_hash h') f ts)) ≡ true
spent-update_first h h' f ts key still e =
    rw (first-update_first_key (λ t. t.token_hash) h' h f ts key)
      (elim (Option-cases (first (has_hash h') ts)) [
        | inl missing ↦ ground (arith, ≈_iff h' h)
        | inr (r, found) ↦ ground (arith, ≈_iff h' h, still r)
      ])

IsSpent-revoke_family :
    (h : String) (fid : Option String) (db : Db) → IsSpent h db → IsSpent h (revoke_family fid db)
unfolding revoke_family
IsSpent-revoke_family h none db e = e
IsSpent-revoke_family h (some f) db e = elim (Option-cases (first (has_hash h) db.refresh_tokens)) [
  | inl missing ↦ ground arith
  | inr (t, found) ↦ ground (
    arith,
    first-update_all (has_hash h) (in_family f) (λ r. record r { revoked = true }) db.refresh_tokens
        (λ r. refl),
  )
]

-- No operation turns an exchanged token back.
IsSpent-Keeps : (c : Crypto) (h : String) → Keeps c Anything (IsSpent h)
IsSpent-Keeps c h = record {
  by_revoke_family = λ fid db e. IsSpent-revoke_family h fid db e;
  by_revoke = λ now fid r db e. unfold revoke in ground arith;
  by_log = λ u fid r actor db e. unfold log_session_revoked in e;
  by_spend_row = λ token db e.
      spent-update_first h (c.sha256 token) (λ r. record r { revoked = true }) db.refresh_tokens
        (λ t. refl) (λ t k. k) e;
  by_touch = λ now fid expires_at db e. unfold touch in ground arith;
  by_create = λ now new db e. unfold create in e;
  by_succeed = λ call p t user signed db x fresh e.
      let fid = family_or_new t.family_id call.uuid in
      spent-append h _ (successor c call fid user signed) (
        spent-update_first h (c.sha256 p) (rotate_out call.now fid) db.refresh_tokens (λ t'. refl)
          (λ t' k. cc) e);
  by_record_login = λ call user ctx claims db fresh e.
      unfold record_login in
      spent-append h db.refresh_tokens (successor c call call.uuid user (call.refresh_token claims))
        e;
}

-- The presented row of an exchange is found again, and it is spent.
succeed_spends :
    (c : Crypto) (call : Call) (p : String) (t : RefreshToken) (fid : String) (user : User)
    (signed : String) (db : Db)
    → first (has_hash (c.sha256 p)) db.refresh_tokens ≡ some t
    → IsSpent (c.sha256 p) (succeed c call p fid user signed db)
succeed_spends c call p t fid user signed db e =
    let h = c.sha256 p in
    spent-append h _ (successor c call fid user signed) (
      ground (
        arith,
        ≈_refl h,
        first-update_first_key (λ r. r.token_hash) h h (rotate_out call.now fid) db.refresh_tokens
            (λ r. refl),
      ))

exchange_spends :
    (c : Crypto) (call : Call) (p : String) (t : RefreshToken) (session : Option UserSession)
    (m : String) (user : User) (claims : Claims) (db : Db)
    → first (has_hash (c.sha256 p)) db.refresh_tokens ≡ some t
    → IsSpent (c.sha256 p) (exchange c call p t session m user claims db)
unfolding exchange
exchange_spends c call p t (some s) m user claims db e =
    (IsSpent-Keeps c (c.sha256 p)).by_touch _ _ _ _
      (succeed_spends c call p t _ user (call.refresh_token claims) db e)
exchange_spends c call p t none m user claims db e =
    (IsSpent-Keeps c (c.sha256 p)).by_create _ _ _
      (succeed_spends c call p t _ user (call.refresh_token claims) db e)

module _ (cfg : Settings) (c : Crypto) where
  success_spends :
      (call : Call) (p : String) (team : TeamChoice) (db : Db) (issued : String × String)
      → (rotate_refresh_token cfg c call p team db).0 ≡ some issued
      → IsSpent (c.sha256 p) (rotate_refresh_token cfg c call p team db).1
  success_spends call p team db issued h =
      let (t, user, g) = rotate_refresh_token-IsGranted cfg c call p team db issued h in
      rw (rotate_granted cfg c call p team db t user g)
        (exchange_spends c call p t _ _ user _ db g.known)

  spent_refused :
      (call : Call) (p : String) (team : TeamChoice) (db : Db)
      → IsSpent (c.sha256 p) db
      → (rotate_refresh_token cfg c call p team db).0 ≡ none
  unfolding rotate_refresh_token rotate_row
  spent_refused call p team db e = ground arith

  -- A refresh token is good for one exchange: after it has yielded new tokens, and after any
  -- further run of the service, no presentation of it yields tokens again.
  pub exchanged_once :
      (call later : Call) (p : String) (team team' : TeamChoice) (ops : List Operation) (db : Db)
      (issued : String × String)
      → (rotate_refresh_token cfg c call p team db).0 ≡ some issued
      → (rotate_refresh_token cfg c later p team'
          (run cfg c ops (rotate_refresh_token cfg c call p team db).1)).0
        ≡ none
  exchanged_once call later p team team' ops db issued h =
      let db' = (rotate_refresh_token cfg c call p team db).1 in
      spent_refused later p team' (run cfg c ops db') (
        run_keeps cfg c (IsSpent-Keeps c (c.sha256 p)) ops db' (AllAdmit-Anything cfg c ops db')
          (success_spends call p team db issued h))
