-- ===== src/Auth/Kill.antt =====
-- What a revocation of a family does, and the two presentations that lead to one.
use omnibioai_auth.Prelude.{
  ℕ, String, ◌≡◌, refl, Bool, true, false, not, ◌&&◌, Option, none, some, arith, ◌≈◌, ≈_iff,
  is_none, holds, first, count, count-update_all_zero, if◌then◌else◌, Option-cases, inl, inr,
}
use omnibioai_auth.Models.{Time, Reason, reuse_detected, RefreshToken, UserSession, Db}
use omnibioai_auth.Session.{Settings, is_active, get_by_family_id, revoke}
use omnibioai_auth.Session.Revocation.{kill, get-revoke}
use omnibioai_auth.Auth.Refresh.{
  Crypto, Call, TeamChoice, has_hash, in_family, revoke_family, log_session_revoked, revoke_all_of,
  rotate_row, rotate_refresh_token,
}

-- The tokens of a family that are not revoked.
abbrev pub live_in : String → RefreshToken → Bool
live_in f t = not t.revoked && holds t.family_id f

-- A row once its family is revoked: one that was revoked before stays as it is.
abbrev pub ended : Time → Reason → Option UserSession → Option UserSession
ended now r none = none
ended now r (some s) = some (if is_active s.status then kill now r s else s)

-- The family has no live token, and its session, where it was active, carries the revocation.
pub record IsKilled (now : Time) (f : String) (r : Reason) (db db' : Db) : Type 0 where
  pub no_live_token : count (live_in f) db'.refresh_tokens ≡ 0
  pub session_ended : get_by_family_id (some f) db' ≡ ended now r (get_by_family_id (some f) db)

family_tokens :
    (f : String) (db : Db)
    → (f ≈ "") ≡ false
    → count (live_in f) (revoke_family (some f) db).refresh_tokens ≡ 0
unfolding revoke_family
family_tokens f db named = ground (
  arith,
  named,
  count-update_all_zero (live_in f) (in_family f) (λ r. record r { revoked = true })
      db.refresh_tokens (λ t h. ground arith) (λ t. refl),
)

-- A family that has no session has none after a revocation.
get-revoke-none :
    (now : Time) (r : Reason) (f : String) (db : Db)
    → get_by_family_id (some f) db ≡ none
    → get_by_family_id (some f) (revoke now (some f) r db) ≡ none
unfolding get_by_family_id revoke
get-revoke-none now r f db e = ground arith

get-revoke_own :
    (now : Time) (r : Reason) (f : String) (db : Db)
    → get_by_family_id (some f) (revoke now (some f) r db)
      ≡ ended now r (get_by_family_id (some f) db)
get-revoke_own now r f db = elim (Option-cases (get_by_family_id (some f) db)) [
  | inl missing ↦ rw missing (get-revoke-none now r f db missing)
  | inr (s, e) ↦ rw e (ground (arith, get-revoke now r f f db s e, ≈_iff f f))
]

get-revoke_family :
    (fid : Option String) (f : String) (db : Db)
    → get_by_family_id (some f) (revoke_family fid db) ≡ get_by_family_id (some f) db
unfolding get_by_family_id revoke_family
get-revoke_family fid f db = ground arith

pub revoke_all_of-IsKilled :
    (now : Time) (u : ℕ) (f : String) (r : Reason) (actor : Option ℕ) (db : Db)
    → (f ≈ "") ≡ false
    → IsKilled now f r db (revoke_all_of now u (some f) r actor db)
unfolding log_session_revoked
revoke_all_of-IsKilled now u f r actor db named =
    let row : get_by_family_id (some f) (revoke now (some f) r (revoke_family (some f) db))
        ≡ ended now r (get_by_family_id (some f) db) =
      rw (← get-revoke_family (some f) f db) (get-revoke_own now r f (revoke_family (some f) db)) in
    record {
      no_live_token = unfold revoke in ground (arith, family_tokens f db named);
      session_ended = unfold get_by_family_id in row;
    }

module _ (cfg : Settings) (c : Crypto) (call : Call) (p : String) (team : TeamChoice) (db : Db)
    (t : RefreshToken) (f : String)
    (known : first (has_hash (c.sha256 p)) db.refresh_tokens ≡ some t) (of_f : t.family_id ≡ some f)
    (named : (f ≈ "") ≡ false) where
  reuse_branch :
      is_none t.rotated_at ≡ false
      → rotate_refresh_token cfg c call p team db
        ≡ (none, revoke_all_of call.now t.user_id (some f) reuse_detected none db)
  unfolding rotate_refresh_token rotate_row
  reuse_branch rotated =
      let here : t.family_id ≡ some f = of_f in
      rw (known, rotate_refresh_token) (rw (rotated, rotate_row) (rw of_f refl))

  -- A presentation of a token that was exchanged before, and whose family has a name, yields
  -- nothing, revokes every token of the family, the live descendants included, and revokes the
  -- family's session for that reason if it is active.
  pub reuse_kills_family :
      is_none t.rotated_at ≡ false
      → ((rotate_refresh_token cfg c call p team db).0 ≡ none)
        × IsKilled call.now f reuse_detected db (rotate_refresh_token cfg c call p team db).1
  reuse_kills_family rotated =
      rw (reuse_branch rotated)
        (refl, revoke_all_of-IsKilled call.now t.user_id f reuse_detected none db named)
