-- ===== src/Auth/Grant.antt =====
-- When `rotate_refresh_token` of app/services/auth_service.py yields tokens, and which.
use omnibioai_auth.Prelude.{
  String, ◌≡◌, true, false, Option, none, some, arith, ◌==◌, ◌≈◌, is_none, first, ltb, Option-cases,
  inl, inr,
}
use omnibioai_auth.Models.{RefreshToken, UserSession, User, Db}
use omnibioai_auth.Session.{Settings, get_by_family_id, is_usable, check_timeout_policy}
use omnibioai_auth.Auth.Refresh.{
  Crypto, Call, TeamChoice, has_hash, old_method, old_claims, fresh_claims, exchange,
  rotate_for_user, rotate_in_session, rotate_row, rotate_refresh_token,
}

module _ (cfg : Settings) (c : Crypto) (call : Call) (p : String) (team : TeamChoice)
    (db : Db) where
  abbrev pub session_of : RefreshToken → Option UserSession
  session_of t = get_by_family_id t.family_id db

  -- The tests of a rotation, passed by the row `t` and the account `user`.
  pub record IsGranted (t : RefreshToken) (user : User) : Type 0 where
    pub known : first (has_hash (c.sha256 p)) db.refresh_tokens ≡ some t
    pub not_rotated : is_none t.rotated_at ≡ true
    pub not_revoked : t.revoked ≡ false
    pub not_expired : ltb t.expires_at call.now ≡ false
    pub session_usable : is_usable call.now (session_of t) ≡ true
    pub within_policy : check_timeout_policy cfg call.now (session_of t) ≡ none
    pub account : first (λ u. u.id == t.user_id) db.users ≡ some user
    pub account_active : (user.status ≈ "active") ≡ true

  -- What a granted rotation returns and writes.
  abbrev pub granted : RefreshToken → User → Option (String × String) × Db
  granted t user =
      let claims = fresh_claims c p team user db in
      (
        some (call.access_token claims, call.refresh_token claims),
        exchange c call p t (session_of t) (old_method (old_claims c p)) user claims db,
      )

  -- A presented token that passes every test is exchanged for tokens whose claims are built afresh
  -- from the account.
  pub rotate_granted :
      (t : RefreshToken) (user : User)
      → IsGranted t user
      → rotate_refresh_token cfg c call p team db ≡ granted t user
  unfolding rotate_refresh_token rotate_row rotate_in_session rotate_for_user
  rotate_granted t user g = ground arith

  -- Tokens are issued only to a presented token that passes every test: its row is known, neither
  -- exchanged nor revoked nor expired, its session is usable and within the timeouts, and its
  -- account is active.
  pub rotate_refresh_token-IsGranted :
      (issued : String × String)
      → (rotate_refresh_token cfg c call p team db).0 ≡ some issued
      → (t : RefreshToken) × (user : User) × IsGranted t user
  unfolding rotate_refresh_token rotate_row rotate_in_session rotate_for_user
  rotate_refresh_token-IsGranted issued h =
      elim (Option-cases (first (has_hash (c.sha256 p)) db.refresh_tokens)) [
        | inl unknown ↦ ground arith
        | inr (t, e) ↦ elim (Option-cases (first (λ u. u.id == t.user_id) db.users)) [
          | inl missing ↦ ground arith
          | inr (user, eu) ↦ (t, user, ground arith)
        ]
      ]
