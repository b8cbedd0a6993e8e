-- ===== src/Auth/Blacklist.antt =====
-- The operations of app/services/auth_service.py and of the throttles that leave the table of
-- revoked tokens alone.
use omnibioai_auth.Prelude.{
  ℕ, ◌+◌, String, ◌≡◌, refl, Option, none, some, List, [], ◌∷◌, arith, Option-cases, inl, inr, ◌∙◌,
  take, length, ◌-◌,
}
use omnibioai_auth.Models.{
  Time, User, UserSession, Reason, concurrent_limit, Db, AuditEvent, log_event,
}
use omnibioai_auth.RateLimit.Commands.{Redis}
use omnibioai_auth.RateLimit.InProcess.{FallbackSettings}
use omnibioai_auth.RateLimit.{Link, Limiter}
use omnibioai_auth.Throttle.{
  Policy, Keys, record_account, record_dimension, record_ip, record_failure,
}
use omnibioai_auth.Session.{Settings, create, family, revoke}
use omnibioai_auth.Auth.Claims.{build_user_claims}
use omnibioai_auth.Auth.Refresh.{
  Crypto, Call, revoke_all_of, revoke_family, log_session_revoked, revoke_sessions,
}
use omnibioai_auth.Auth.Issue.{
  LoginContext, live_sessions, evict_oldest_sessions_over_limit, record_login, generate_tokens,
}

module _ (r : Redis) (cfg : FallbackSettings) (policy : Policy) (links : ℕ → Link) (now : ℕ)
    (keys : Keys) (audit : String → ℕ → AuditEvent) where
  pub revoked-record_failure :
      (state : Limiter r × Db)
      → (record_failure r cfg policy links now keys audit state).1.revoked_tokens
        ≡ state.1.revoked_tokens
  unfolding record_failure record_account record_dimension record_ip log_event
  revoked-record_failure state = ground arith

pub revoked-revoke_family :
    (family_id : Option String) (db : Db)
    → (revoke_family family_id db).revoked_tokens ≡ db.revoked_tokens
unfolding revoke_family
revoked-revoke_family family_id db = elim (Option-cases (family family_id)) [
  | inl e ↦ rw (e, revoke_family) refl
  | inr (f, e) ↦ rw (e, revoke_family) refl
]

pub revoked-log_session_revoked :
    (user_id : ℕ) (family_id : Option String) (reason : Reason) (actor : Option ℕ) (db : Db)
    → (log_session_revoked user_id family_id reason actor db).revoked_tokens ≡ db.revoked_tokens
unfolding log_session_revoked log_event
revoked-log_session_revoked user_id family_id reason actor db = refl

revoked-revoke :
    (now : Time) (family_id : Option String) (reason : Reason) (db : Db)
    → (revoke now family_id reason db).revoked_tokens ≡ db.revoked_tokens
unfolding revoke
revoked-revoke now family_id reason db = elim (Option-cases (family family_id)) [
  | inl e ↦ ground (arith, e)
  | inr (f, e) ↦ ground (arith, e)
]

pub revoked-revoke_all_of :
    (now : Time) (user_id : ℕ) (family_id : Option String) (reason : Reason) (actor : Option ℕ)
    (db : Db)
    → (revoke_all_of now user_id family_id reason actor db).revoked_tokens ≡ db.revoked_tokens
revoked-revoke_all_of now user_id family_id reason actor db =
    let closed = revoke_family family_id db in
    revoked-log_session_revoked user_id family_id reason actor (revoke now family_id reason closed)
    ∙ revoked-revoke now family_id reason closed
    ∙ revoked-revoke_family family_id db

pub revoked-revoke_sessions :
    (now : Time) (user_id : ℕ) (reason : Reason) (actor : Option ℕ) (ss : List UserSession)
    (db : Db)
    → (revoke_sessions now user_id reason actor ss db).revoked_tokens ≡ db.revoked_tokens
unfolding revoke_sessions
revoked-revoke_sessions now user_id reason actor [] db = refl
revoked-revoke_sessions now user_id reason actor (s ∷ ss) db =
    revoked-revoke_sessions now user_id reason actor ss
      (revoke_all_of now user_id (some s.session_id) reason actor db)
    ∙ revoked-revoke_all_of now user_id (some s.session_id) reason actor db

revoked-evict :
    (cfg : Settings) (now : Time) (user_id : ℕ) (db : Db)
    → (evict_oldest_sessions_over_limit cfg now user_id db).revoked_tokens ≡ db.revoked_tokens
unfolding evict_oldest_sessions_over_limit
revoked-evict cfg now user_id db = ground (
  arith,
  revoked-revoke_sessions now user_id concurrent_limit none
      (take (length (live_sessions cfg now user_id db) + 1 - cfg.max_concurrent)
        (live_sessions cfg now user_id db))
      db,
)

pub revoked-generate_tokens :
    (cfg : Settings) (c : Crypto) (call : Call) (user : User) (ctx : LoginContext) (db : Db)
    → (generate_tokens cfg c call user ctx db).1.revoked_tokens ≡ db.revoked_tokens
unfolding generate_tokens record_login create
revoked-generate_tokens cfg c call user ctx db =
    let claims = build_user_claims user ctx.auth_method ctx.idp_org_id none none db in
    ground (arith, revoked-evict cfg call.now user.id (record_login c call user ctx claims db))
