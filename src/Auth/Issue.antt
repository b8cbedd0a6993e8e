-- ===== src/Auth/Issue.antt =====
-- The issue of tokens at a login, `generate_tokens` of app/services/auth_service.py, with the cap
-- on concurrent sessions. The provisioning of a tenant that it schedules afterwards runs in
-- another thread and is not modelled.
use omnibioai_auth.Prelude.{
  ℕ, ◌+◌, ◌-◌, String, Bool, true, false, Option, none, some, List, [], ◌∷◌, ◌++◌, leb, ◌==◌, ◌≈◌,
  length, take, select, update_first, sort_by, if◌then◌else◌,
}
use omnibioai_auth.Models.{Time, UserSession, concurrent_limit, User, Db}
use omnibioai_auth.Session.{Settings, EffectiveStatus, status_active, effective_status, create}
use omnibioai_auth.Auth.Claims.{Claims, build_user_claims}
use omnibioai_auth.Auth.Refresh.{
  Crypto, Call, refresh_ttl, successor, revoke_sessions, open_session_of,
}

abbrev pub is_effective : EffectiveStatus → Bool
is_effective status_active = true
is_effective _ = false

abbrev pub effectively_active : Settings → Time → UserSession → Bool
effectively_active cfg now s = is_effective (effective_status cfg now s)

-- The candidates in the order of `created_at`, then those that still count.
abbrev pub live_sessions : Settings → Time → ℕ → Db → List UserSession
live_sessions cfg now user_id db =
    select (effectively_active cfg now)
      (sort_by (λ s. s.created_at) (select (open_session_of user_id) db.sessions))

-- `excess` is positive when `len(effectively_active) + 1` passes the cap; a cap of 0 or a list
-- shorter than the excess evicts all.
unfoldable pub evict_oldest_sessions_over_limit : Settings → Time → ℕ → Db → Db
evict_oldest_sessions_over_limit cfg now user_id db =
    let live = live_sessions cfg now user_id db in
    if leb (length live + 1) cfg.max_concurrent
    then db
    else (revoke_sessions now user_id concurrent_limit none
        (take (length live + 1 - cfg.max_concurrent) live) db)

-- `_PERSISTED_AUTH_METHODS.get(auth_method, "unknown")`
unfoldable pub persisted_auth_method : String → String
persisted_auth_method m =
    if m ≈ "password"
    then "password"
    else if m ≈ "oauth"
    then "oauth"
    else if m ≈ "sso"
    then "oidc"
    else if m ≈ "saml"
    then "saml"
    else "unknown"

-- The optional arguments of a login.
pub record LoginContext : Type 0 where
  pub auth_method : String
  pub idp_org_id : Option ℕ
  pub client_ip : Option String
  pub user_agent : Option String
  pub saml_name_id : Option String
  pub saml_session_index : Option String
  pub organization_saml_config_id : Option ℕ

-- The writes to the account and to `refresh_tokens`, before the eviction.
unfoldable pub record_login : Crypto → Call → User → LoginContext → Claims → Db → Db
unfolding persisted_auth_method
record_login c call user ctx claims db =
    let signed = call.refresh_token claims in
    record db {
      users =
          update_first (λ u. u.id == user.id)
            (λ u. record u {
              last_login_at = some call.now;
              authentication_method = some (persisted_auth_method ctx.auth_method);
            })
            db.users;
      refresh_tokens = db.refresh_tokens ++ successor c call call.uuid user signed ∷ [];
    }

unfoldable pub generate_tokens :
    Settings → Crypto → Call → User → LoginContext → Db → (String × String) × Db
unfolding record_login evict_oldest_sessions_over_limit
generate_tokens cfg c call user ctx db =
    let claims = build_user_claims user ctx.auth_method ctx.idp_org_id none none db in
    let evicted =
      evict_oldest_sessions_over_limit cfg call.now user.id
        (record_login c call user ctx claims db) in
    (
      (call.access_token claims, call.refresh_token claims),
      create call.now
          (record {
            session_id = call.uuid;
            user_id = user.id;
            organization_id = claims.org_id;
            org_role = claims.org_role;
            auth_method = ctx.auth_method;
            mfa_verified = claims.mfa_verified;
            expires_at = call.now + refresh_ttl;
            client_ip = ctx.client_ip;
            user_agent = ctx.user_agent;
            saml_name_id = ctx.saml_name_id;
            saml_session_index = ctx.saml_session_index;
            organization_saml_config_id = ctx.organization_saml_config_id;
          })
          evicted,
    )
