-- ===== src/Rbac/Identity.antt =====
-- Who passes for a user and who for a service in app/rbac.py.
use omnibioai_auth.Prelude.{
  ℕ, String, ◌≡◌, refl, Bool, true, false, Option, none, some, arith, holds, first, ◌==◌, ok, err,
  subst, sym, ◌≤◌, ◌⊎◌, inl, inr, ◌≈◌, Bool-cases, Option-cases, Result-cases,
}
use omnibioai_auth.Models.{Time, OAuthClient, Db}
use omnibioai_auth.TokenRevocation.{
  Payload, Blacklist, named, in_revoked_table, is_active_user, service_token_required,
  assert_token_usable,
}
use omnibioai_auth.Rbac.{
  claims_hold, is_service, is_mfa, is_live_client, client_of, client_scopes, get_current_user,
  require_service_scope, require_service_identity, require_permission,
  require_permission_or_service_scope,
}

-- The account that a token names, if it names one, is active.
abbrev pub subject_active : Option ℕ → Db → Bool
subject_active none db = true
subject_active (some sub) db = is_active_user (first (λ u. u.id == sub) db.users)

-- What the account checks of a token establish.
pub record IsUsable (p : Payload) (db : Db) : Type 0 where
  pub not_in_table : in_revoked_table (named p.jti) db ≡ false
  pub of_active : subject_active p.sub db ≡ true

pub record IsUser (token : Option Payload) (p : Payload) (db : Db) : Type 0 where
  pub verified : token ≡ some p
  pub usable : IsUsable p db
  pub not_service : is_service p ≡ false
  pub not_delegated : holds p.token_type "delegated_execution" ≡ false
  pub not_mfa : is_mfa p ≡ false

-- No expiry, or one that has not passed.
abbrev pub IsUnexpired : Time → Option Time → Type 0
IsUnexpired now none = Unit
IsUnexpired now (some t) = now ≤ t

-- What lets a service pass: its token, and the row of its client as it stands now.
pub record IsLiveService (scope : String) (now : Time) (token : Option Payload) (p : Payload)
    (db : Db) : Type 0 where
  pub client_id : String
  pub client : OAuthClient
  pub verified : token ≡ some p
  pub usable : IsUsable p db
  pub service : holds p.auth_method "client_credentials" ≡ true
  pub named : p.client_id ≡ some client_id
  pub stored : first (λ c. c.client_id ≈ client_id) db.oauth_clients ≡ some client
  pub client_active : (client.status ≈ "active") ≡ true
  pub not_expired : IsUnexpired now client.expires_at
  pub in_token : claims_hold scope p.scopes ≡ true
  pub in_row : claims_hold scope client.scopes ≡ true

unexpired :
    (now : Time) (client : OAuthClient)
    → is_live_client now (some client) ≡ true
    → IsUnexpired now client.expires_at
unexpired now client live = elim (Option-cases client.expires_at) [
  | inl e ↦ subst (IsUnexpired now) (sym e) tt
  | inr (t, e) ↦ subst (IsUnexpired now) (sym e) (ground (arith, e, live))
]

named_client :
    (p : Payload) (db : Db) (now : Time)
    → is_live_client now (client_of p db) ≡ true
    → (id : String) × (client : OAuthClient) × (p.client_id ≡ some id)
      × (first (λ c. c.client_id ≈ id) db.oauth_clients ≡ some client)
named_client p db now live = elim (Option-cases p.client_id) [
  | inl e ↦ absurd (ground (arith, e, live))
  | inr (id, e) ↦ elim (Option-cases (first (λ c. c.client_id ≈ id) db.oauth_clients)) [
    | inl missing ↦ absurd (ground (arith, e, missing, live))
    | inr (client, found) ↦ (id, client, e, found)
  ]
]

module _ (r : Blacklist) where
  IsUsable-of_asserted :
      (p : Payload) (s : r.Store) (db : Db) → assert_token_usable r p s db ≡ ok tt → IsUsable p db
  unfolding assert_token_usable
  IsUsable-of_asserted p s db h = record { not_in_table = ground arith; of_active = ground arith }

  -- Whom `get_current_user` lets pass has a verified token that is not revoked in the table, whose
  -- account, if it names one, is active, and that is neither a service's nor a delegated nor a
  -- pending MFA token.
  pub get_current_user-IsUser :
      (token : Option Payload) (s : r.Store) (db : Db) (p : Payload)
      → get_current_user r token s db ≡ ok p
      → IsUser token p db
  unfolding get_current_user
  get_current_user-IsUser none s db p h = cc
  get_current_user-IsUser (some q) s db p h =
      let passed : assert_token_usable r q s db ≡ ok tt = ground arith in
      let same : q ≡ p = ground arith in
      subst (λ x. IsUser (some q) x db) same
        (record {
          verified = refl;
          usable = IsUsable-of_asserted q s db passed;
          not_service = ground arith;
          not_delegated = ground arith;
          not_mfa = ground arith;
        })

  -- No token passes both for a user and for a service, whatever the scope, the blacklist and the
  -- database.
  pub user_is_no_service :
      (token : Option Payload) (s : r.Store) (db : Db) (p : Payload) (scope : String)
      → get_current_user r token s db ≡ ok p
      → (require_service_scope scope token ≡ err service_token_required)
        × (require_service_identity token ≡ err service_token_required)
  unfolding get_current_user require_service_scope require_service_identity
  user_is_no_service none s db p scope h = cc
  user_is_no_service (some q) s db p scope h = ground arith

  -- Who passes the mixed check: a user, as `get_current_user` has it, whose token carries the
  -- permission, or a service whose token is not revoked and holds the scope, while the row of its
  -- client is active, not past its expiry, and holds the scope too.
  pub mixed_check_sound :
      (permission scope : String) (now : Time) (token : Option Payload) (s : r.Store) (db : Db)
      (p : Payload)
      → require_permission_or_service_scope r permission scope now token s db ≡ ok p
      → (IsUser token p db × (claims_hold permission p.permissions ≡ true))
        ⊎ IsLiveService scope now token p db
  unfolding require_permission_or_service_scope require_permission
  mixed_check_sound permission scope now none s db p h = ground arith
  mixed_check_sound permission scope now (some q) s db p h = elim (Bool-cases (is_service q)) [
    | inl service ↦
        let passed : assert_token_usable r q s db ≡ ok tt = ground (arith, service, h) in
        let same : q ≡ p = ground (arith, service, h) in
        let live : is_live_client now (client_of q db) ≡ true = ground (arith, service, h) in
        let in_token : claims_hold scope q.scopes ≡ true = ground (arith, service, h) in
        let in_row : claims_hold scope (client_scopes (client_of q db)) ≡ true =
          ground (arith, service, h) in
        let (id, client, named, stored) = named_client q db now live in
        let here : client_of q db ≡ some client = ground (arith, named, stored) in
        inr (
          subst (λ x. IsLiveService scope now (some q) x db) same
            (record {
              client_id = id;
              client = client;
              verified = refl;
              usable = IsUsable-of_asserted q s db passed;
              service = service;
              named = named;
              stored = stored;
              client_active = ground (arith, here, live);
              not_expired =
                  unexpired now client (subst (λ o. is_live_client now o ≡ true) here live);
              in_token = in_token;
              in_row = ground (arith, here, in_row);
            }))
    | inr user ↦ elim (Result-cases (get_current_user r (some q) s db)) [
      | inl (q', passed) ↦
          let same : q' ≡ p = ground (arith, user, h, passed) in
          let granted : claims_hold permission q'.permissions ≡ true =
            ground (arith, user, h, passed) in
          inl (
            subst (λ x. IsUser (some q) x db × (claims_hold permission x.permissions ≡ true)) same
              (get_current_user-IsUser (some q) s db q' passed, granted))
      | inr (e, refused) ↦ absurd (ground (arith, user, h, refused))
    ]
  ]
