-- ===== src/Rbac.antt =====
-- app/rbac.py: the dependencies that authorize a request. Each is a function of the verified
-- payload (`none` where `decode_token` raises), the blacklist and the database; what FastAPI
-- injects from another dependency is computed first.
pub mod Identity
pub mod Organizations
use omnibioai_auth.Prelude.{
  ℕ, String, Bool, true, false, not, ◌&&◌, ◌||◌, Option, none, some, List, [], ◌∷◌, is_none, ltb,
  first, contains, ◌==◌, ◌≈◌, holds, Result, ok, err, ◌>>=◌, ◌>>◌, if◌then◌else◌,
}
use omnibioai_auth.Models.{Time, Role, Team, OrganizationMembership, OAuthClient, Db}
use omnibioai_auth.Org.{permissions_for_roles, get_role_by_name}
use omnibioai_auth.Team.{get_team, get_team_member}
use omnibioai_auth.TokenRevocation.{
  Payload, HttpError, invalid_token, forbidden, service_token_required, organization_not_found,
  team_not_found, missing_claim, Blacklist, assert_token_usable,
}

abbrev pub Answer : Type 0 → Type 0
Answer A = Result HttpError A

-- `value in payload.get(claim, [])`
abbrev pub claims_hold : String → Option (List String) → Bool
claims_hold value none = false
claims_hold value (some values) = contains value values

abbrev pub is_service : Payload → Bool
is_service p = holds p.auth_method "client_credentials"

abbrev pub is_mfa : Payload → Bool
is_mfa p = holds p.token_type "mfa_challenge" || holds p.token_type "mfa_enrollment"

abbrev pub guard : Bool → HttpError → Answer (Unit {0})
guard true e = ok tt
guard false e = err e

module _ (r : Blacklist) where
  unfoldable pub get_current_user : Option Payload → r.Store → Db → Answer Payload
  get_current_user none s db = err invalid_token
  get_current_user (some p) s db =
      assert_token_usable r p s db
      >> guard (not (is_service p || holds p.token_type "delegated_execution")) invalid_token
      >> guard (not (is_mfa p)) invalid_token
      >> ok p

  unfoldable pub require_role : String → Option Payload → r.Store → Db → Answer Payload
  require_role role token s db = get_current_user token s db >>= λ user.
      guard (claims_hold role user.roles) forbidden >> ok user

  unfoldable pub require_permission : String → Option Payload → r.Store → Db → Answer Payload
  require_permission permission token s db = get_current_user token s db >>= λ user.
      guard (claims_hold permission user.permissions) forbidden >> ok user

-- A row of `organization_memberships` of an active member.
abbrev pub is_member : ℕ → ℕ → OrganizationMembership → Bool
is_member org_id user_id m =
    m.organization_id == org_id && (m.user_id == user_id && m.status ≈ "active")

unfoldable pub get_org_membership : ℕ → Db → Payload → Answer OrganizationMembership
get_org_membership org_id db user = elim user.sub [
  | none ↦ err missing_claim
  | some sub ↦ elim (first (is_member org_id sub) db.memberships) [
    | none ↦ err organization_not_found
    | some m ↦ ok m
  ]
]

abbrev pub grants : String → OrganizationMembership → Bool
grants permission m = contains permission (permissions_for_roles m.roles)

unfoldable pub require_org_permission : String → ℕ → Db → Payload → Answer OrganizationMembership
unfolding get_org_membership
require_org_permission permission org_id db user =
    get_org_membership org_id db user >>= λ m. guard (grants permission m) forbidden >> ok m

-- The row is never stored: its id is that of no row. `none` is also what an exception in it comes
-- to, as the caller swallows that.
unfoldable pub platform_admin_membership : ℕ → Db → Payload → Option OrganizationMembership
platform_admin_membership org_id db user = elim (first (λ o. o.id == org_id) db.organizations) [
  | none ↦ none
  | some org ↦ elim (get_role_by_name "org_admin" db) [
    | none ↦ none
    | some admin_role ↦ elim user.sub [
      | none ↦ none
      | some sub ↦ some (record {
        id = 0;
        organization_id = org_id;
        organization = org;
        user_id = sub;
        status = "active";
        roles = admin_role ∷ [];
      })
    ]
  ]
]

unfoldable pub get_org_membership_or_platform_admin :
    ℕ → Db → Payload → Answer OrganizationMembership
unfolding platform_admin_membership get_org_membership
get_org_membership_or_platform_admin org_id db user =
    let ordinary = get_org_membership org_id db user in
    if not (is_service user) && claims_hold "manage_all_orgs" user.permissions
    then elim (platform_admin_membership org_id db user) [
      | none ↦ ordinary
      | some synthetic ↦ ok synthetic
    ]
    else ordinary

unfoldable pub require_org_permission_or_platform_admin :
    String → ℕ → Db → Payload → Answer OrganizationMembership
unfolding get_org_membership_or_platform_admin
require_org_permission_or_platform_admin permission org_id db user =
    get_org_membership_or_platform_admin org_id db user >>= λ m.
    guard (grants permission m) forbidden >> ok m

-- A member of the team whose role is admin, as the team's table says now.
abbrev pub is_team_admin : ℕ → Option ℕ → Db → Answer Bool
is_team_admin team_id none db = err missing_claim
is_team_admin team_id (some sub) db = elim (get_team_member team_id sub db) [
  | none ↦ ok false
  | some m ↦ ok (m.role ≈ "admin")
]

unfoldable pub require_team_manage_permission : String → ℕ → ℕ → Db → Payload → Answer Team
unfolding get_org_membership_or_platform_admin
require_team_manage_permission permission org_id team_id db user =
    get_org_membership_or_platform_admin org_id db user >>= λ membership.
    elim (get_team org_id team_id db) [
      | none ↦ err team_not_found
      | some team ↦
          if grants permission membership
          then ok team
          else (is_team_admin team_id user.sub db >>= λ admin. guard admin forbidden >> ok team)
    ]

-- A token of a service: the scope is in the token alone.
unfoldable pub require_service_identity : Option Payload → Answer Payload
require_service_identity none = err invalid_token
require_service_identity (some p) = guard (is_service p) service_token_required >> ok p

unfoldable pub require_service_scope : String → Option Payload → Answer Payload
require_service_scope scope none = err invalid_token
require_service_scope scope (some p) =
    guard (is_service p) service_token_required
    >> guard (claims_hold scope p.scopes) forbidden
    >> ok p

-- The client that a service token names, as it stands in the table now.
abbrev pub is_live_client : Time → Option OAuthClient → Bool
is_live_client now none = false
is_live_client now (some client) =
    client.status ≈ "active" && elim client.expires_at [ none ↦ true | some t ↦ not (ltb t now) ]

abbrev pub client_scopes : Option OAuthClient → Option (List String)
client_scopes none = none
client_scopes (some client) = client.scopes

abbrev pub client_of : Payload → Db → Option OAuthClient
client_of p db = elim p.client_id [
  | none ↦ none
  | some id ↦ first (λ c. c.client_id ≈ id) db.oauth_clients
]

module _ (r : Blacklist) where
  unfoldable pub require_permission_or_service_scope :
      String → String → Time → Option Payload → r.Store → Db → Answer Payload
  unfolding require_permission
  require_permission_or_service_scope permission scope now none s db = err invalid_token
  require_permission_or_service_scope permission scope now (some p) s db =
      if not (is_service p)
      then require_permission r permission (some p) s db
      else (assert_token_usable r p s db
          >> guard (is_live_client now (client_of p db)) invalid_token
          >> guard
              (claims_hold scope p.scopes && claims_hold scope (client_scopes (client_of p db)))
              forbidden
          >> ok p)
