-- ===== src/Auth/Claims.antt =====
-- `build_user_claims` of app/services/auth_service.py, the payload of every user token.
use omnibioai_auth.Prelude.{
  ℕ, String, Bool, true, false, ◌||◌, ◌≡◌, refl, ◌∙◌, ap, arith, Option, none, some, List, [], ◌∷◌,
  ◌++◌, map, contains, contains-append, contains-sorted_set, sorted_set, sorted_texts,
}
use omnibioai_auth.Models.{Role, User, OrganizationMembership, Db}
use omnibioai_auth.Org.{
  permissions_for_roles, permissions_for_membership, resolve_primary_membership,
}
use omnibioai_auth.Team.{resolve_team_claim}

-- `sub` is the text of the number.
pub record Claims : Type 0 where
  pub sub : ℕ
  pub email : String
  pub roles : List String
  pub permissions : List String
  pub org_id : Option ℕ
  pub org_role : List String
  pub team_id : Option ℕ
  pub team_role : Option String
  pub auth_method : String
  pub idp_org_id : Option ℕ
  pub token_version : ℕ
  pub mfa_verified : Bool

abbrev pub role_names : List Role → List String
role_names = map (λ r. r.name)

-- `membership if membership is not None else resolve_primary_membership(db, user.id)`
abbrev pub claimed_membership :
    User → Option OrganizationMembership → Db → Option OrganizationMembership
claimed_membership user membership db = elim membership [
  | none ↦ resolve_primary_membership user.id db
  | some m ↦ some m
]

abbrev pub org_of : Option OrganizationMembership → Option ℕ
org_of none = none
org_of (some m) = some m.organization_id

abbrev org_role_of : Option OrganizationMembership → List String
org_role_of none = []
org_role_of (some m) = sorted_texts (role_names m.roles)

abbrev pub org_permissions_of : Option OrganizationMembership → List String
org_permissions_of none = []
org_permissions_of (some m) = permissions_for_membership m

unfoldable pub build_user_claims :
    User → String → Option ℕ → Option ℕ → Option OrganizationMembership → Db → Claims
build_user_claims user auth_method idp_org_id requested_team_id membership db =
    let org_membership = claimed_membership user membership db in
    let org_id = org_of org_membership in
    let (team_id, team_role) = resolve_team_claim org_id requested_team_id user.id db in
    record {
      sub = user.id;
      email = user.email;
      roles = role_names user.roles;
      permissions =
          sorted_set (permissions_for_roles user.roles ++ org_permissions_of org_membership);
      org_id = org_id;
      org_role = org_role_of org_membership;
      team_id = team_id;
      team_role = team_role;
      auth_method = auth_method;
      idp_org_id = idp_org_id;
      token_version = 2;
      mfa_verified = true;
    }

-- A role of the list has the permission among its own.
abbrev pub granted_by : String → List Role → Bool
granted_by p [] = false
granted_by p (role ∷ roles) = contains p role.permissions || granted_by p roles

abbrev pub granted_in : String → Option OrganizationMembership → Bool
granted_in p none = false
granted_in p (some m) = granted_by p m.roles

contains-permissions_for_roles :
    (p : String) (roles : List Role) → contains p (permissions_for_roles roles) ≡ granted_by p roles
unfolding permissions_for_roles
contains-permissions_for_roles p [] = refl
contains-permissions_for_roles p (role ∷ roles) =
    contains-append p role.permissions (permissions_for_roles roles)
    ∙ ap (λ b. contains p role.permissions || b) (contains-permissions_for_roles p roles)

contains-org_permissions_of :
    (p : String) (m : Option OrganizationMembership)
    → contains p (org_permissions_of m) ≡ granted_in p m
unfolding permissions_for_membership
contains-org_permissions_of p none = refl
contains-org_permissions_of p (some m) = contains-permissions_for_roles p m.roles

-- A token carries a permission exactly when one of the account's global roles has it among its
-- permissions, or one of the roles of the membership that the token is scoped to.
pub claims_permission :
    (user : User) (method : String) (idp team : Option ℕ) (m : Option OrganizationMembership)
    (db : Db) (p : String)
    → contains p (build_user_claims user method idp team m db).permissions
      ≡ (granted_by p user.roles || granted_in p (claimed_membership user m db))
unfolding build_user_claims
claims_permission user method idp team m db p =
    let org = org_permissions_of (claimed_membership user m db) in
    contains-sorted_set p (permissions_for_roles user.roles ++ org)
    ∙ contains-append p (permissions_for_roles user.roles) org
    ∙ ground (
      arith,
      contains-permissions_for_roles p user.roles,
      contains-org_permissions_of p (claimed_membership user m db),
    )
