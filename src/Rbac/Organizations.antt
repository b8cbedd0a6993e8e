-- ===== src/Rbac/Organizations.antt =====
-- Authorization within an organization and a team, in app/rbac.py.
use omnibioai_auth.Prelude.{
  ℕ, String, ◌≡◌, ◌⊎◌, inl, inr, true, false, not, ◌&&◌, some, [], ◌∷◌, arith, first, contains,
  ◌==◌, ◌≈◌, ok, Option-cases, Bool-cases, Result-cases,
}
use omnibioai_auth.Models.{Role, Team, TeamMember, Organization, OrganizationMembership, Db}
use omnibioai_auth.Org.{permissions_for_roles, get_role_by_name}
use omnibioai_auth.Team.{get_team, get_team_member}
use omnibioai_auth.TokenRevocation.{Payload}
use omnibioai_auth.Rbac.{
  claims_hold, is_service, is_member, grants, is_team_admin, get_org_membership,
  require_org_permission, platform_admin_membership, get_org_membership_or_platform_admin,
  require_org_permission_or_platform_admin, require_team_manage_permission,
}

module _ (permission : String) (org_id : ℕ) (db : Db) (user : Payload) where
  -- The caller is an active member of the organization, through a role that grants the permission.
  pub record IsMember : Type 0 where
    pub sub : ℕ
    pub row : OrganizationMembership
    pub subject : user.sub ≡ some sub
    pub stored : first (is_member org_id sub) db.memberships ≡ some row
    pub granted : grants permission row ≡ true

  -- The caller may act on every organization, the organization exists, and the platform's
  -- org_admin role grants the permission.
  pub record IsPlatformAdmin : Type 0 where
    pub org : Organization
    pub admin_role : Role
    pub not_service : is_service user ≡ false
    pub may_manage : claims_hold "manage_all_orgs" user.permissions ≡ true
    pub exists : first (λ o. o.id == org_id) db.organizations ≡ some org
    pub catalogued : get_role_by_name "org_admin" db ≡ some admin_role
    pub granted : contains permission (permissions_for_roles (admin_role ∷ [])) ≡ true

  member_of_allowed :
      (m : OrganizationMembership)
      → get_org_membership org_id db user ≡ ok m
      → grants permission m ≡ true
      → IsMember
  unfolding get_org_membership
  member_of_allowed m h g = elim (Option-cases user.sub) [
    | inl nobody ↦ absurd (ground arith)
    | inr (sub, e) ↦ record { sub = sub; row = m; subject = e; stored = ground arith; granted = g }
  ]

  admin_of_allowed :
      (m : OrganizationMembership)
      → is_service user ≡ false
      → claims_hold "manage_all_orgs" user.permissions ≡ true
      → platform_admin_membership org_id db user ≡ some m
      → grants permission m ≡ true
      → IsPlatformAdmin
  unfolding platform_admin_membership permissions_for_roles
  admin_of_allowed m ns may h g =
      elim (Option-cases (first (λ o. o.id == org_id) db.organizations)) [
        | inl unknown ↦ absurd (ground arith)
        | inr (org, eo) ↦ elim (Option-cases (get_role_by_name "org_admin" db)) [
          | inl uncatalogued ↦ absurd (ground arith)
          | inr (role, er) ↦
              let roles : m.roles ≡ role ∷ [] = ground arith in
              record {
                org = org;
                admin_role = role;
                not_service = ns;
                may_manage = may;
                exists = eo;
                catalogued = er;
                granted = rw roles at g;
              }
        ]
      ]

  membership_sound :
      (m : OrganizationMembership)
      → get_org_membership_or_platform_admin org_id db user ≡ ok m
      → grants permission m ≡ true
      → IsMember ⊎ IsPlatformAdmin
  unfolding get_org_membership_or_platform_admin
  membership_sound m h g =
      elim (Bool-cases (not (is_service user) && claims_hold "manage_all_orgs" user.permissions)) [
        | inr ordinary ↦ inl (member_of_allowed m (ground arith) g)
        | inl platform ↦ elim (Option-cases (platform_admin_membership org_id db user)) [
          | inl unresolved ↦ inl (member_of_allowed m (ground arith) g)
          | inr (m', e) ↦
              let same : platform_admin_membership org_id db user ≡ some m = ground arith in
              inr (admin_of_allowed m (ground arith) (ground arith) same g)
        ]
      ]

  -- Whom the check of an organization permission lets pass is an active member of that
  -- organization whose roles grant the permission, or a platform administrator of an organization
  -- that exists, where the catalogued org_admin role grants it.
  pub org_permission_sound :
      (m : OrganizationMembership)
      → require_org_permission_or_platform_admin permission org_id db user ≡ ok m
      → IsMember ⊎ IsPlatformAdmin
  unfolding require_org_permission_or_platform_admin
  org_permission_sound m h =
      let g : grants permission m ≡ true = ground arith in
      let found : get_org_membership_or_platform_admin org_id db user ≡ ok m = ground arith in
      membership_sound m found g

  -- Without `manage_all_orgs`, and for every service token, the check is the ordinary one.
  org_permission_ordinary :
      (not (is_service user) && claims_hold "manage_all_orgs" user.permissions) ≡ false
      → require_org_permission_or_platform_admin permission org_id db user
        ≡ require_org_permission permission org_id db user
  unfolding require_org_permission_or_platform_admin require_org_permission
  org_permission_ordinary h = ground arith

  -- The caller's row in the team's table says admin.
  pub record IsTeamAdmin (team_id : ℕ) : Type 0 where
    pub sub : ℕ
    pub row : TeamMember
    pub subject : user.sub ≡ some sub
    pub stored : get_team_member team_id sub db ≡ some row
    pub role_admin : (row.role ≈ "admin") ≡ true

  IsTeamAdmin-of_allowed :
      (team_id : ℕ) → is_team_admin team_id user.sub db ≡ ok true → IsTeamAdmin team_id
  IsTeamAdmin-of_allowed team_id h = elim (Option-cases user.sub) [
    | inl nobody ↦ absurd (ground arith)
    | inr (sub, e) ↦ elim (Option-cases (get_team_member team_id sub db)) [
      | inl stranger ↦ absurd (ground arith)
      | inr (row, er) ↦ record {
        sub = sub;
        row = row;
        subject = e;
        stored = er;
        role_admin = ground arith;
      }
    ]
  ]

  team_answer :
      (team_id : ℕ) (team : Team) (m : OrganizationMembership)
      → get_org_membership_or_platform_admin org_id db user ≡ ok m
      → require_team_manage_permission permission org_id team_id db user ≡ ok team
      → (get_team org_id team_id db ≡ some team)
        × ((grants permission m ≡ true) ⊎ (is_team_admin team_id user.sub db ≡ ok true))
  unfolding require_team_manage_permission
  team_answer team_id team m found h = elim (Bool-cases (grants permission m)) [
    | inl granted ↦ (ground arith, inl granted)
    | inr other ↦ (ground arith, inr (ground arith))
  ]

  allowed_membership :
      (team_id : ℕ) (team : Team)
      → require_team_manage_permission permission org_id team_id db user ≡ ok team
      → (m : OrganizationMembership) × (get_org_membership_or_platform_admin org_id db user ≡ ok m)
  unfolding require_team_manage_permission
  allowed_membership team_id team h =
      elim (Result-cases (get_org_membership_or_platform_admin org_id db user)) [
        | inl (m, e) ↦ (m, e)
        | inr (x, e) ↦ absurd (ground arith)
      ]

  -- Whom the check of a team lets pass manages the team's organization by the permission, or is an
  -- admin of the team by the table's row of this moment; the team belongs to that organization.
  pub team_permission_sound :
      (team_id : ℕ) (team : Team)
      → require_team_manage_permission permission org_id team_id db user ≡ ok team
      → (get_team org_id team_id db ≡ some team)
        × ((IsMember ⊎ IsPlatformAdmin) ⊎ IsTeamAdmin team_id)
  team_permission_sound team_id team h =
      let (m, found) = allowed_membership team_id team h in
      let (of_org, why) = team_answer team_id team m found h in
      elim why [
        | inl granted ↦ (of_org, inl (membership_sound m found granted))
        | inr admin ↦ (of_org, inr (IsTeamAdmin-of_allowed team_id admin))
      ]
