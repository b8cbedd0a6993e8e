-- ===== src/Org/Catalogue.antt =====
-- update_role_permissions of app/services/role_service.py, and of app/services/org_service.py the
-- creation of an organization, its lookups and the roles that are topped up at startup. Keys of
-- new rows are parameters. A role that a user or a member holds is a copy of its row.
use omnibioai_auth.Prelude.{
  ℕ, String, ◌≡◌, ◌∙◌, Bool, true, not, ◌&&◌, ◌||◌, Option, none, some, List, [], ◌∷◌, ◌++◌, map,
  arith, ◌==◌, ◌≈◌, contains, contains-append, contains-sorted_set, sorted_set, first, select,
  update_first, if◌then◌else◌, Result, ok, err, Option-cases, Result-cases, inl, inr,
}
use omnibioai_auth.Models.{
  Role, User, Organization, OrganizationMembership, Db, AuditEvent, Value, log_event,
  permission_granted, permission_revoked,
}
use omnibioai_auth.Org.{get_role_by_name}
use omnibioai_auth.Org.Roles.Scope.{texts_cases}
use omnibioai_auth.Org.Roles.{
  RoleError, validate_permission_names, validate_org_scoped_permission_names, create_role,
  get_or_create_role, offending,
}

-- `set(xs) - set(ys)`, in order.
unfoldable pub difference : List String → List String → List String
difference xs ys = sorted_set (select (λ s. not (contains s ys)) xs)

abbrev refresh_role : Role → Role → Role
refresh_role role r = if r.id == role.id then role else r

-- The row and the copies that are read through a user or a membership.
unfoldable pub write_role : Role → Db → Db
write_role role db = record db {
  roles = update_first (λ r. r.id == role.id) (λ _. role) db.roles;
  users = map {A = User} (λ u. record u { roles = map (refresh_role role) u.roles }) db.users;
  memberships =
      map {A = OrganizationMembership} (λ m. record m { roles = map (refresh_role role) m.roles })
        db.memberships;
}

abbrev permissions_event : Option ℕ → Role → List String → List String → AuditEvent
permissions_event actor role added removed = record {
  event_type = elim added [ [] ↦ permission_revoked | _ ∷ _ ↦ permission_granted ];
  actor_user_id = actor;
  target_user_id = none;
  organization_id = role.organization_id;
  resource_type = some "role";
  resource_id = Value.number role.id;
  metadata = ("added", Value.texts added) ∷ ("removed", Value.texts removed) ∷ [];
}

abbrev validate_replacement : Role → List String → Option ℕ → Db → Result RoleError (Unit {0}) × Db
validate_replacement role names actor db = elim role.organization_id [
  | some o ↦ validate_org_scoped_permission_names names o actor role.name (some role.id) db
  | none ↦ (validate_permission_names names, db)
]

abbrev audit_difference : Option ℕ → Role → List String → List String → Db → Db
audit_difference actor role [] [] db = db
audit_difference actor role [] (r ∷ rs) db = log_event (permissions_event actor role [] (r ∷ rs)) db
audit_difference actor role (a ∷ rest) removed db =
    log_event (permissions_event actor role (a ∷ rest) removed) db

unfoldable pub update_role_permissions :
    Role → List String → Option ℕ → Db → Result RoleError Role × Db
unfolding write_role difference validate_permission_names validate_org_scoped_permission_names
    log_event
update_role_permissions role permission_names actor db =
    let (checked, db') = validate_replacement role permission_names actor db in
    elim checked [
      | err e ↦ (err e, db')
      | ok _ ↦
          let updated : Role = record role { permissions = permission_names } in
          (
            ok updated,
            audit_difference actor role (difference permission_names role.permissions)
                (difference role.permissions permission_names) (write_role updated db'),
          )
    ]

abbrev pub org_admin_permissions : List String
org_admin_permissions =
    "manage_org" ∷ "manage_teams" ∷ "manage_api_keys" ∷ "manage_billing" ∷ "manage_oauth_clients"
    ∷ "manage_sso" ∷ "workflow.read" ∷ "workflow.manage" ∷ "runs.read" ∷ "model.resolve_ownership"
    ∷ "model.read" ∷ []

abbrev pub scientist_permissions : List String
scientist_permissions =
    "workflow.execute" ∷ "dataset.read" ∷ "model.use" ∷ "model.read" ∷ "workspace.launch"
    ∷ "runs.read" ∷ []

abbrev pub viewer_permissions : List String
viewer_permissions = "dataset.read" ∷ "workflow.read" ∷ []

-- `set(names) <= existing`
abbrev is_subset : List String → List String → Bool
is_subset [] existing = true
is_subset (name ∷ names) existing = contains name existing && is_subset names existing

-- `sorted(existing | set(names))`, written when a name is missing.
unfoldable pub top_up : Role → List String → Db → Result RoleError (Unit {0}) × Db
unfolding update_role_permissions
top_up role names db =
    if is_subset names role.permissions
    then (ok tt, db)
    else (let (updated, db') =
          update_role_permissions role (sorted_set (role.permissions ++ names)) none db in
        (elim updated [ ok _ ↦ ok tt | err e ↦ err e ], db'))

unfoldable pub ensure_org_admin_permissions : Db → Result RoleError (Unit {0}) × Db
unfolding get_role_by_name top_up
ensure_org_admin_permissions db = elim (get_role_by_name "org_admin" db) [
  | none ↦ (ok tt, db)
  | some role ↦ top_up role org_admin_permissions db
]

abbrev ensure_role : ℕ → String → List String → Db → Result RoleError (Unit {0}) × Db
ensure_role id name names db = elim (get_role_by_name name db) [
  | some role ↦ top_up role names db
  | none ↦
      let (created, db') = create_role id name names none none db in
      (elim created [ ok _ ↦ ok tt | err e ↦ err e ], db')
]

unfoldable pub ensure_default_org_roles : ℕ → ℕ → Db → Result RoleError (Unit {0}) × Db
unfolding get_role_by_name top_up create_role
ensure_default_org_roles scientist_id viewer_id db =
    let (first_done, db') = ensure_role scientist_id "scientist" scientist_permissions db in
    elim first_done [
      | err e ↦ (err e, db')
      | ok _ ↦ ensure_role viewer_id "viewer" viewer_permissions db'
    ]

-- The keys of the rows that a new organization may add.
pub record CreationKeys : Type 0 where
  pub organization_id : ℕ
  pub role_id : ℕ
  pub membership_id : ℕ

unfoldable pub create_organization : CreationKeys → String → User → Db → Organization × Db
unfolding get_or_create_role
create_organization keys slug creator db =
    let org : Organization = record { id = keys.organization_id; slug = slug; status = "active" } in
    let (role, db') =
      get_or_create_role keys.role_id "org_admin" org_admin_permissions
        (record db { organizations = db.organizations ++ org ∷ [] }) in
    (
      org,
      record db' {
        memberships =
            db'.memberships
            ++ record {
              id = keys.membership_id;
              organization_id = org.id;
              organization = org;
              user_id = creator.id;
              status = "active";
              roles = role ∷ [];
            }
              ∷ [];
      },
    )

unfoldable pub get_organization : ℕ → Db → Option Organization
get_organization org_id db = first (λ o. o.id == org_id) db.organizations

unfoldable pub get_organization_by_slug : String → Db → Option Organization
get_organization_by_slug slug db = first (λ o. o.slug ≈ slug) db.organizations

unfoldable pub list_members : ℕ → Db → List OrganizationMembership
list_members org_id db = select (λ m. m.organization_id == org_id) db.memberships

-- The names that a top-up writes are the ones before and the wanted ones: nothing is removed.
contains-top_up :
    (p : String) (before names : List String)
    → contains p (sorted_set (before ++ names)) ≡ (contains p before || contains p names)
contains-top_up p before names =
    contains-sorted_set p (before ++ names) ∙ contains-append p before names

-- A replacement that is refused leaves the catalogue as it is.
update_role_permissions-refused :
    (role : Role) (names : List String) (actor : Option ℕ) (db : Db) (e : RoleError)
    → (update_role_permissions role names actor db).0 ≡ err e
    → (update_role_permissions role names actor db).1.roles ≡ db.roles
unfolding update_role_permissions validate_org_scoped_permission_names log_event
update_role_permissions-refused role names actor db e h = elim (Option-cases role.organization_id) [
  | inl platform ↦ elim (Result-cases (validate_permission_names names)) [
    | inl (done, fine) ↦ ground (arith, h)
    | inr (refusal, bad) ↦ ground (arith, h)
  ]
  | inr (o, scoped) ↦ elim (Result-cases (validate_permission_names names)) [
    | inl (done, fine) ↦ elim (texts_cases (offending names)) [
      | inl none_bad ↦ ground (arith, h)
      | inr (n, ns, some_bad) ↦ ground (arith, h)
    ]
    | inr (refusal, bad) ↦ ground (arith, h)
  ]
]
