-- ===== src/Org/Roles.antt =====
-- Roles and their assignment in app/services/role_service.py and org_service.py. Keys of new rows
-- are parameters; a role that is created gets the permissions as names.
pub mod Scope
use omnibioai_auth.Prelude.{
  ℕ, String, Bool, true, false, not, ◌&&◌, ◌||◌, Option, none, some, List, [], ◌∷◌, ◌++◌, map, ◌==◌,
  ◌≈◌, is_none, contains, sorted_set, sorted_texts, first, select, update_first, delete_first,
  if◌then◌else◌, Result, ok, err, ◌>>=◌,
}
use omnibioai_auth.Models.{
  Role, User, OrganizationMembership, Db, AuditEvent, AuditEventType, Value, log_event,
  role_assigned, role_removed, role_assignment_denied, role_created,
}
use omnibioai_auth.Org.{get_role_by_name}
use omnibioai_auth.Org.Registry.{global_scope_permissions, is_known_permission}

-- The text of the name that is refused, or the names.
pub data RoleError : Type 0 where
  unknown_role unknown_permission name_taken : String → RoleError
  global_role : String → List String → RoleError

abbrev in_org : ℕ → Role → Bool
in_org organization_id r = elim r.organization_id [ none ↦ false | some o ↦ o == organization_id ]

abbrev pub in_scope : ℕ → Role → Bool
in_scope organization_id r = is_none r.organization_id || in_org organization_id r

unfoldable pub list_roles_for_scope : ℕ → Db → List Role
list_roles_for_scope organization_id db = select (in_scope organization_id) db.roles

unfoldable pub get_role : ℕ → Db → Option Role
get_role role_id db = first (λ r. r.id == role_id) db.roles

-- A role of exactly that organization.
unfoldable pub get_org_role_by_name : String → ℕ → Db → Option Role
get_org_role_by_name name organization_id db =
    first (λ r. r.name ≈ name && in_org organization_id r) db.roles

unfoldable pub get_role_in_scope : String → ℕ → Db → Option Role
get_role_in_scope name organization_id db =
    first (λ r. r.name ≈ name && in_scope organization_id r) db.roles

abbrev pub has_role : ℕ → List Role → Bool
has_role role_id [] = false
has_role role_id (r ∷ rs) = r.id == role_id || has_role role_id rs

abbrev any_user : ℕ → List User → Bool
any_user role_id [] = false
any_user role_id (u ∷ us) = has_role role_id u.roles || any_user role_id us

abbrev any_member : ℕ → List OrganizationMembership → Bool
any_member role_id [] = false
any_member role_id (m ∷ ms) = has_role role_id m.roles || any_member role_id ms

unfoldable pub role_in_use : ℕ → Db → Bool
role_in_use role_id db = any_user role_id db.users || any_member role_id db.memberships

unfoldable pub get_or_create_role : ℕ → String → List String → Db → Role × Db
unfolding get_role_by_name
get_or_create_role id name permission_names db = elim (get_role_by_name name db) [
  | some role ↦ (role, db)
  | none ↦
      let role : Role = record {
        id = id;
        name = name;
        organization_id = none;
        permissions = permission_names;
      } in
      (role, record db { roles = db.roles ++ role ∷ [] })
]

abbrev write_user : ℕ → (User → User) → Db → Db
write_user id f db = record db { users = update_first (λ u. u.id == id) f db.users }

unfoldable pub assign_default_role : ℕ → User → Db → Db
unfolding get_or_create_role
assign_default_role id user db =
    let (role, db') = get_or_create_role id "user" [] db in
    if has_role role.id user.roles
    then db'
    else write_user user.id (λ u. record u { roles = u.roles ++ role ∷ [] }) db'

abbrev clashes : Option ℕ → Option Role → Bool
clashes exclude none = false
clashes exclude (some r) = elim exclude [ none ↦ true | some id ↦ not (r.id == id) ]

-- A platform-wide name is taken everywhere, and another one within its organization.
unfoldable pub check_name_available :
    String → Option ℕ → Option ℕ → Db → Result RoleError (Unit {0})
unfolding get_role_by_name get_org_role_by_name
check_name_available name organization_id exclude_role_id db =
    if clashes exclude_role_id (get_role_by_name name db)
    then err (name_taken name)
    else elim organization_id [
      | none ↦ ok tt
      | some o ↦
          if clashes exclude_role_id (get_org_role_by_name name o db)
          then err (name_taken name)
          else ok tt
    ]

unfoldable pub validate_permission_names : List String → Result RoleError (Unit {0})
unfolding is_known_permission
validate_permission_names [] = ok tt
validate_permission_names (name ∷ names) =
    let rest = validate_permission_names names in
    if is_known_permission name then rest else err (unknown_permission name)

-- `GLOBAL_SCOPE_PERMISSIONS & set(names)`, in order.
unfoldable pub offending : List String → List String
unfolding global_scope_permissions
offending names = sorted_set (select (λ n. contains n global_scope_permissions) names)

abbrev denied : Option ℕ → Option ℕ → ℕ → Value → String → String → List String → AuditEvent
denied actor_user_id target_user_id organization_id role_id reason role names = record {
  event_type = role_assignment_denied;
  actor_user_id = actor_user_id;
  target_user_id = target_user_id;
  organization_id = some organization_id;
  resource_type = some "role";
  resource_id = role_id;
  metadata =
      ("reason", Value.text reason)
      ∷ ("role", Value.text role)
      ∷ ("offending_permissions", Value.texts names)
      ∷ [];
}

abbrev role_id_value : Option ℕ → Value
role_id_value none = Value.null
role_id_value (some id) = Value.number id

-- A refusal is audited.
unfoldable pub validate_org_scoped_permission_names :
    List String → ℕ → Option ℕ → String → Option ℕ → Db → Result RoleError (Unit {0}) × Db
unfolding validate_permission_names offending log_event
validate_org_scoped_permission_names names organization_id actor role_name role_id db =
    elim (validate_permission_names names) [
      | err e ↦ (err e, db)
      | ok _ ↦ elim (offending names) [
        | [] ↦ (ok tt, db)
        | n ∷ ns ↦ (
          err (global_role role_name (n ∷ ns)),
          log_event
              (denied actor none organization_id (role_id_value role_id)
                "org_scoped_role_with_global_permission" role_name (n ∷ ns))
              db,
        )
      ]
    ]

abbrev validated :
    List String → Option ℕ → Option ℕ → String → Db → Result RoleError (Unit {0}) × Db
validated names none actor name db = (validate_permission_names names, db)
validated names (some o) actor name db =
    validate_org_scoped_permission_names names o actor name none db

unfoldable pub create_role :
    ℕ → String → List String → Option ℕ → Option ℕ → Db → Result RoleError Role × Db
unfolding check_name_available validate_permission_names validate_org_scoped_permission_names
    log_event
create_role id name permission_names actor organization_id db =
    elim (check_name_available name organization_id none db) [
      | err e ↦ (err e, db)
      | ok _ ↦
          let (checked, db') = validated permission_names organization_id actor name db in
          elim checked [
            | err e ↦ (err e, db')
            | ok _ ↦
                let role : Role = record {
                  id = id;
                  name = name;
                  organization_id = organization_id;
                  permissions = permission_names;
                } in
                (
                  ok role,
                  log_event
                      (record {
                        event_type = role_created;
                        actor_user_id = actor;
                        target_user_id = none;
                        organization_id = organization_id;
                        resource_type = some "role";
                        resource_id = Value.number id;
                        metadata = [];
                      })
                      (record db' { roles = db'.roles ++ role ∷ [] }),
                )
          ]
    ]

abbrev role_event : AuditEventType → Option ℕ → ℕ → Option ℕ → String → ℕ → AuditEvent
role_event event_type actor target organization_id resource_type id = record {
  event_type = event_type;
  actor_user_id = actor;
  target_user_id = some target;
  organization_id = organization_id;
  resource_type = some resource_type;
  resource_id = Value.number id;
  metadata = [];
}

unfoldable pub add_user_role : User → Role → Option ℕ → Db → Db
unfolding log_event
add_user_role user role actor db =
    if has_role role.id user.roles
    then db
    else log_event (role_event role_assigned actor user.id none "role" role.id)
        (write_user user.id (λ u. record u { roles = u.roles ++ role ∷ [] }) db)

unfoldable pub remove_user_role : User → Role → Option ℕ → Db → Db
unfolding log_event
remove_user_role user role actor db =
    if has_role role.id user.roles
    then log_event (role_event role_removed actor user.id none "role" role.id) (
        write_user user.id (λ u. record u { roles = delete_first (λ r. r.id == role.id) u.roles })
          db)
    else db

unfoldable pub delete_role : Role → Db → Db
delete_role role db = record db { roles = delete_first (λ r. r.id == role.id) db.roles }

-- Platform-wide roles only.
unfoldable pub resolve_roles : List String → Db → Result RoleError (List Role)
unfolding get_role_by_name
resolve_roles [] db = ok []
resolve_roles (name ∷ names) db =
    let rest = resolve_roles names db in
    elim (get_role_by_name name db) [
      | none ↦ err (unknown_role name)
      | some role ↦ rest >>= λ roles. ok (role ∷ roles)
    ]

module _ (organization_id : ℕ) (caller_is_platform_admin : Bool) (actor target : Option ℕ) where
  -- A role that only a platform administrator may assign is refused, and the refusal audited.
  unfoldable pub resolve_roles_for_org : List String → Db → Result RoleError (List Role) × Db
  unfolding get_role_in_scope offending log_event
  resolve_roles_for_org [] db = (ok [], db)
  resolve_roles_for_org (name ∷ names) db =
      let (rest, db') = resolve_roles_for_org names db in
      elim (get_role_in_scope name organization_id db) [
        | none ↦ (err (unknown_role name), db)
        | some role ↦
            let bad : List String =
              if caller_is_platform_admin then [] else offending role.permissions in
            elim bad [
              | [] ↦ (rest >>= λ roles. ok (role ∷ roles), db')
              | n ∷ ns ↦ (
                err (global_role name (n ∷ ns)),
                log_event
                    (denied actor target organization_id (Value.number role.id)
                      "org_scoped_assignment_of_global_permission_role" name (n ∷ ns))
                    db,
              )
            ]
      ]

abbrev write_membership : ℕ → (OrganizationMembership → OrganizationMembership) → Db → Db
write_membership id f db = record db {
  memberships = update_first (λ m. m.id == id) f db.memberships;
}

abbrev member_event : AuditEventType → Option ℕ → OrganizationMembership → AuditEvent
member_event event_type actor m =
    role_event event_type actor m.user_id (some m.organization_id) "organization_membership_roles"
      m.id

same_texts : List String → List String → Bool
same_texts [] [] = true
same_texts [] (y ∷ ys) = false
same_texts (x ∷ xs) [] = false
same_texts (x ∷ xs) (y ∷ ys) = x ≈ y && same_texts xs ys

abbrev sorted_names : List Role → List String
sorted_names roles = sorted_texts (map (λ r. r.name) roles)

unfoldable pub set_member_roles : OrganizationMembership → List Role → Option ℕ → Db → Db
unfolding log_event same_texts
set_member_roles m roles actor db =
    let written = write_membership m.id (λ x. record x { roles = roles }) db in
    if same_texts (sorted_names m.roles) (sorted_names roles)
    then written
    else log_event (member_event role_assigned actor m) written

unfoldable pub add_member_role : OrganizationMembership → Role → Option ℕ → Db → Db
unfolding log_event
add_member_role m role actor db =
    if has_role role.id m.roles
    then db
    else log_event (member_event role_assigned actor m)
        (write_membership m.id (λ x. record x { roles = x.roles ++ role ∷ [] }) db)

unfoldable pub remove_member_role : OrganizationMembership → Role → Option ℕ → Db → Db
unfolding log_event
remove_member_role m role actor db =
    if has_role role.id m.roles
    then log_event (member_event role_removed actor m) (
        write_membership m.id
          (λ x. record x { roles = delete_first (λ r. r.id == role.id) x.roles }) db)
    else db
