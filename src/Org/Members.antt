-- ===== src/Org/Members.antt =====
-- Memberships in app/services/org_service.py, and the status of an account in
-- app/services/user_admin_service.py. Keys of new rows are parameters.
use omnibioai_auth.Prelude.{
  ℕ, String, not, ◌||◌, Option, none, some, List, [], ◌∷◌, ◌++◌, ◌==◌, ◌≈◌, first, update_first,
  if◌then◌else◌, Result, ok, err,
}
use omnibioai_auth.Models.{
  Time, User, Organization, OrganizationMembership, Db, AuditEvent, Value, log_event,
  account_disabled, org_membership_changed, user_enabled, user_disabled,
}
use omnibioai_auth.Org.{get_membership}
use omnibioai_auth.Org.Roles.{get_or_create_role}
use omnibioai_auth.Auth.Refresh.{revoke_all_sessions_for_user}

-- The keys of the rows that a request may add.
pub record MemberKeys : Type 0 where
  pub role_id : ℕ
  pub membership_id : ℕ

abbrev membership_event : ℕ → OrganizationMembership → List (String × Value) → AuditEvent
membership_event actor m metadata = record {
  event_type = org_membership_changed;
  actor_user_id = some actor;
  target_user_id = some m.user_id;
  organization_id = some m.organization_id;
  resource_type = some "organization_membership";
  resource_id = Value.number m.id;
  metadata = metadata;
}

-- A membership with the base role, which is created with it if need be.
unfoldable pub add_membership :
    MemberKeys
    → Organization
    → ℕ
    → String
    → ℕ
    → List (String × Value)
    → Db
    → OrganizationMembership × Db
unfolding get_or_create_role log_event
add_membership keys org user_id status actor metadata db =
    let (role, db') = get_or_create_role keys.role_id "org_member" [] db in
    let m : OrganizationMembership = record {
      id = keys.membership_id;
      organization_id = org.id;
      organization = org;
      user_id = user_id;
      status = status;
      roles = role ∷ [];
    } in
    (
      m,
      log_event (membership_event actor m metadata)
          (record db' { memberships = db'.memberships ++ m ∷ [] }),
    )

-- A membership that is there stays as it is.
unfoldable pub jit_provision_membership :
    MemberKeys → Organization → ℕ → Db → OrganizationMembership × Db
unfolding get_membership add_membership
jit_provision_membership keys org user_id db = elim (get_membership org.id user_id db) [
  | some m ↦ (m, db)
  | none ↦
      add_membership keys org user_id "active" user_id
        (("reason", Value.text "sso_jit_provisioning") ∷ []) db
]

unfoldable pub invite_member :
    MemberKeys → Organization → String → User → Db → Option OrganizationMembership × Db
unfolding get_membership add_membership
invite_member keys org email invited_by db = elim (first (λ u. u.email ≈ email) db.users) [
  | none ↦ (none, db)
  | some invitee ↦ elim (get_membership org.id invitee.id db) [
    | some m ↦ (some m, db)
    | none ↦
        let (m, db') =
          add_membership keys org invitee.id "invited" invited_by.id
            (("reason", Value.text "invited") ∷ ("email", Value.text email) ∷ []) db in
        (some m, db')
  ]
]

abbrev reason_value : Option String → Value
reason_value none = Value.null
reason_value (some reason) = Value.text reason

abbrev with_status : Time → String → Option String → ℕ → User → User
with_status now status reason actor u = record u {
  status = status;
  status_changed_at = some now;
  status_changed_reason = reason;
  status_changed_by_user_id = some actor;
}

-- A change to a status that is not active ends every session of the account. The error is a status
-- that is not known.
unfoldable pub set_user_status : Time → User → String → Option String → ℕ → Db → Result String Db
unfolding revoke_all_sessions_for_user log_event
set_user_status now user status reason actor db =
    if not (status ≈ "active" || status ≈ "suspended")
    then err status
    else if status ≈ user.status
    then ok db
    else (let written = record db {
      users = update_first (λ u. u.id == user.id) (with_status now status reason actor) db.users;
    } in
        let ended =
          if status ≈ "active"
          then written
          else (revoke_all_sessions_for_user now user.id account_disabled (some actor) written).1 in
        ok (
          log_event
            (record {
              event_type = if status ≈ "active" then user_enabled else user_disabled;
              actor_user_id = some actor;
              target_user_id = some user.id;
              organization_id = none;
              resource_type = some "user";
              resource_id = Value.number user.id;
              metadata = ("reason", reason_value reason) ∷ [];
            })
            ended))
