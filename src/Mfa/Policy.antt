-- ===== src/Mfa/Policy.antt =====
-- The policy of an organization on MFA in app/services/mfa_service.py.
use omnibioai_auth.Prelude.{
  ℕ, String, Bool, true, false, not, ◌&&◌, Option, none, some, [], ◌∷◌, ◌++◌, ◌==◌, is_none, first,
  update_first, if◌then◌else◌, Result, ok, err,
}
use omnibioai_auth.Models.{
  Time, MfaPolicy, Db, AuditEvent, AuditEventType, Value, log_event, mfa_policy_enabled,
  mfa_policy_disabled, mfa_policy_override_created, mfa_policy_override_removed,
}

pub data PolicyError : Type 0 where
  policy_exists : PolicyError

unfoldable pub get_org_mfa_policy : ℕ → Db → Option MfaPolicy
get_org_mfa_policy organization_id db =
    first (λ p. p.organization_id == organization_id) db.mfa_policies

abbrev pub reason_value : Option String → Value
reason_value none = Value.null
reason_value (some reason) = Value.text reason

abbrev policy_event : AuditEventType → ℕ → MfaPolicy → Option String → AuditEvent
policy_event event_type actor_user_id policy reason = record {
  event_type = event_type;
  actor_user_id = some actor_user_id;
  target_user_id = none;
  organization_id = some policy.organization_id;
  resource_type = some "organization_mfa_policy";
  resource_id = Value.number policy.id;
  metadata = ("reason", reason_value reason) ∷ [];
}

-- The row of `policy` is replaced.
abbrev pub save_policy : MfaPolicy → Db → Db
save_policy policy db = record db {
  mfa_policies = update_first (λ p. p.id == policy.id) (λ _. policy) db.mfa_policies;
}

unfoldable pub create_org_mfa_policy :
    Time → ℕ → ℕ → Bool → ℕ → Db → Result PolicyError (MfaPolicy × Db)
unfolding get_org_mfa_policy log_event
create_org_mfa_policy now id organization_id required actor_user_id db =
    if not (is_none (get_org_mfa_policy organization_id db))
    then err policy_exists
    else (let policy : MfaPolicy = record {
      id = id;
      organization_id = organization_id;
      required = required;
      created_at = now;
      updated_at = none;
      enabled_at = if required then some now else none;
      enabled_by_user_id = if required then some actor_user_id else none;
      override_active = false;
      override_reason = none;
      override_at = none;
      override_by_user_id = none;
    } in
        let added = record db { mfa_policies = db.mfa_policies ++ policy ∷ [] } in
        ok (
          policy,
          if required
              then log_event (policy_event mfa_policy_enabled actor_user_id policy none) added
              else added,
        ))

-- The new policy, before its event.
unfoldable pub with_required : Time → Bool → ℕ → MfaPolicy → MfaPolicy
with_required now required actor_user_id policy = record policy {
  required = required;
  updated_at = some now;
  enabled_at = if required && not policy.required then some now else policy.enabled_at;
  enabled_by_user_id =
      if required && not policy.required then some actor_user_id else policy.enabled_by_user_id;
}

abbrev flips : Bool → Bool → Bool
flips true b = not b
flips false b = b

unfoldable pub set_org_mfa_required :
    Time → MfaPolicy → Bool → ℕ → Option String → Db → MfaPolicy × Db
unfolding with_required log_event
set_org_mfa_required now policy required actor_user_id reason db =
    let changed = with_required now required actor_user_id policy in
    let saved = save_policy changed db in
    let event_type = if required then mfa_policy_enabled else mfa_policy_disabled in
    (
      changed,
      if flips policy.required required
          then log_event (policy_event event_type actor_user_id policy reason) saved
          else saved,
    )

unfoldable pub set_org_mfa_override : Time → MfaPolicy → String → ℕ → Db → MfaPolicy × Db
unfolding log_event
set_org_mfa_override now policy reason actor_user_id db =
    let changed = record policy {
      override_active = true;
      override_reason = some reason;
      override_at = some now;
      override_by_user_id = some actor_user_id;
    } in
    (
      changed,
      log_event (policy_event mfa_policy_override_created actor_user_id policy (some reason))
          (save_policy changed db),
    )

unfoldable pub clear_org_mfa_override : MfaPolicy → ℕ → Db → MfaPolicy × Db
unfolding log_event
clear_org_mfa_override policy actor_user_id db =
    let changed = record policy {
      override_active = false;
      override_reason = none;
      override_at = none;
      override_by_user_id = none;
    } in
    let saved = save_policy changed db in
    (
      changed,
      if policy.override_active
          then log_event
              (policy_event mfa_policy_override_removed actor_user_id policy policy.override_reason)
              saved
          else saved,
    )
