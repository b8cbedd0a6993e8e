-- ===== src/Models/Events.antt =====
-- Rows of the audit trail, as app/services/audit_service.py writes them. Of an event the states
-- before and after are left out.
use omnibioai_auth.Prelude.{ℕ, String, Option, List}

pub data AuditEventType : Type 0 where
  login_success login_failure session_revoked auth_rate_limit_triggered : AuditEventType
  mfa_rate_limit_triggered : AuditEventType
  mfa_device_enrollment_started mfa_device_added mfa_device_removed : AuditEventType
  mfa_enabled mfa_disabled mfa_verified mfa_verification_failed : AuditEventType
  mfa_challenge_required mfa_reset_by_admin mfa_recovery_code_used : AuditEventType
  mfa_recovery_codes_generated mfa_recovery_codes_regenerated : AuditEventType
  mfa_email_code_sent mfa_email_code_resent : AuditEventType
  mfa_policy_enabled mfa_policy_disabled : AuditEventType
  mfa_policy_override_created mfa_policy_override_removed : AuditEventType
  org_invitation_created org_invitation_expired org_invitation_revoked : AuditEventType
  org_invitation_accepted org_invitation_denied org_membership_changed : AuditEventType
  role_assigned role_removed role_assignment_denied role_created : AuditEventType
  permission_granted permission_revoked : AuditEventType
  api_key_created api_key_revoked api_key_renamed : AuditEventType
  user_enabled user_disabled : AuditEventType

-- A value in the `metadata` of an event, or a resource's id.
pub data Value : Type 0 where
  text : String → Value
  number : ℕ → Value
  null : Value
  texts : List String → Value

pub record AuditEvent : Type 0 where
  pub event_type : AuditEventType
  pub actor_user_id : Option ℕ
  pub target_user_id : Option ℕ
  pub organization_id : Option ℕ
  pub resource_type : Option String
  pub resource_id : Value
  pub metadata : List (String × Value)
