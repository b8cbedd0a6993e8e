-- ===== src/Models.antt =====
-- app/db/models.py: the rows that the modelled services read and write, and the database as a
-- record of tables. A table is the list of its rows in the order of insertion. DateTime columns
-- are whole microseconds. Columns that no modelled function reads or writes are left out.
mod Events
mod Mfa
mod Grants
pub use Events.*
pub use Mfa.*
pub use Grants.*
use omnibioai_auth.Prelude.{ℕ, ◌*◌, String, Bool, Option, List, ◌≡◌, ◌++◌, ◌∷◌, []}

pub record RefreshToken : Type 0 where
  pub user_id : ℕ
  pub token : String
  pub token_hash : String
  pub revoked : Bool
  pub expires_at : Time
  pub family_id : Option String
  pub rotated_at : Option Time

-- The values that `UserSession.status` is written with.
pub data Status : Type 0 where
  active revoked : Status

-- The `REASON_` constants of session_service.py.
pub data Reason : Type 0 where
  user_logout user_revoked reuse_detected idle_timeout absolute_timeout : Reason
  concurrent_limit account_disabled : Reason

unfoldable pub reason_text : Reason → String
reason_text user_logout = "user_logout"
reason_text user_revoked = "user_revoked"
reason_text reuse_detected = "reuse_detected"
reason_text idle_timeout = "idle_timeout"
reason_text absolute_timeout = "absolute_timeout"
reason_text concurrent_limit = "concurrent_session_limit"
reason_text account_disabled = "account_disabled"

pub record UserSession : Type 0 where
  pub session_id : String
  pub user_id : ℕ
  pub organization_id : Option ℕ
  pub org_role : List String
  pub auth_method : String
  pub mfa_verified : Bool
  pub status : Status
  pub created_at : Time
  pub last_activity_at : Time
  pub expires_at : Time
  pub revoked_at : Option Time
  pub revoked_reason : Option Reason
  pub client_ip : Option String
  pub user_agent : Option String
  pub saml_name_id : Option String
  pub saml_session_index : Option String
  pub organization_saml_config_id : Option ℕ

pub record Role : Type 0 where
  pub id : ℕ
  pub name : String
  pub organization_id : Option ℕ
  pub permissions : List String

pub record User : Type 0 where
  pub id : ℕ
  pub email : String
  pub hashed_password : Option String
  pub status : String
  pub roles : List Role
  pub last_login_at : Option Time
  pub authentication_method : Option String
  pub mfa_enabled : Bool
  pub mfa_status : String
  pub mfa_primary_method : Option String
  pub mfa_enabled_at : Option Time
  pub mfa_last_verified_at : Option Time
  pub status_changed_at : Option Time
  pub status_changed_reason : Option String
  pub status_changed_by_user_id : Option ℕ

pub record Organization : Type 0 where
  pub id : ℕ
  pub slug : String
  pub status : String

-- `organization` is the related row.
pub record OrganizationMembership : Type 0 where
  pub id : ℕ
  pub organization_id : ℕ
  pub organization : Organization
  pub user_id : ℕ
  pub status : String
  pub roles : List Role

pub record Team : Type 0 where
  pub id : ℕ
  pub organization_id : ℕ
  pub name : String
  pub description : Option String
  pub created_by_user_id : Option ℕ

pub record TeamMember : Type 0 where
  pub team_id : ℕ
  pub user_id : ℕ
  pub role : String
  pub invited_by_user_id : Option ℕ

pub record OAuthClient : Type 0 where
  pub client_id : String
  pub status : String
  pub expires_at : Option Time
  pub scopes : Option (List String)

pub record Db : Type 0 where
  pub users : List User
  pub roles : List Role
  pub organizations : List Organization
  pub memberships : List OrganizationMembership
  pub teams : List Team
  pub team_members : List TeamMember
  pub oauth_clients : List OAuthClient
  pub refresh_tokens : List RefreshToken
  pub sessions : List UserSession
  pub revoked_tokens : List String
  pub audit_events : List AuditEvent
  pub mfa_devices : List MfaDevice
  pub recovery_codes : List RecoveryCode
  pub used_totp_steps : List UsedTotpStep
  pub email_otps : List EmailOtp
  pub mfa_policies : List MfaPolicy
  pub invitations : List OrganizationInvitation
  pub api_keys : List ApiKey

-- `db.add(event)` and the flush in `log_event`; its commit makes the write durable.
unfoldable pub log_event : AuditEvent → Db → Db
log_event event db = record db { audit_events = db.audit_events ++ event ∷ [] }
