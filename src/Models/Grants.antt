-- ===== src/Models/Grants.antt =====
-- The rows of invitations and API keys in app/db/models.py.
use omnibioai_auth.Prelude.{ℕ, String, Bool, Option, List}
use omnibioai_auth.Models.Mfa.{Time}

-- The values of `OrganizationInvitation.status`.
pub data InvitationStatus : Type 0 where
  pending accepted revoked expired : InvitationStatus

pub record OrganizationInvitation : Type 0 where
  pub id : ℕ
  pub organization_id : ℕ
  pub invited_by_user_id : ℕ
  pub inviter_is_platform_admin : Bool
  pub invited_email : String
  pub role_names : List String
  pub token_hash : String
  pub active_key : Option String
  pub status : InvitationStatus
  pub created_at : Time
  pub expires_at : Time
  pub accepted_at : Option Time
  pub accepted_user_id : Option ℕ
  pub revoked_at : Option Time
  pub revoked_by_user_id : Option ℕ
  pub mfa_secret_encrypted : Option String
  pub mfa_attempts : ℕ

pub record ApiKey : Type 0 where
  pub id : ℕ
  pub organization_id : ℕ
  pub created_by_user_id : ℕ
  pub name : String
  pub key_prefix : String
  pub key_hash : String
  pub scopes : List String
  pub status : String
  pub expires_at : Option Time
  pub last_used_at : Option Time
  pub created_at : Time
  pub revoked_at : Option Time
  pub revoked_reason : Option String
