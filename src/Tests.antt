-- ===== src/Tests.antt =====
-- Concrete data, on which the children run the modelled code.
mod Tokens
mod Sessions
mod Access
mod Teams
mod Throttling
mod Passwords
mod Factors
mod Challenges
mod Invitations
mod Keys
mod NewPasswords
use omnibioai_auth.Prelude.{ℕ, String, true, false, none, some, List, [], ◌∷◌}
use omnibioai_auth.Models.{
  Time, seconds, RefreshToken, Status, active, revoked, user_revoked, UserSession, Role, User,
  Organization, OrganizationMembership, Team, TeamMember, OAuthClient, Db,
}
use omnibioai_auth.Session.{Settings}
use omnibioai_auth.Auth.Claims.{Claims}
use omnibioai_auth.Auth.Refresh.{Crypto, Call}
use omnibioai_auth.Auth.Issue.{LoginContext}

-- Sessions live for 100 seconds, idle for 50, two to an account.
abbrev pub short_sessions : Settings
short_sessions = record {
  absolute_timeout_seconds = 100;
  idle_timeout_seconds = 50;
  max_concurrent = 2;
}

-- Every text is its own hash, and no token decodes.
abbrev pub plain : Crypto
plain = record { sha256 = λ s. s; decode_token = λ s. none }

abbrev pub request : Time → String → String → Call
request now uuid signed = record {
  now = now;
  uuid = uuid;
  access_token = λ claims. "access";
  refresh_token = λ claims. signed;
}

abbrev pub password_login : LoginContext
password_login = record {
  auth_method = "password";
  idp_org_id = none;
  client_ip = none;
  user_agent = some "browser";
  saml_name_id = none;
  saml_session_index = none;
  organization_saml_config_id = none;
}

abbrev pub org_admin : Role
org_admin = record {
  id = 1;
  name = "org_admin";
  organization_id = none;
  permissions = "manage_teams" ∷ "read_org" ∷ [];
}

abbrev pub superuser : Role
superuser = record {
  id = 2;
  name = "platform_admin";
  organization_id = none;
  permissions = "manage_all_orgs" ∷ [];
}

abbrev pub alice : User
alice = record {
  id = 1;
  email = "alice@lab";
  hashed_password = none;
  status = "active";
  roles = superuser ∷ [];
  last_login_at = none;
  authentication_method = none;
  mfa_enabled = false;
  mfa_status = "disabled";
  mfa_primary_method = none;
  mfa_enabled_at = none;
  mfa_last_verified_at = none;
  status_changed_at = none;
  status_changed_reason = none;
  status_changed_by_user_id = none;
}

abbrev pub bob : User
bob = record {
  id = 2;
  email = "bob@lab";
  hashed_password = none;
  status = "active";
  roles = [];
  last_login_at = none;
  authentication_method = none;
  mfa_enabled = false;
  mfa_status = "disabled";
  mfa_primary_method = none;
  mfa_enabled_at = none;
  mfa_last_verified_at = none;
  status_changed_at = none;
  status_changed_reason = none;
  status_changed_by_user_id = none;
}

abbrev pub lab : Organization
lab = record { id = 10; slug = "lab"; status = "active" }

abbrev pub membership : ℕ → ℕ → List Role → OrganizationMembership
membership id user_id roles = record {
  id = id;
  organization_id = 10;
  organization = lab;
  user_id = user_id;
  status = "active";
  roles = roles;
}

abbrev pub genomics : Team
genomics = record {
  id = 5;
  organization_id = 10;
  name = "genomics";
  description = none;
  created_by_user_id = some 1;
}

abbrev pub member : ℕ → String → TeamMember
member user_id role = record {
  team_id = 5;
  user_id = user_id;
  role = role;
  invited_by_user_id = none;
}

abbrev pub pipeline : OAuthClient
pipeline = record {
  client_id = "pipeline";
  status = "active";
  expires_at = none;
  scopes = some ("jobs" ∷ []);
}

abbrev pub token : String → String → RefreshToken
token text family = record {
  user_id = 1;
  token = text;
  token_hash = text;
  revoked = false;
  expires_at = seconds 1000;
  family_id = some family;
  rotated_at = none;
}

-- A session of alice's, by its id, status, and time of creation.
abbrev pub session : String → Status → Time → UserSession
session id status created = record {
  session_id = id;
  user_id = 1;
  organization_id = some 10;
  org_role = [];
  auth_method = "password";
  mfa_verified = true;
  status = status;
  created_at = created;
  last_activity_at = created;
  expires_at = seconds 1000;
  revoked_at = none;
  revoked_reason = none;
  client_ip = none;
  user_agent = none;
  saml_name_id = some "alice";
  saml_session_index = some "index";
  organization_saml_config_id = some 3;
}

-- Alice has the sessions f1 and f2, with the tokens t1 and t2, and f3, which is revoked, with t3.
abbrev pub db : Db
db = record {
  users = alice ∷ bob ∷ [];
  roles = org_admin ∷ superuser ∷ [];
  organizations = lab ∷ [];
  memberships = membership 1 1 [] ∷ membership 2 2 (org_admin ∷ []) ∷ [];
  teams = genomics ∷ [];
  team_members = member 1 "admin" ∷ member 2 "member" ∷ [];
  oauth_clients = pipeline ∷ [];
  refresh_tokens = token "t1" "f1" ∷ token "t2" "f2" ∷ token "t3" "f3" ∷ [];
  sessions = session "f1" active 0 ∷ session "f2" active (seconds 1) ∷ session "f3" revoked 0 ∷ [];
  revoked_tokens = "old" ∷ [];
  audit_events = [];
  mfa_devices = [];
  recovery_codes = [];
  used_totp_steps = [];
  email_otps = [];
  mfa_policies = [];
  invitations = [];
  api_keys = [];
}
