-- ===== src/Session.antt =====
-- app/services/session_service.py: the `sessions` table, one row for each family of refresh
-- tokens. `now` is `datetime.utcnow()`, read once for each request; the settings are the
-- `SESSION_` values of app/core/config.py.
pub mod Revocation
pub mod Timeouts
use Prim.Native.String.{[] as no_text, ◌∷◌ as cons_text}
use omnibioai_auth.Prelude.{
  ℕ, zero, suc, ◌+◌, String, Bool, true, false, not, ◌&&◌, Option, none, some, List, [], ◌∷◌, ◌++◌,
  ltb, ◌==◌, ◌≈◌, holds, first, select, update_first, if◌then◌else◌,
}
use omnibioai_auth.Models.{
  Time, seconds, Status, active, revoked, Reason, idle_timeout, absolute_timeout, UserSession, Db,
}

pub record Settings : Type 0 where
  pub absolute_timeout_seconds : ℕ
  pub idle_timeout_seconds : ℕ
  pub max_concurrent : ℕ

abbrev pub is_active : Status → Bool
is_active active = true
is_active revoked = false

-- `text[:n]`
unfoldable pub prefix : ℕ → String → String
prefix zero s = ""
prefix (suc n) no_text = ""
prefix (suc n) (cons_text c s) = cons_text c (prefix n s)

abbrev max_user_agent_len : ℕ
max_user_agent_len = 255

-- `user_agent[:_MAX_USER_AGENT_LEN] if user_agent else None`
pub stored_user_agent : Option String → Option String
unfolding prefix
stored_user_agent none = none
stored_user_agent (some agent) = if agent ≈ "" then none else some (prefix max_user_agent_len agent)

-- The keyword arguments of `create`.
pub record NewSession : Type 0 where
  pub session_id : String
  pub user_id : ℕ
  pub organization_id : Option ℕ
  pub org_role : List String
  pub auth_method : String
  pub mfa_verified : Bool
  pub expires_at : Time
  pub client_ip : Option String
  pub user_agent : Option String
  pub saml_name_id : Option String
  pub saml_session_index : Option String
  pub organization_saml_config_id : Option ℕ

pub new_row : Time → NewSession → UserSession
unfolding stored_user_agent
new_row now s = record {
  session_id = s.session_id;
  user_id = s.user_id;
  organization_id = s.organization_id;
  org_role = s.org_role;
  auth_method = s.auth_method;
  mfa_verified = s.mfa_verified;
  status = active;
  created_at = now;
  last_activity_at = now;
  expires_at = s.expires_at;
  revoked_at = none;
  revoked_reason = none;
  client_ip = s.client_ip;
  user_agent = stored_user_agent s.user_agent;
  saml_name_id = s.saml_name_id;
  saml_session_index = s.saml_session_index;
  organization_saml_config_id = s.organization_saml_config_id;
}

unfoldable pub create : Time → NewSession → Db → Db
unfolding new_row
create now s db = record db { sessions = db.sessions ++ new_row now s ∷ [] }

-- `UserSession.session_id == family_id`
abbrev pub has_id : String → UserSession → Bool
has_id family_id s = s.session_id ≈ family_id

-- `if not family_id`: NULL and the empty text are no family.
abbrev pub family : Option String → Option String
family none = none
family (some f) = if f ≈ "" then none else some f

unfoldable pub get_by_family_id : Option String → Db → Option UserSession
get_by_family_id family_id db = elim (family family_id) [
  | none ↦ none
  | some f ↦ first (has_id f) db.sessions
]

-- `column == value`
abbrev pub number_is : Option ℕ → ℕ → Bool
number_is none n = false
number_is (some m) n = m == n

unfoldable pub find_active_by_saml_identity : ℕ → String → Option String → Db → List UserSession
find_active_by_saml_identity config_id name_id session_index db =
    let found =
      select
        (λ s.
          number_is s.organization_saml_config_id config_id
          && (holds s.saml_name_id name_id && is_active s.status))
        db.sessions in
    elim session_index [
      | none ↦ found
      | some index ↦ select (λ s. holds s.saml_session_index index) found
    ]

-- `expires_at` is NOT NULL in the table.
unfoldable pub is_usable : Time → Option UserSession → Bool
is_usable now none = true
is_usable now (some s) = is_active s.status && not (ltb s.expires_at now)

unfoldable pub check_timeout_policy : Settings → Time → Option UserSession → Option Reason
check_timeout_policy cfg now none = none
check_timeout_policy cfg now (some s) =
    if ltb (s.created_at + seconds cfg.absolute_timeout_seconds) now
    then some absolute_timeout
    else if ltb (s.last_activity_at + seconds cfg.idle_timeout_seconds) now
    then some idle_timeout
    else none

-- The row of a family is written only while it is active.
abbrev write_active : (UserSession → UserSession) → Option String → Db → Db
write_active f family_id db = elim (family family_id) [
  | none ↦ db
  | some fid ↦ elim (first (has_id fid) db.sessions) [
    | none ↦ db
    | some s ↦
        if is_active s.status
        then record db { sessions = update_first (has_id fid) f db.sessions }
        else db
  ]
]

unfoldable pub touch : Time → Option String → Time → Db → Db
touch now family_id expires_at =
    write_active
      (λ s. record s { last_activity_at = now; expires_at = expires_at; status = active }) family_id

unfoldable pub revoke : Time → Option String → Reason → Db → Db
revoke now family_id reason =
    write_active
      (λ s. record s { status = revoked; revoked_at = some now; revoked_reason = some reason })
      family_id

-- The read-time statuses of `effective_status`.
pub data EffectiveStatus : Type 0 where
  status_active status_expired status_revoked : EffectiveStatus
  status_idle_expired status_absolute_expired : EffectiveStatus

unfoldable pub effective_status : Settings → Time → UserSession → EffectiveStatus
unfolding check_timeout_policy
effective_status cfg now s =
    if not (is_active s.status)
    then status_revoked
    else elim (check_timeout_policy cfg now (some s)) [
      | some Reason.absolute_timeout ↦ status_absolute_expired
      | some Reason.idle_timeout ↦ status_idle_expired
      | _ ↦ if ltb s.expires_at now then status_expired else status_active
    ]
