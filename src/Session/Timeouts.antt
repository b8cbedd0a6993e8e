-- ===== src/Session/Timeouts.antt =====
-- The read-time status of a session against the checks of a refresh, and the lookup of a SAML
-- logout, of app/services/session_service.py.
use omnibioai_auth.Prelude.{
  ℕ, String, ◌≡◌, ◌↔◌, refl, Bool, true, ◌&&◌, Option, none, some, arith, holds, holds_iff, select,
  All, All-select, All-select_fits, All-map, All-zip,
}
use omnibioai_auth.Models.{Time, Status, active, revoked, UserSession, Db}
use omnibioai_auth.Session.{
  Settings, status_active, is_active, is_usable, check_timeout_policy, effective_status,
  find_active_by_saml_identity, number_is,
}

module _ (cfg : Settings) (s : UserSession) where
  -- The status that is shown is active exactly when a refresh would let the session pass: it is
  -- not revoked, its expiry is not past and neither timeout is.
  pub effective_status-is_usable :
      (now : Time)
      → (effective_status cfg now s ≡ status_active)
        ↔ ((is_usable now (some s) ≡ true) × (check_timeout_policy cfg now (some s) ≡ none))
  unfolding effective_status is_usable check_timeout_policy
  effective_status-is_usable now = (λ h. ground arith, λ h. ground arith)

-- A request that names a session index asks for that session alone.
abbrev pub index_fits : Option String → UserSession → Bool
index_fits none s = true
index_fits (some index) s = holds s.saml_session_index index

-- What a logout request of an identity provider may end.
abbrev pub IsMatch : ℕ → String → Option String → UserSession → Type 0
IsMatch config_id name_id session_index s =
    (s.organization_saml_config_id ≡ some config_id)
    × (s.saml_name_id ≡ some name_id)
    × (s.status ≡ active)
    × (index_fits session_index s ≡ true)

active_of : (s : Status) → is_active s ≡ true → s ≡ active
active_of active h = refl
active_of revoked h = cc

number_of : (o : Option ℕ) (n : ℕ) → number_is o n ≡ true → o ≡ some n
number_of none n h = cc
number_of (some m) n h = ground arith

-- The tests of the query, one by one.
fits : ℕ → String → UserSession → Bool
fits config_id name_id s =
    number_is s.organization_saml_config_id config_id
    && (holds s.saml_name_id name_id && is_active s.status)

fits_match :
    (config_id : ℕ) (name_id : String) (s : UserSession)
    → fits config_id name_id s ≡ true
    → (s.organization_saml_config_id ≡ some config_id)
      × (s.saml_name_id ≡ some name_id)
      × (s.status ≡ active)
unfolding fits
fits_match config_id name_id s h =
    let tests : (number_is s.organization_saml_config_id config_id ≡ true)
        × (holds s.saml_name_id name_id ≡ true)
        × (is_active s.status ≡ true) =
      ground arith in
    (number_of _ _ tests.0, holds_iff _ _ tests.1, active_of _ tests.2)

-- A SAML logout finds only active sessions of the configuration it arrived at, with its NameID,
-- and with its SessionIndex if it names one: never a session of another organization's provider.
pub find_active_by_saml_identity-IsMatch :
    (config_id : ℕ) (name_id : String) (index : Option String) (db : Db)
    → All
        (IsMatch config_id name_id index)
        (find_active_by_saml_identity config_id name_id index db)
unfolding find_active_by_saml_identity fits
find_active_by_saml_identity-IsMatch config_id name_id none db =
    All-map (λ s. fits config_id name_id s ≡ true) (IsMatch config_id name_id none) _
      (λ s h. let m = fits_match config_id name_id s h in (m.0, m.1, m.2, refl))
      (All-select_fits (fits config_id name_id) db.sessions)
find_active_by_saml_identity-IsMatch config_id name_id (some index) db =
    let found = select (fits config_id name_id) db.sessions in
    All-zip (λ s. fits config_id name_id s ≡ true) (λ s. holds s.saml_session_index index ≡ true)
      (IsMatch config_id name_id (some index))
      (select (λ s. holds s.saml_session_index index) found)
      (λ s h k. let m = fits_match config_id name_id s h in (m.0, m.1, m.2, k))
      (All-select (λ s. fits config_id name_id s ≡ true) (λ s. holds s.saml_session_index index)
        found (All-select_fits (fits config_id name_id) db.sessions))
      (All-select_fits (λ s. holds s.saml_session_index index) found)
