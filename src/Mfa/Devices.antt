-- ===== src/Mfa/Devices.antt =====
-- Enrolment and removal of devices in app/services/mfa_service.py. Encryption and decryption of a
-- secret, the new secret, and the key of a new row are parameters.
pub mod Enabled
use omnibioai_auth.Prelude.{
  ℕ, ◌/◌, String, Bool, true, false, not, ◌&&◌, Option, none, some, List, [], ◌∷◌, ◌++◌, ◌==◌, ◌≈◌,
  is_none, first, select, count, update_first, update_all, sort_by, if◌then◌else◌, Result, ok, err,
  length,
}
use omnibioai_auth.Models.{
  Time, MfaDevice, RecoveryCode, User, Db, AuditEvent, AuditEventType, Value, log_event,
  mfa_device_enrollment_started, mfa_device_added, mfa_device_removed, mfa_enabled, mfa_disabled,
  mfa_reset_by_admin,
}
use omnibioai_auth.Mfa.Totp.{Hmac, verify_totp_code}
use omnibioai_auth.Mfa.RecoveryCodes.{unused_of, invalidate_recovery_codes}

-- The cryptographic calls. What does not decrypt raises.
pub record MfaCrypto : Type 0 where
  pub encrypt : String → String
  pub decrypt : String → Option String
  pub mac : Hmac

pub data DeviceError : Type 0 where
  not_found inactive already_verified undecryptable invalid_code : DeviceError

-- `int(time.time())`
abbrev pub unix : Time → ℕ
unix now = now / 1000000

abbrev pub is_verified : MfaDevice → Bool
is_verified d = not (is_none d.verified_at) && is_none d.disabled_at

-- The devices that can answer a challenge.
abbrev pub usable_by : ℕ → MfaDevice → Bool
usable_by user_id d = d.user_id == user_id && is_verified d

abbrev pub pending_of : ℕ → MfaDevice → Bool
pending_of user_id d =
    d.user_id == user_id
    && (d.device_type ≈ "totp" && (is_none d.verified_at && is_none d.disabled_at))

abbrev pub owned : ℕ → ℕ → MfaDevice → Bool
owned user_id device_id d = d.id == device_id && d.user_id == user_id

abbrev pub disable : Time → MfaDevice → MfaDevice
disable now d = record d { disabled_at = some now }

-- An event of a user about the user's own factors.
abbrev pub own_event : AuditEventType → ℕ → String → ℕ → List (String × Value) → AuditEvent
own_event event_type user_id resource_type resource_id metadata = record {
  event_type = event_type;
  actor_user_id = some user_id;
  target_user_id = some user_id;
  organization_id = none;
  resource_type = some resource_type;
  resource_id = Value.number resource_id;
  metadata = metadata;
}

abbrev device_event : AuditEventType → ℕ → MfaDevice → AuditEvent
device_event event_type user_id d =
    own_event event_type user_id "mfa_device" d.id (("device_type", Value.text d.device_type) ∷ [])

abbrev pub with_user : ℕ → (User → User) → Db → Db
with_user user_id f db = record db { users = update_first (λ u. u.id == user_id) f db.users }

unfoldable pub disable_pending_totp_devices : Time → ℕ → Db → Db
disable_pending_totp_devices now user_id db = record db {
  mfa_devices = update_all (pending_of user_id) (disable now) db.mfa_devices;
}

abbrev pub new_device : MfaCrypto → Time → ℕ → ℕ → String → MfaDevice
new_device c now id user_id secret = record {
  id = id;
  user_id = user_id;
  device_type = "totp";
  encrypted_secret = c.encrypt secret;
  created_at = now;
  verified_at = none;
  last_used_at = none;
  disabled_at = none;
}

unfoldable pub start_totp_enrollment : MfaCrypto → Time → ℕ → String → ℕ → Db → MfaDevice × Db
unfolding disable_pending_totp_devices log_event
start_totp_enrollment c now id secret user_id db =
    let device = new_device c now id user_id secret in
    let cleared = disable_pending_totp_devices now user_id db in
    (
      device,
      log_event (device_event mfa_device_enrollment_started user_id device)
          (record cleared { mfa_devices = cleared.mfa_devices ++ device ∷ [] }),
    )

abbrev pub enable : Time → User → User
enable now u = record u {
  mfa_enabled = true;
  mfa_status = "enabled";
  mfa_primary_method = some "totp";
  mfa_enabled_at = some now;
  mfa_last_verified_at = some now;
}

-- The writes of a verified enrolment; `was_enabled` is what the account said before.
unfoldable pub confirm_device : Time → ℕ → MfaDevice → Bool → Db → Db
unfolding log_event
confirm_device now user_id d was_enabled db =
    let added = log_event (device_event mfa_device_added user_id d) (record db {
      mfa_devices =
          update_first (owned user_id d.id) (λ x. record x { verified_at = some now })
            db.mfa_devices;
    }) in
    let enabled = with_user user_id (enable now) added in
    if was_enabled
    then enabled
    else log_event (own_event mfa_enabled user_id "user" user_id []) enabled

-- The account of a device is there, since the row refers to it; without it the code raises.
unfoldable pub verify_totp_enrollment :
    MfaCrypto → Time → ℕ → ℕ → String → Db → Result DeviceError (MfaDevice × Db)
unfolding confirm_device verify_totp_code
verify_totp_enrollment c now user_id device_id code db =
    elim (first (owned user_id device_id) db.mfa_devices) [
      | none ↦ err not_found
      | some d ↦
          if not (is_none d.disabled_at)
          then err inactive
          else if not (is_none d.verified_at)
          then err already_verified
          else elim (c.decrypt d.encrypted_secret) [
            | none ↦ err undecryptable
            | some secret ↦
                if verify_totp_code c.mac secret code (unix now)
                then elim (first (λ u. u.id == user_id) db.users) [
                  | none ↦ err not_found
                  | some u ↦ ok (
                    record d { verified_at = some now },
                    confirm_device now user_id d u.mfa_enabled db,
                  )
                ]
                else err invalid_code
          ]
    ]

abbrev reversed : List MfaDevice → List MfaDevice
reversed [] = []
reversed (d ∷ ds) = reversed ds ++ d ∷ []

-- `order_by(created_at.desc())`
unfoldable pub list_devices : ℕ → Db → List MfaDevice
list_devices user_id db = reversed (
    sort_by (λ d. d.created_at)
      (select (λ d. d.user_id == user_id && is_none d.disabled_at) db.mfa_devices))

-- The account loses its flag with its last verified device.
unfoldable pub disable_without_devices : ℕ → Db → Db
unfolding log_event
disable_without_devices user_id db =
    if count (usable_by user_id) db.mfa_devices == 0
    then elim (first (λ u. u.id == user_id) db.users) [
      | none ↦ db
      | some u ↦
          if u.mfa_enabled
          then log_event (own_event mfa_disabled user_id "user" user_id []) (
              with_user user_id (λ x. record x { mfa_enabled = false; mfa_status = "disabled" }) db)
          else db
    ]
    else db

abbrev pub removable : ℕ → ℕ → MfaDevice → Bool
removable user_id device_id d = owned user_id device_id d && is_none d.disabled_at

unfoldable pub remove_device : Time → ℕ → ℕ → Db → Result DeviceError Db
unfolding disable_without_devices log_event
remove_device now user_id device_id db = elim (first (removable user_id device_id) db.mfa_devices) [
  | none ↦ err not_found
  | some d ↦ ok (
      disable_without_devices user_id (
        log_event (device_event mfa_device_removed user_id d) (record db {
          mfa_devices = update_first (removable user_id device_id) (disable now) db.mfa_devices;
        })))
]

-- All factors of the account are taken away, by an administrator.
unfoldable pub reset_user_mfa : Time → ℕ → ℕ → Db → Result DeviceError Db
unfolding invalidate_recovery_codes log_event
reset_user_mfa now target_user_id actor_user_id db =
    elim (first (λ u. u.id == target_user_id) db.users) [
      | none ↦ err not_found
      | some _ ↦
          let held : MfaDevice → Bool = λ d. d.user_id == target_user_id && is_none d.disabled_at in
          let (invalidated, db') =
            invalidate_recovery_codes now target_user_id
              (record db { mfa_devices = update_all held (disable now) db.mfa_devices }) in
          ok (
            log_event
              (record {
                event_type = mfa_reset_by_admin;
                actor_user_id = some actor_user_id;
                target_user_id = some target_user_id;
                organization_id = none;
                resource_type = some "user";
                resource_id = Value.number target_user_id;
                metadata =
                    ("devices_disabled", Value.number (count held db.mfa_devices))
                    ∷ ("recovery_codes_invalidated", Value.number invalidated)
                    ∷ [];
              })
              (with_user target_user_id
                (λ u. record u {
                  mfa_enabled = false;
                  mfa_status = "disabled";
                  mfa_primary_method = none;
                  mfa_enabled_at = none;
                  mfa_last_verified_at = none;
                })
                db'))
    ]
