-- ===== src/Mfa/Devices/Enabled.antt =====
-- What app/services/mfa_service.py keeps between the flag of an account and its devices.
use omnibioai_auth.Prelude.{
  ℕ, ◌≤◌, String, ◌≡◌, refl, true, false, ◌&&◌, none, some, List, [], ◌∷◌, arith, ◌==◌, is_none,
  first, count, update_first, update_all, if◌then◌else◌, ok, err, count-append,
  count-update_all_keep, count-update_first, first-holds, Option-cases, Bool-cases, inl, inr,
}
use omnibioai_auth.Models.{Time, User, Db, log_event}
use omnibioai_auth.Mfa.RecoveryCodes.{invalidate_recovery_codes}
use omnibioai_auth.Mfa.Devices.{
  MfaCrypto, new_device, usable_by, pending_of, owned, disable, disable_pending_totp_devices,
  start_totp_enrollment, confirm_device, verify_totp_enrollment, disable_without_devices,
  remove_device, removable, reset_user_mfa, enable,
}

-- An account that says MFA is on has a device that can answer a challenge.
unfoldable pub IsBacked : ℕ → Db → Type 0
IsBacked user_id db =
    (u : User)
    → first (λ x. x.id == user_id) db.users ≡ some u
    → u.mfa_enabled ≡ true
    → 1 ≤ count (usable_by user_id) db.mfa_devices

-- The calls that touch devices.
pub data DeviceCall : Type 0 where
  start : MfaCrypto → Time → ℕ → String → ℕ → DeviceCall
  verify : MfaCrypto → Time → ℕ → ℕ → String → DeviceCall
  remove : Time → ℕ → ℕ → DeviceCall
  reset : Time → ℕ → ℕ → DeviceCall

-- A call that raises leaves the rows as they were.
abbrev pub device_call : DeviceCall → Db → Db
device_call (start c now id secret user_id) db =
    (start_totp_enrollment c now id secret user_id db).1
device_call (verify c now user_id device_id code) db =
    elim (verify_totp_enrollment c now user_id device_id code db) [ ok r ↦ r.1 | err _ ↦ db ]
device_call (remove now user_id device_id) db = elim (remove_device now user_id device_id db) [
  | ok r ↦ r
  | err _ ↦ db
]
device_call (reset now target actor) db = elim (reset_user_mfa now target actor db) [
  | ok r ↦ r
  | err _ ↦ db
]

abbrev pub device_calls : List DeviceCall → Db → Db
device_calls [] db = db
device_calls (call ∷ calls) db = device_calls calls (device_call call db)

first-update_first_id :
    (i j : ℕ) (f : User → User) (us : List User)
    → ((u : User) → (f u).id ≡ u.id)
    → first (λ u. u.id == j) (update_first (λ u. u.id == i) f us) ≡ (
        if i == j
        then elim (first (λ u. u.id == i) us) [ none ↦ none | some u ↦ some (f u) ]
        else first (λ u. u.id == j) us)
first-update_first_id i j f [] keep = ground arith
first-update_first_id i j f (u ∷ us) keep =
    ground (arith, keep u, first-update_first_id i j f us keep)

module _ (user_id : ℕ) where
  start-IsBacked :
      (c : MfaCrypto) (now : Time) (id : ℕ) (secret : String) (u : ℕ) (db : Db)
      → IsBacked user_id db
      → IsBacked user_id (start_totp_enrollment c now id secret u db).1
  unfolding IsBacked start_totp_enrollment disable_pending_totp_devices log_event
  start-IsBacked c now id secret u db h user found on = ground (
    arith,
    h user found on,
    count-append (usable_by user_id) (update_all (pending_of u) (disable now) db.mfa_devices)
        (new_device c now id u secret ∷ []),
    count-update_all_keep (usable_by user_id) (pending_of u) (disable now) db.mfa_devices
        (λ x e. ground arith),
  )

  verify-IsBacked :
      (c : MfaCrypto) (now : Time) (u id : ℕ) (code : String) (db : Db)
      → IsBacked user_id db
      → IsBacked user_id (device_call (verify c now u id code) db)
  unfolding IsBacked verify_totp_enrollment confirm_device log_event
  verify-IsBacked c now u id code db h user found on =
      elim (Option-cases (first (owned u id) db.mfa_devices)) [
        | inl e ↦ ground (arith, h user)
        | inr (d, e) ↦ ground (
          arith,
          h user,
          first-holds (owned u id) db.mfa_devices d e,
          count-update_first (usable_by user_id) (owned u d.id)
              (λ x. record x { verified_at = some now }) db.mfa_devices d,
          first-update_first_id u user_id (enable now) db.users (λ x. refl),
        )
      ]

  remove-IsBacked :
      (now : Time) (u id : ℕ) (db : Db)
      → IsBacked user_id db
      → IsBacked user_id (device_call (remove now u id) db)
  unfolding IsBacked remove_device disable_without_devices log_event
  remove-IsBacked now u id db h user found on =
      elim (Option-cases (first (removable u id) db.mfa_devices)) [
        | inl e ↦ ground (arith, h user)
        | inr (d, e) ↦ ground (
          arith,
          h user,
          first-holds (removable u id) db.mfa_devices d e,
          count-update_first (usable_by user_id) (removable u id) (disable now) db.mfa_devices d e,
          first-update_first_id u user_id
              (λ x. record x { mfa_enabled = false; mfa_status = "disabled" }) db.users (λ x. refl),
        )
      ]

  reset-IsBacked :
      (now : Time) (target actor : ℕ) (db : Db)
      → IsBacked user_id db
      → IsBacked user_id (device_call (reset now target actor) db)
  unfolding IsBacked reset_user_mfa invalidate_recovery_codes log_event
  reset-IsBacked now target actor db h user found on =
      let users =
        first-update_first_id target user_id
          (λ u. record u {
            mfa_enabled = false;
            mfa_status = "disabled";
            mfa_primary_method = none;
            mfa_enabled_at = none;
            mfa_last_verified_at = none;
          })
          db.users (λ x. refl) in
      elim (Option-cases (first (λ x. x.id == target) db.users)) [
        | inl e ↦ ground (arith, h user)
        | inr (d, e) ↦ elim (Bool-cases (target == user_id)) [
          | inl same ↦ ground (arith, users)
          | inr other ↦ ground (
            arith,
            h user,
            users,
            count-update_all_keep (usable_by user_id)
                (λ d. d.user_id == target && is_none d.disabled_at) (disable now) db.mfa_devices
                (λ x e. ground arith),
          )
        ]
      ]

  call-IsBacked :
      (call : DeviceCall) (db : Db) → IsBacked user_id db → IsBacked user_id (device_call call db)
  call-IsBacked (start c now id secret u) db h = start-IsBacked c now id secret u db h
  call-IsBacked (verify c now u id code) db h = verify-IsBacked c now u id code db h
  call-IsBacked (remove now u id) db h = remove-IsBacked now u id db h
  call-IsBacked (reset now target actor) db h = reset-IsBacked now target actor db h

  -- Through any sequence of enrolments, confirmations, removals and resets by any accounts, an
  -- account whose MFA flag is on has a device that is verified and not disabled, if it was so
  -- before.
  pub device_calls-IsBacked :
      (calls : List DeviceCall) (db : Db)
      → IsBacked user_id db
      → IsBacked user_id (device_calls calls db)
  device_calls-IsBacked [] db h = h
  device_calls-IsBacked (call ∷ calls) db h =
      device_calls-IsBacked calls (device_call call db) (call-IsBacked call db h)
