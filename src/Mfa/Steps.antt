-- ===== src/Mfa/Steps.antt =====
-- The steps of time that app/services/mfa_service.py claims for the codes it accepts.
use omnibioai_auth.Prelude.{
  ◌/◌, ◌||◌, ◌≡◌, All, holds, holds_iff, ≈_iff, subst, ℕ, suc, ◌+◌, ◌≤◌, String, Bool, true, false,
  not, ◌&&◌, Option, none, some, List, [], ◌∷◌, ◌++◌, arith, ◌==◌, ◌≈◌, is_none, count, select,
  if◌then◌else◌, count-append, Option-cases, inl, inr,
}
use omnibioai_auth.Models.{Time, MfaDevice, UsedTotpStep, Db}
use omnibioai_auth.Mfa.Totp.{
  period, is_code, totp_code_at, candidates, first_match, totp_matched_step,
}
use omnibioai_auth.Mfa.Devices.{MfaCrypto, unix, usable_by}

abbrev pub same_step : ℕ → ℕ → UsedTotpStep → Bool
same_step device_id time_step u = u.device_id == device_id && u.time_step == time_step

-- The insert fails on a pair that the table has.
unfoldable pub try_claim_totp_step : ℕ → ℕ → Db → Bool × Db
try_claim_totp_step device_id time_step db =
    if count (same_step device_id time_step) db.used_totp_steps == 0
    then (
      true,
      record db {
        used_totp_steps =
            db.used_totp_steps ++ (record { device_id = device_id; time_step = time_step }) ∷ [];
      },
    )
    else (false, db)

abbrev pub totp_devices : ℕ → Db → List MfaDevice
totp_devices user_id db = select (λ d. usable_by user_id d && d.device_type ≈ "totp") db.mfa_devices

module _ (c : MfaCrypto) (now : Time) (code : String) where
  -- A secret that does not decrypt matches no code.
  unfoldable pub device_step : MfaDevice → Option ℕ
  unfolding totp_matched_step
  device_step d = elim (c.decrypt d.encrypted_secret) [
    | none ↦ none
    | some secret ↦ totp_matched_step c.mac secret code (unix now)
  ]

  unfoldable pub try_device : MfaDevice → Db → Bool × Db
  unfolding device_step try_claim_totp_step
  try_device d db = elim (device_step d) [
    | none ↦ (false, db)
    | some step ↦ try_claim_totp_step d.id step db
  ]

  -- The loop over the devices; it ends at the first whose step is claimed.
  unfoldable pub match_devices : List MfaDevice → Db → Option MfaDevice × Db
  unfolding try_device
  match_devices [] db = (none, db)
  match_devices (d ∷ ds) db =
      let (claimed, db') = try_device d db in
      let rest = match_devices ds db' in if claimed then (some d, db') else rest

  unfoldable pub verify_user_totp_step_up : ℕ → Db → Bool × Db
  unfolding match_devices is_code
  verify_user_totp_step_up user_id db =
      if is_code code
      then (let (matched, db') = match_devices (totp_devices user_id db) db in
          (not (is_none matched), db'))
      else (false, db)

-- One search for a device whose code is given.
pub record Search : Type 0 where
  pub now : Time
  pub code : String
  pub devices : List MfaDevice

module _ (c : MfaCrypto) (device_id : ℕ) (secret code : String) (time_step : ℕ) where
  -- Of those moments only the ones in the step have the code.
  pub only_step : List ℕ → Bool
  only_step [] = true
  only_step (t ∷ ts) =
      (not (totp_code_at c.mac secret t ≈ code) || t / period == time_step) && only_step ts

  -- The rows with the key of the device hold its secret.
  pub all_hold : List MfaDevice → Bool
  all_hold [] = true
  all_hold (d ∷ ds) =
      (not (d.id == device_id) || holds (c.decrypt d.encrypted_secret) secret) && all_hold ds

  -- The window of the search shows the code for no other step than the given one.
  unfoldable pub is_unambiguous : Search → Bool
  unfolding only_step all_hold
  is_unambiguous s = only_step (candidates c.mac secret (unix s.now)) && all_hold s.devices

  -- The code is given, and the device is found.
  abbrev pub accepts : Search → Option MfaDevice → Bool
  accepts s none = false
  accepts s (some d) = d.id == device_id && s.code ≈ code

  -- How many of the searches, one after the other, find the device by the code.
  unfoldable pub acceptances : List Search → Db → ℕ
  unfolding match_devices
  acceptances [] db = 0
  acceptances (s ∷ searches) db =
      let (matched, db') = match_devices c s.now s.code s.devices db in
      let rest = acceptances searches db' in if accepts s matched then suc rest else rest

  unfoldable pub fresh : Db → ℕ
  fresh db = if count (same_step device_id time_step) db.used_totp_steps == 0 then 1 else 0

  first_match-only_step :
      (ts : List ℕ) (t : ℕ)
      → only_step ts ≡ true
      → first_match c.mac secret code ts ≡ some t
      → t ≡ time_step
  unfolding only_step first_match
  first_match-only_step [] t only e = cc
  first_match-only_step (u ∷ ts) t only e = ground (arith, first_match-only_step ts t)

  -- The step that is claimed for the code is the only one that shows it.
  device_step-only_step :
      (now : Time) (d : MfaDevice) (t : ℕ)
      → only_step (candidates c.mac secret (unix now)) ≡ true
      → holds (c.decrypt d.encrypted_secret) secret ≡ true
      → device_step c now code d ≡ some t
      → t ≡ time_step
  unfolding device_step totp_matched_step
  device_step-only_step now d t only held e =
      let same = holds_iff (c.decrypt d.encrypted_secret) secret held in
      ground (arith, same, first_match-only_step (candidates c.mac secret (unix now)) t only)

  claim-fresh :
      (d t : ℕ) (db : Db)
      → (if (try_claim_totp_step d t db).0 && (d == device_id && t == time_step) then 1 else 0)
          + fresh (try_claim_totp_step d t db).1
        ≤ fresh db
  unfolding try_claim_totp_step fresh
  claim-fresh d t db = ground (
    arith,
    count-append (same_step device_id time_step) db.used_totp_steps
        ((record { device_id = d; time_step = t }) ∷ []),
  )

  try_device-fresh :
      (s : Search) (d : MfaDevice) (db : Db)
      → only_step (candidates c.mac secret (unix s.now)) ≡ true
      → (not (d.id == device_id) || holds (c.decrypt d.encrypted_secret) secret) ≡ true
      → (if (try_device c s.now s.code d db).0 && accepts s (some d) then 1 else 0)
          + fresh (try_device c s.now s.code d db).1
        ≤ fresh db
  unfolding try_device
  try_device-fresh s d db only held = elim (Option-cases (device_step c s.now s.code d)) [
    | inl e ↦ ground (arith, e)
    | inr (t, e) ↦
        let step : d.id ≡ device_id → s.code ≡ code → t ≡ time_step = λ same given.
          device_step-only_step s.now d t only (ground (arith, held, same))
            (subst (λ x. device_step c s.now x d ≡ some t) given e) in
        ground (arith, e, claim-fresh d.id t db, step, ≈_iff s.code code)
  ]

  match_devices-fresh :
      (s : Search) (ds : List MfaDevice) (db : Db)
      → only_step (candidates c.mac secret (unix s.now)) ≡ true
      → all_hold ds ≡ true
      → (if accepts s (match_devices c s.now s.code ds db).0 then 1 else 0)
          + fresh (match_devices c s.now s.code ds db).1
        ≤ fresh db
  unfolding match_devices all_hold
  match_devices-fresh s [] db only held = ground arith
  match_devices-fresh s (d ∷ ds) db only held = ground (
    arith,
    try_device-fresh s d db only,
    match_devices-fresh s ds (try_device c s.now s.code d db).1 only,
  )

  -- In any sequence of searches, at whatever times, with whatever other codes and devices, the same
  -- code finds a device at most once, and never if the table has the code's step already, provided
  -- that no window of a search shows the code for another step and that the device keeps its
  -- secret. Searches alone claim a step: the code that confirms an enrolment is not counted.
  pub acceptances-fresh :
      (searches : List Search) (db : Db)
      → All (λ s. is_unambiguous s ≡ true) searches
      → acceptances searches db ≤ fresh db
  unfolding acceptances is_unambiguous
  acceptances-fresh [] db clear = omega arith
  acceptances-fresh (s ∷ searches) db clear =
      let only : only_step (candidates c.mac secret (unix s.now)) ≡ true =
        ground (arith, clear.0) in
      let held : all_hold s.devices ≡ true = ground (arith, clear.0) in
      ground (
        arith,
        match_devices-fresh s s.devices db only held,
        acceptances-fresh searches (match_devices c s.now s.code s.devices db).1 clear.1,
      )
