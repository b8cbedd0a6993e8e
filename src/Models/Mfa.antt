-- ===== src/Models/Mfa.antt =====
-- The rows of multi-factor authentication in app/db/models.py, and the clock that they store.
use omnibioai_auth.Prelude.{ℕ, ◌*◌, String, Bool, Option}

-- `datetime.utcnow()`, or a stored DateTime.
abbrev pub Time : Type 0
Time = ℕ

-- `timedelta(seconds=n)`
abbrev pub seconds : ℕ → ℕ
seconds n = n * 1000000

pub record MfaDevice : Type 0 where
  pub id : ℕ
  pub user_id : ℕ
  pub device_type : String
  pub encrypted_secret : String
  pub created_at : Time
  pub verified_at : Option Time
  pub last_used_at : Option Time
  pub disabled_at : Option Time

pub record RecoveryCode : Type 0 where
  pub id : ℕ
  pub user_id : ℕ
  pub code_hash : String
  pub created_at : Time
  pub used_at : Option Time

-- `MFAUsedTOTPStep`; the pair is unique in the table.
pub record UsedTotpStep : Type 0 where
  pub device_id : ℕ
  pub time_step : ℕ

pub record EmailOtp : Type 0 where
  pub id : ℕ
  pub user_id : ℕ
  pub challenge_jti : String
  pub code_hash : String
  pub attempts : ℕ
  pub created_at : Time
  pub expires_at : Time
  pub consumed_at : Option Time
  pub invalidated_at : Option Time

pub record MfaPolicy : Type 0 where
  pub id : ℕ
  pub organization_id : ℕ
  pub required : Bool
  pub created_at : Time
  pub updated_at : Option Time
  pub enabled_at : Option Time
  pub enabled_by_user_id : Option ℕ
  pub override_active : Bool
  pub override_reason : Option String
  pub override_at : Option Time
  pub override_by_user_id : Option ℕ
