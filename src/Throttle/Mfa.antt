-- ===== src/Throttle/Mfa.antt =====
-- The keys and audit events of app/services/mfa_throttle_service.py. `str(user_id)` and the digest
-- are parameters.
use omnibioai_auth.Prelude.{ℕ, String, Bool, Option, some, [], ◌∷◌}
use Prim.Native.String.{◌++◌ as append}
use omnibioai_auth.Models.{AuditEvent, Value, Db, mfa_rate_limit_triggered}
use omnibioai_auth.RateLimit.Commands.{Redis}
use omnibioai_auth.RateLimit.InProcess.{FallbackSettings}
use omnibioai_auth.RateLimit.{Link, Limiter}
use omnibioai_auth.Throttle.{
  Policy, Keys, known_ip, key_of_ip, check_throttled, record_failure, record_success,
}
use omnibioai_auth.Throttle.Login.{Hashing, short_digest}

module _ (h : Hashing) (decimal : ℕ → String) where
  abbrev pub mfa_account_key : ℕ → String
  mfa_account_key user_id = append "mfaratelimit:acct:" (decimal user_id)

  abbrev pub mfa_ip_key : String → String
  mfa_ip_key ip = append "mfaratelimit:ip:" ip

  abbrev pub mfa_pair_key : ℕ → String → String
  mfa_pair_key user_id ip =
      append "mfaratelimit:pair:" (short_digest h (append ip (append ":" (decimal user_id))))

  abbrev pub mfa_strike_key : ℕ → String
  mfa_strike_key user_id = append "mfaratelimit:strikes:" (decimal user_id)

  abbrev pub mfa_keys : ℕ → Option String → Keys
  mfa_keys user_id ip = record {
    account = mfa_account_key user_id;
    pair = mfa_pair_key user_id (known_ip ip);
    ip = key_of_ip mfa_ip_key ip;
    strike = mfa_strike_key user_id;
  }

abbrev pub mfa_audit : ℕ → Option String → Option ℕ → String → ℕ → AuditEvent
mfa_audit user_id ip organization_id dimension lockout_seconds = record {
  event_type = mfa_rate_limit_triggered;
  actor_user_id = some user_id;
  target_user_id = some user_id;
  organization_id = organization_id;
  resource_type = some "user";
  resource_id = Value.number user_id;
  metadata =
      ("ip", Value.text (known_ip ip))
      ∷ ("dimension", Value.text dimension)
      ∷ ("lockout_seconds", Value.number lockout_seconds)
      ∷ [];
}

module _ (r : Redis) (h : Hashing) (decimal : ℕ → String) (policy : Policy) where
  abbrev pub mfa_check_throttled : (ℕ → Link) → ℕ → ℕ → Option String → Limiter r → Bool × ℕ
  mfa_check_throttled links now user_id ip =
      check_throttled r policy links now (mfa_keys h decimal user_id ip)

  abbrev pub mfa_record_failure :
      FallbackSettings
      → (ℕ → Link)
      → ℕ
      → ℕ
      → Option String
      → Option ℕ
      → Limiter r × Db
      → Limiter r × Db
  mfa_record_failure cfg links now user_id ip organization_id =
      record_failure r cfg policy links now (mfa_keys h decimal user_id ip)
        (mfa_audit user_id ip organization_id)

  abbrev pub mfa_record_success : Link → ℕ → Option String → Limiter r → Limiter r
  mfa_record_success link user_id ip = record_success r policy link (mfa_keys h decimal user_id ip)
