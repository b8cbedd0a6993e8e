-- ===== src/Throttle/Login.antt =====
-- The keys and audit events of app/services/login_throttle_service.py. `strip().lower()` and the
-- digests are parameters.
use omnibioai_auth.Prelude.{ℕ, String, Bool, Option, none, [], ◌∷◌}
use Prim.Native.String.{◌++◌ as append}
use omnibioai_auth.Models.{AuditEvent, Value, Db, auth_rate_limit_triggered}
use omnibioai_auth.Session.{prefix}
use omnibioai_auth.RateLimit.Commands.{Redis}
use omnibioai_auth.RateLimit.InProcess.{FallbackSettings}
use omnibioai_auth.RateLimit.{Link, Limiter}
use omnibioai_auth.Throttle.{
  Policy, Keys, known_ip, key_of_ip, check_throttled, record_failure, record_success,
}

pub record Hashing : Type 0 where
  pub strip_lower : String → String
  pub sha256_hexdigest : String → String

-- `hashlib.sha256(...).hexdigest()[:16]`
abbrev pub short_digest : Hashing → String → String
short_digest h s = prefix 16 (h.sha256_hexdigest s)

module _ (h : Hashing) where
  abbrev pub account_key : String → String
  account_key email = append "ratelimit:acct:" (short_digest h (h.strip_lower email))

  abbrev pub ip_key : String → String
  ip_key ip = append "ratelimit:ip:" ip

  abbrev pub pair_key : String → String → String
  pair_key email ip =
      append "ratelimit:pair:" (short_digest h (append ip (append ":" (h.strip_lower email))))

  abbrev pub strike_key : String → String
  strike_key email = append "ratelimit:strikes:" (short_digest h (h.strip_lower email))

  abbrev pub login_keys : String → Option String → Keys
  login_keys email ip = record {
    account = account_key email;
    pair = pair_key email (known_ip ip);
    ip = key_of_ip ip_key ip;
    strike = strike_key email;
  }

abbrev pub login_audit : String → Option String → String → ℕ → AuditEvent
login_audit email ip dimension lockout_seconds = record {
  event_type = auth_rate_limit_triggered;
  actor_user_id = none;
  target_user_id = none;
  organization_id = none;
  resource_type = none;
  resource_id = Value.null;
  metadata =
      ("email", Value.text email)
      ∷ ("ip", Value.text (known_ip ip))
      ∷ ("dimension", Value.text dimension)
      ∷ ("lockout_seconds", Value.number lockout_seconds)
      ∷ [];
}

module _ (r : Redis) (h : Hashing) (policy : Policy) where
  abbrev pub login_check_throttled : (ℕ → Link) → ℕ → String → Option String → Limiter r → Bool × ℕ
  login_check_throttled links now email ip =
      check_throttled r policy links now (login_keys h email ip)

  abbrev pub login_record_failure :
      FallbackSettings → (ℕ → Link) → ℕ → String → Option String → Limiter r × Db → Limiter r × Db
  login_record_failure cfg links now email ip =
      record_failure r cfg policy links now (login_keys h email ip) (login_audit email ip)

  abbrev pub login_record_success : Link → String → Option String → Limiter r → Limiter r
  login_record_success link email ip = record_success r policy link (login_keys h email ip)
