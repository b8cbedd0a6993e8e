-- ===== src/Tests/Throttling.antt =====
-- Runs of app/core/rate_limit.py and of the throttles, on a Redis that is a function of the key.
use omnibioai_auth.Prelude.{
  ℕ, String, ◌≡◌, ◌==◌, refl, true, Option, none, some, [], ◌∷◌, arith, ◌≈◌, if◌then◌else◌,
}
use omnibioai_auth.RateLimit.Commands.{Entry, Redis, bumped, lasting, aged}
use omnibioai_auth.RateLimit.InProcess.{FallbackSettings}
use omnibioai_auth.RateLimit.{Link, reached, refused, Limit, Limiter, incr_and_lock}
use omnibioai_auth.RateLimit.Window.{attempts, attempt_locks_at_max}
use omnibioai_auth.Throttle.{Policy, Keys, ip_locks, check_locks, check_throttled, record_failure}
use omnibioai_auth.Session.{prefix}
use omnibioai_auth.Throttle.Login.{
  Hashing, login_keys, login_audit, login_check_throttled, login_record_success,
}
use omnibioai_auth.Throttle.Mfa.{mfa_keys, mfa_check_throttled, mfa_record_success}
use omnibioai_auth.Throttle.Success.{success_leaves_ip}
use omnibioai_auth.Throttle.Failure.{IsPositive, failure_locks_account}
use omnibioai_auth.Tests.{db}

abbrev pub dict : Redis
dict = record {
  Store = String → Option Entry;
  look = λ j s. s j;
  incr = λ k s j. if k ≈ j then some (bumped (s k)) else s j;
  expire = λ k n s j. if k ≈ j then lasting n (s k) else s j;
  set_ex = λ k n s j. if k ≈ j then some (record { value = 1; ttl = n }) else s j;
  delete = λ k s j. if k ≈ j then none else s j;
  wait = λ n s j. aged n (s j);
  look-incr = λ k j s. refl;
  look-expire = λ k j n s h. refl;
  look-set_ex = λ k j n s h. refl;
  look-delete = λ k j s. refl;
  look-wait = λ j n s. refl;
}

abbrev nothing : String → Option Entry
nothing key = none

abbrev three_a_minute : Limit
three_a_minute = record { window_seconds = 60; max_attempts = 3; lockout_seconds = 300 }

attempt_locks_at_max_example :
    (incr_and_lock dict "fail" "lock" three_a_minute
      (dict.wait 5 (attempts dict "fail" "lock" three_a_minute (0 ∷ 10 ∷ []) nothing))).0
    ≡ record { locked = true; newly_locked = true; count = 3 }
unfolding ◌≈◌
attempt_locks_at_max_example =
    attempt_locks_at_max dict "fail" "lock" three_a_minute refl (omega arith) (0 ∷ 10 ∷ []) 5
      nothing refl refl (omega arith) (omega arith)

abbrev pub hashing : Hashing
hashing = record { strip_lower = λ s. s; sha256_hexdigest = λ s. s }

abbrev pub policy : Policy
policy = record {
  enabled = true;
  account = three_a_minute;
  pair = three_a_minute;
  ip = three_a_minute;
  fallback_window_seconds = none;
  fallback_max_attempts = none;
  strike_ttl_seconds = 3600;
  progressive_multiplier = 2;
  max_lockout_seconds = 3600;
}

abbrev pub fallback_settings : FallbackSettings
fallback_settings = record { window_seconds = 60; max_attempts = 2; max_keys = 100 }

abbrev here : Keys
here = login_keys hashing "alice" (some "10.0.0.1")

abbrev elsewhere : Keys
elsewhere = login_keys hashing "alice" (some "10.0.0.2")

-- Two failures of alice's are counted.
abbrev two_failures : String → Option Entry
two_failures key =
    if "ratelimit:acct:alice" ≈ key then some (record { value = 2; ttl = 30 }) else none

abbrev pub two_failed : Limiter dict
two_failed = record { store = two_failures; fallback = record { counters = []; locks = [] } }

-- Only the first call of the failure reaches Redis.
abbrev pub flaky : ℕ → Link
flaky n = if n == 0 then reached else refused

policy-IsPositive : IsPositive policy
policy-IsPositive = record {
  of_account = (omega arith, omega arith);
  of_pair = (omega arith, omega arith);
  of_ip = (omega arith, omega arith);
  of_strike = omega arith;
}

failure_locks_account_example :
    (check_throttled dict policy flaky 70 elsewhere
      (record_failure dict fallback_settings policy flaky 10 here
        (login_audit "alice" (some "10.0.0.1"))
        (two_failed, db)).0).0
    ≡ true
unfolding ◌≈◌ prefix
failure_locks_account_example =
    failure_locks_account dict fallback_settings policy flaky 10 here
      (login_audit "alice" (some "10.0.0.1")) policy-IsPositive flaky 70 elsewhere two_failed db
      refl refl refl refl (omega arith) (λ e. cc)

-- Two wrong passwords of alice's from an address, on a Redis that fails at the second lock.
success_leaves_ip_example :
    (login_check_throttled dict hashing policy flaky 10 "alice"
        (some "10.0.0.1")
        (login_record_success dict hashing policy reached "alice" (some "10.0.0.1") two_failed)
      ≡ check_locks dict flaky 2 10 (ip_locks here) two_failed)
    × (mfa_check_throttled dict hashing
          (λ n. "1")
          policy
          flaky
          10
          1
          (some "10.0.0.1")
          (mfa_record_success dict hashing (λ n. "1") policy reached 1 (some "10.0.0.1") two_failed)
        ≡ check_locks dict flaky 2 10
            (ip_locks (mfa_keys hashing (λ n. "1") 1 (some "10.0.0.1")))
            two_failed)
success_leaves_ip_example =
    success_leaves_ip dict hashing (λ n. "1") policy flaky 10 "alice" 1 (some "10.0.0.1") two_failed
      refl
