-- ===== src/Throttle/Failure.antt =====
-- What a failed attempt does to the account, in app/services/login_throttle_service.py and
-- mfa_throttle_service.py.
use omnibioai_auth.Prelude.{
  ℕ, ◌+◌, ◌≤◌, String, ◌≡◌, true, some, arith, ltb, ≈_refl, Bool-cases, Option-cases, inl, inr,
}
use omnibioai_auth.Models.{AuditEvent, Db}
use omnibioai_auth.RateLimit.Commands.{Redis, bumped}
use omnibioai_auth.RateLimit.InProcess.{FallbackSettings}
use omnibioai_auth.RateLimit.{
  Link, reached, Limit, Limiter, number_at, present, incr_and_lock, record_attempt, is_locked,
  bump_strikes, set_lock_ttl,
}
use omnibioai_auth.RateLimit.Locks.{
  IsAlive, IsAlive-record_attempt, IsAlive-bump_strikes, IsAlive-set_lock_ttl, locked-IsAlive,
}
use omnibioai_auth.Throttle.{
  Policy, Keys, lock_of, check_locks, check_throttled, escalated, apply_progressive_escalation,
  record_dimension, record_account, record_ip, record_failure,
}

abbrev pub IsPositiveLimit : Limit → Type 0
IsPositiveLimit limit = (1 ≤ limit.window_seconds) × (1 ≤ limit.lockout_seconds)

-- The windows, the locks and the lifetime of a strike are not empty.
pub record IsPositive (policy : Policy) : Type 0 where
  pub of_account : IsPositiveLimit policy.account
  pub of_pair : IsPositiveLimit policy.pair
  pub of_ip : IsPositiveLimit policy.ip
  pub of_strike : 1 ≤ policy.strike_ttl_seconds

-- The attempt that makes the count the maximum finds or sets the lock.
incr_and_lock-locked :
    (r : Redis) (fail_key lock_key : String) (limit : Limit) (s : r.Store)
    → limit.max_attempts ≤ number_at r fail_key s + 1
    → (incr_and_lock r fail_key lock_key limit s).0.locked ≡ true
unfolding incr_and_lock
incr_and_lock-locked r fail_key lock_key limit s enough =
    let here : r.look fail_key (r.incr fail_key s) ≡ some (bumped (r.look fail_key s)) =
      ground (arith, r.look-incr fail_key fail_key s, ≈_refl fail_key) in
    let number : number_at r fail_key (r.incr fail_key s) ≡ number_at r fail_key s + 1 =
      ground (arith, here) in
    ground (arith, number)

-- A lock that is there and asked for is seen.
is_locked-alive :
    (r : Redis) (now : ℕ) (key : String) (l : Limiter r)
    → IsAlive r key l.store
    → (is_locked r reached now key l).0 ≡ true
unfolding is_locked
is_locked-alive r now key l h = ground arith

check_refuses :
    (r : Redis) (policy : Policy) (links : ℕ → Link) (now : ℕ) (keys : Keys) (l : Limiter r)
    → policy.enabled ≡ true
    → links 0 ≡ reached
    → IsAlive r (lock_of keys.account) l.store
    → (check_throttled r policy links now keys l).0 ≡ true
unfolding check_throttled check_locks
check_refuses r policy links now keys l enabled link h =
    let seen = is_locked-alive r now (lock_of keys.account) l h in
    let asked : (is_locked r (links 0) now (lock_of keys.account) l).0 ≡ true = rw link seen in
    ground (arith, enabled, asked)

module _ (r : Redis) (cfg : FallbackSettings) (policy : Policy) (links : ℕ → Link) (now : ℕ)
    (keys : Keys) (audit : String → ℕ → AuditEvent) (positive : IsPositive policy) where
  abbrev Kept : Limiter r → Type 0
  Kept l = IsAlive r (lock_of keys.account) l.store

  escalation_keeps :
      (link link' : Link) (l : Limiter r)
      → Kept l
      → Kept (apply_progressive_escalation r policy link link' now keys l)
  unfolding apply_progressive_escalation
  escalation_keeps link link' l h =
      let j = lock_of keys.account in
      let (strikes, l') = bump_strikes r link now keys.strike policy.strike_ttl_seconds l in
      let bumped : Kept l' =
        IsAlive-bump_strikes r j link now keys.strike policy.strike_ttl_seconds l positive.of_strike
          h in
      elim (Bool-cases (ltb policy.account.lockout_seconds (escalated policy strikes))) [
        | inl longer ↦
            let set : Kept (set_lock_ttl r link' now j (escalated policy strikes) l') =
              IsAlive-set_lock_ttl r j link' now j (escalated policy strikes) l'
                (ground (arith, longer)) bumped in
            ground (arith, longer, set, bumped)
        | inr shorter ↦ ground (arith, shorter, bumped)
      ]

  dimension_keeps :
      (i : ℕ) (dimension key : String) (limit : Limit) (l : Limiter r) (db : Db)
      → IsPositiveLimit limit
      → Kept l
      → Kept (record_dimension r cfg policy links now keys audit i dimension key limit (l, db)).0
  unfolding record_dimension
  dimension_keeps i dimension key limit l db p h =
      IsAlive-record_attempt r (lock_of keys.account) cfg (links i) now key (lock_of key) limit
        policy.fallback_window_seconds policy.fallback_max_attempts l p.0 p.1 h

  ip_keeps :
      (l : Limiter r) (db : Db)
      → Kept l
      → Kept (record_ip r cfg policy links now keys audit (l, db)).0
  unfolding record_ip
  ip_keeps l db h = elim (Option-cases keys.ip) [
    | inl unknown ↦ ground (arith, unknown, h)
    | inr (key, e) ↦
        let kept = dimension_keeps 4 "ip" key policy.ip l db positive.of_ip h in
        ground (arith, e, kept)
  ]

  attempt_reached :
      (l : Limiter r)
      → IsAlive r
          (lock_of keys.account)
          (incr_and_lock r keys.account (lock_of keys.account) policy.account l.store).1
      → links 0 ≡ reached
      → Kept
          (record_attempt r cfg
            (links 0)
            now
            keys.account
            (lock_of keys.account)
            policy.account
            policy.fallback_window_seconds
            policy.fallback_max_attempts
            l).1
  unfolding record_attempt
  attempt_reached l h link = rw link h

  account_locks :
      (l : Limiter r) (db : Db)
      → links 0 ≡ reached
      → policy.account.max_attempts ≤ number_at r keys.account l.store + 1
      → (present r (lock_of keys.account) l.store ≡ true → Kept l)
      → Kept (record_account r cfg policy links now keys audit (l, db)).0
  unfolding record_account
  account_locks l db link enough expiring =
      let j = lock_of keys.account in
      let limit = policy.account in
      let (result, l') =
        record_attempt r cfg (links 0) now keys.account j limit policy.fallback_window_seconds
          policy.fallback_max_attempts l in
      let locked =
        locked-IsAlive r keys.account j limit l.store positive.of_account.1 expiring
          (incr_and_lock-locked r keys.account j limit l.store enough) in
      let kept : Kept l' = attempt_reached l locked link in
      let longer = escalation_keeps (links 1) (links 2) l' kept in
      elim (Bool-cases result.newly_locked) [
        | inl new ↦ ground (arith, new, longer)
        | inr old ↦ ground (arith, old, kept)
      ]

  failure_keeps :
      (l : Limiter r) (db : Db)
      → policy.enabled ≡ true
      → Kept (record_account r cfg policy links now keys audit (l, db)).0
      → Kept (record_failure r cfg policy links now keys audit (l, db)).0
  unfolding record_failure
  failure_keeps l db enabled one =
      let (l1, db1) = record_account r cfg policy links now keys audit (l, db) in
      let (l2, db2) =
        record_dimension r cfg policy links now keys audit 3 "pair" keys.pair policy.pair
          (l1, db1) in
      let two = dimension_keeps 3 "pair" keys.pair policy.pair l1 db1 positive.of_pair one in
      let three = ip_keeps l2 db2 two in ground (arith, enabled, three)

  -- The failure that brings the account's count to its maximum, or past it, leaves the account
  -- locked for every address: the next attempt is refused, whatever
  -- becomes of the later calls of Redis in the failure. Throttling is enabled, the call that counts
  -- and the one that asks reach Redis, the windows and locks are not empty, and a lock that is
  -- there runs out.
  pub failure_locks_account :
      (links' : ℕ → Link) (now' : ℕ) (keys' : Keys) (l : Limiter r) (db : Db)
      → policy.enabled ≡ true
      → links 0 ≡ reached
      → links' 0 ≡ reached
      → keys'.account ≡ keys.account
      → policy.account.max_attempts ≤ number_at r keys.account l.store + 1
      → (present r (lock_of keys.account) l.store ≡ true → IsAlive r (lock_of keys.account) l.store)
      → (check_throttled r policy links' now' keys'
          (record_failure r cfg policy links now keys audit (l, db)).0).0
        ≡ true
  failure_locks_account links' now' keys' l db enabled link link' same enough expiring =
      let after = (record_failure r cfg policy links now keys audit (l, db)).0 in
      let kept : Kept after =
        failure_keeps l db enabled (account_locks l db link enough expiring) in
      let kept' : IsAlive r (lock_of keys'.account) after.store = rw same kept in
      check_refuses r policy links' now' keys' after enabled link' kept'
