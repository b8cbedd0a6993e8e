-- ===== src/Throttle.antt =====
-- What app/services/login_throttle_service.py and mfa_throttle_service.py have in common: they are
-- the same code over three counters, for the account, the address, and the pair of both, with
-- other keys, settings and audit events. `Login` and `Mfa` give each module's own.
pub mod Login
pub mod Mfa
pub mod Success
pub mod Failure
use omnibioai_auth.Prelude.{
  ℕ, ◌+◌, ◌-◌, ◌*◌, ◌^◌, String, Bool, true, false, not, Option, none, some, List, [], ◌∷◌, ◌++◌,
  leb, ltb, max, min, ◌≈◌, if◌then◌else◌,
}
use Prim.Native.String.{◌++◌ as append}
use omnibioai_auth.Models.{AuditEvent, Db, log_event}
use omnibioai_auth.RateLimit.Commands.{Redis}
use omnibioai_auth.RateLimit.InProcess.{FallbackSettings}
use omnibioai_auth.RateLimit.{
  Link, Limit, Limiter, record_attempt, is_locked, clear, bump_strikes, set_lock_ttl,
}

-- The settings of one of the two modules.
pub record Policy : Type 0 where
  pub enabled : Bool
  pub account : Limit
  pub pair : Limit
  pub ip : Limit
  pub fallback_window_seconds : Option ℕ
  pub fallback_max_attempts : Option ℕ
  pub strike_ttl_seconds : ℕ
  pub progressive_multiplier : ℕ
  pub max_lockout_seconds : ℕ

-- The keys of one attempt; there is one for the address if the address is known.
pub record Keys : Type 0 where
  pub account : String
  pub pair : String
  pub ip : Option String
  pub strike : String

-- `f"{key}:lock"`
abbrev pub lock_of : String → String
lock_of key = append key ":lock"

-- `ip or ""`
abbrev pub known_ip : Option String → String
known_ip none = ""
known_ip (some ip) = ip

abbrev pub key_of_ip : (String → String) → Option String → Option String
key_of_ip f ip = if known_ip ip ≈ "" then none else some (f (known_ip ip))

abbrev pub ip_locks : Keys → List String
ip_locks keys = elim keys.ip [ none ↦ [] | some k ↦ lock_of k ∷ [] ]

abbrev pub lock_keys : Keys → List String
lock_keys keys = lock_of keys.account ∷ lock_of keys.pair ∷ ip_locks keys

-- All but the counter of the address.
abbrev pub cleared_keys : Keys → List String
cleared_keys keys =
    keys.account ∷ lock_of keys.account ∷ keys.strike ∷ keys.pair ∷ lock_of keys.pair ∷ []

-- The length of the lock after so many strikes.
abbrev pub escalated : Policy → ℕ → ℕ
escalated policy strikes =
    min (policy.account.lockout_seconds * policy.progressive_multiplier ^ (strikes - 1))
      policy.max_lockout_seconds

module _ (r : Redis) where
  -- The loop of `check_throttled`; `links i` is what the call of Redis with number `i` comes to.
  unfoldable pub check_locks : (ℕ → Link) → ℕ → ℕ → List String → Limiter r → Bool × ℕ
  check_locks links i now [] l = (false, 0)
  check_locks links i now (key ∷ keys) l =
      let (here, ttl) = is_locked r (links i) now key l in
      let (rest, retry_after) = check_locks links (i + 1) now keys l in
      if here then (true, max ttl retry_after) else (rest, retry_after)

  -- Whether the attempt is refused, and after how many seconds to try again.
  unfoldable pub check_throttled : Policy → (ℕ → Link) → ℕ → Keys → Limiter r → Bool × ℕ
  unfolding check_locks
  check_throttled policy links now keys l =
      if policy.enabled then check_locks links 0 now (lock_keys keys) l else (false, 0)

  -- `_apply_progressive_escalation`, with the outcomes of its two calls.
  unfoldable pub apply_progressive_escalation :
      Policy → Link → Link → ℕ → Keys → Limiter r → Limiter r
  apply_progressive_escalation policy link link' now keys l =
      let (strikes, l') = bump_strikes r link now keys.strike policy.strike_ttl_seconds l in
      if leb strikes 1
      then l'
      else if ltb policy.account.lockout_seconds (escalated policy strikes)
      then set_lock_ttl r link' now (lock_of keys.account) (escalated policy strikes) l'
      else l'

  module _ (cfg : FallbackSettings) (policy : Policy) (links : ℕ → Link) (now : ℕ) (keys : Keys)
      (audit : String → ℕ → AuditEvent) where
    -- One counter: the attempt is recorded, and a lock that it sets is audited.
    unfoldable pub record_dimension : ℕ → String → String → Limit → Limiter r × Db → Limiter r × Db
    unfolding log_event
    record_dimension i dimension key limit (l, db) =
        let (result, l') =
          record_attempt r cfg (links i) now key (lock_of key) limit policy.fallback_window_seconds
            policy.fallback_max_attempts l in
        (
          l',
          if result.newly_locked then log_event (audit dimension limit.lockout_seconds) db else db,
        )

    -- The account's counter, whose lock grows with each repetition.
    unfoldable pub record_account : Limiter r × Db → Limiter r × Db
    unfolding apply_progressive_escalation log_event
    record_account (l, db) =
        let limit = policy.account in
        let (result, l') =
          record_attempt r cfg (links 0) now keys.account (lock_of keys.account) limit
            policy.fallback_window_seconds policy.fallback_max_attempts l in
        if result.newly_locked
        then (
          apply_progressive_escalation policy (links 1) (links 2) now keys l',
          log_event (audit "account" limit.lockout_seconds) db,
        )
        else (l', db)

    unfoldable pub record_ip : Limiter r × Db → Limiter r × Db
    unfolding record_dimension
    record_ip state = elim keys.ip [
      | none ↦ state
      | some key ↦ record_dimension 4 "ip" key policy.ip state
    ]

    unfoldable pub record_failure : Limiter r × Db → Limiter r × Db
    unfolding record_account record_dimension record_ip
    record_failure state =
        if policy.enabled
        then record_ip (record_dimension 3 "pair" keys.pair policy.pair (record_account state))
        else state

  unfoldable pub record_success : Policy → Link → Keys → Limiter r → Limiter r
  record_success policy link keys l =
      if policy.enabled then clear r link (cleared_keys keys) l else l
