-- ===== src/RateLimit.antt =====
-- app/core/rate_limit.py: counters with a lock, as Lua scripts that Redis runs at one instant, and
-- the in-process fallback that each call takes when its call of Redis raises.
pub mod Commands
pub mod Window
pub mod Locks
pub mod InProcess
use omnibioai_auth.Prelude.{
  ℕ, ◌+◌, String, Bool, true, false, not, Option, none, some, List, [], ◌∷◌, leb, ltb, ◌==◌,
  is_none, if◌then◌else◌,
}
use omnibioai_auth.RateLimit.Commands.{Entry, Redis}
use omnibioai_auth.RateLimit.InProcess.{
  RateLimitResult, Fallback, FallbackSettings, get, put, has_name, current, milliseconds,
  fallback_attempt, fallback_is_locked, fallback_clear,
}

-- What one call of Redis comes to: it answers, it raises before it is run, or it is run and the
-- answer is lost.
pub data Link : Type 0 where
  reached refused lost : Link

-- The window, the number of attempts and the length of the lock, in seconds.
pub record Limit : Type 0 where
  pub window_seconds : ℕ
  pub max_attempts : ℕ
  pub lockout_seconds : ℕ

module _ (r : Redis) where
  pub record Limiter : Type 0 where
    pub store : r.Store
    pub fallback : Fallback

  -- `tonumber(redis.call('GET', key) or '0')`
  abbrev pub number_at : String → r.Store → ℕ
  number_at key s = elim (r.look key s) [ none ↦ 0 | some e ↦ e.value ]

  abbrev pub present : String → r.Store → Bool
  present key s = not (is_none (r.look key s))

  -- `INCR`, and `EXPIRE` where that made the key.
  abbrev pub incr_in_window : String → ℕ → r.Store → ℕ × r.Store
  incr_in_window key seconds s =
      let counted = r.incr key s in
      let n = number_at key counted in (n, if n == 1 then r.expire key seconds counted else counted)

  -- `_INCR_AND_LOCK_SCRIPT`
  unfoldable pub incr_and_lock : String → String → Limit → r.Store → RateLimitResult × r.Store
  incr_and_lock fail_key lock_key limit s =
      if present lock_key s
      then (record { locked = true; newly_locked = false; count = number_at fail_key s }, s)
      else (let (n, counted) = incr_in_window fail_key limit.window_seconds s in
          if leb limit.max_attempts n
          then (
            record { locked = true; newly_locked = true; count = n },
            r.set_ex lock_key limit.lockout_seconds counted,
          )
          else (record { locked = false; newly_locked = false; count = n }, counted))

  -- `now` is the monotonic clock of the process.
  unfoldable pub record_attempt :
      FallbackSettings
      → Link
      → ℕ
      → String
      → String
      → Limit
      → Option ℕ
      → Option ℕ
      → Limiter
      → RateLimitResult × Limiter
  unfolding incr_and_lock
  record_attempt cfg link now fail_key lock_key limit fallback_window fallback_max l =
      let (result, s) = incr_and_lock fail_key lock_key limit l.store in
      let (result', f) =
        fallback_attempt cfg now fail_key lock_key fallback_window fallback_max l.fallback in
      elim link [
        | reached ↦ (result, record { store = s; fallback = l.fallback })
        | refused ↦ (result', record { store = l.store; fallback = f })
        | lost ↦ (result', record { store = s; fallback = f })
      ]

  -- TTL answers -2 and -1 for no key and for one that does not expire.
  abbrev pub ttl_at : String → r.Store → ℕ
  ttl_at key s = elim (r.look key s) [ none ↦ 0 | some e ↦ e.ttl ]

  unfoldable pub is_locked : Link → ℕ → String → Limiter → Bool × ℕ
  is_locked reached now lock_key l =
      let ttl = ttl_at lock_key l.store in if ltb 0 ttl then (true, ttl) else (false, 0)
  is_locked refused now lock_key l = fallback_is_locked now lock_key l.fallback
  is_locked lost now lock_key l = fallback_is_locked now lock_key l.fallback

  abbrev pub delete_all : List String → r.Store → r.Store
  delete_all [] s = s
  delete_all (key ∷ keys) s = delete_all keys (r.delete key s)

  unfoldable pub clear : Link → List String → Limiter → Limiter
  clear refused keys l = record { store = l.store; fallback = fallback_clear keys l.fallback }
  clear reached keys l = record {
    store = delete_all keys l.store;
    fallback = fallback_clear keys l.fallback;
  }
  clear lost keys l = record {
    store = delete_all keys l.store;
    fallback = fallback_clear keys l.fallback;
  }

  -- The fallback of `bump_strikes`.
  abbrev pub fallback_strike : ℕ → String → ℕ → Fallback → ℕ × Fallback
  fallback_strike now key seconds f =
      let (start, n) = current now (milliseconds seconds) (get key f.counters) in
      (n + 1, record f { counters = put key (start, n + 1) f.counters })

  unfoldable pub bump_strikes : Link → ℕ → String → ℕ → Limiter → ℕ × Limiter
  bump_strikes link now strike_key strike_ttl_seconds l =
      let (n, s) = incr_in_window strike_key strike_ttl_seconds l.store in
      let (n', f) = fallback_strike now strike_key strike_ttl_seconds l.fallback in
      elim link [
        | reached ↦ (n, record { store = s; fallback = l.fallback })
        | refused ↦ (n', record { store = l.store; fallback = f })
        | lost ↦ (n', record { store = s; fallback = f })
      ]

  abbrev pub fallback_lock_ttl : ℕ → String → ℕ → Fallback → Fallback
  fallback_lock_ttl now key seconds f = elim (get key f.locks) [
    | none ↦ f
    | some _ ↦ record f { locks = put key (now + milliseconds seconds) f.locks }
  ]

  unfoldable pub set_lock_ttl : Link → ℕ → String → ℕ → Limiter → Limiter
  set_lock_ttl reached now lock_key seconds l = record l {
    store = r.expire lock_key seconds l.store;
  }
  set_lock_ttl refused now lock_key seconds l = record l {
    fallback = fallback_lock_ttl now lock_key seconds l.fallback;
  }
  set_lock_ttl lost now lock_key seconds l = record {
    store = r.expire lock_key seconds l.store;
    fallback = fallback_lock_ttl now lock_key seconds l.fallback;
  }
