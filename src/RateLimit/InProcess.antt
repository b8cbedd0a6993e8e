-- ===== src/RateLimit/InProcess.antt =====
-- `_InProcessFallback` of app/core/rate_limit.py. `time.monotonic()` is in milliseconds here. A
-- dictionary is a list of pairs with at most one for a key.
use omnibioai_auth.Prelude.{
  ℕ, ◌+◌, ◌-◌, ◌*◌, ◌/◌, String, Bool, true, false, not, Option, none, some, List, [], ◌∷◌, ltb,
  leb, ◌≈◌, first, select, length, if◌then◌else◌,
}

pub record RateLimitResult : Type 0 where
  pub locked : Bool
  pub newly_locked : Bool
  pub count : ℕ

-- `dict.get`, `d[key] = value` and `dict.pop`.
module _ {ℓ} {A : Type ℓ} where
  abbrev pub has_name : String → String × A → Bool
  has_name key p = p.0 ≈ key

  abbrev pub get : String → List (String × A) → Option A
  get key ps = elim (first (has_name key) ps) [ none ↦ none | some p ↦ some p.1 ]

  abbrev pub pop : String → List (String × A) → List (String × A)
  pop key = select (λ p. not (has_name key p))

  abbrev pub put : String → A → List (String × A) → List (String × A)
  put key a ps = (key, a) ∷ pop key ps

-- The values of the counters are their window's start and their count.
pub record Fallback : Type 0 where
  pub counters : List (String × (ℕ × ℕ))
  pub locks : List (String × ℕ)

-- The `RATE_LIMIT_FALLBACK_` settings.
pub record FallbackSettings : Type 0 where
  pub window_seconds : ℕ
  pub max_attempts : ℕ
  pub max_keys : ℕ

abbrev pub milliseconds : ℕ → ℕ
milliseconds n = n * 1000

abbrev pub or_default : Option ℕ → ℕ → ℕ
or_default none n = n
or_default (some m) n = m

abbrev pub evict_if_full : ℕ → Fallback → Fallback
evict_if_full max_keys f =
    if ltb max_keys (length f.counters + length f.locks)
    then record { counters = []; locks = [] }
    else f

-- The counter's window and count, restarted where the window is over.
abbrev pub current : ℕ → ℕ → Option (ℕ × ℕ) → ℕ × ℕ
current now window none = (now, 0)
current now window (some c) = if ltb window (now - c.0) then (now, 0) else c

abbrev pub running_count : Option (ℕ × ℕ) → ℕ
running_count none = 0
running_count (some c) = c.1

-- `del self._locks[lock_key]` of a lock that has run out, the eviction, and the count.
unfoldable pub count_attempt :
    FallbackSettings → ℕ → String → String → ℕ → ℕ → Fallback → RateLimitResult × Fallback
count_attempt cfg now fail_key lock_key window max_attempts f =
    let f' = evict_if_full cfg.max_keys (record f { locks = pop lock_key f.locks }) in
    let (start, n) = current now window (get fail_key f'.counters) in
    let counted = record f' { counters = put fail_key (start, n + 1) f'.counters } in
    if leb max_attempts (n + 1)
    then (
      record { locked = true; newly_locked = true; count = n + 1 },
      record counted { locks = put lock_key (now + window) counted.locks },
    )
    else (record { locked = false; newly_locked = false; count = n + 1 }, counted)

unfoldable pub fallback_attempt :
    FallbackSettings
    → ℕ
    → String
    → String
    → Option ℕ
    → Option ℕ
    → Fallback
    → RateLimitResult × Fallback
unfolding count_attempt
fallback_attempt cfg now fail_key lock_key window_seconds max_attempts f =
    let window = milliseconds (or_default window_seconds cfg.window_seconds) in
    let counted =
      count_attempt cfg now fail_key lock_key window (or_default max_attempts cfg.max_attempts) f in
    elim (get lock_key f.locks) [
      | none ↦ counted
      | some expires_at ↦
          if ltb now expires_at
          then (
            record {
              locked = true;
              newly_locked = false;
              count = running_count (get fail_key f.counters);
            },
            f,
          )
          else counted
    ]

unfoldable pub fallback_is_locked : ℕ → String → Fallback → Bool × ℕ
fallback_is_locked now lock_key f = elim (get lock_key f.locks) [
  | none ↦ (false, 0)
  | some expires_at ↦ if ltb now expires_at then (true, (expires_at - now) / 1000) else (false, 0)
]

unfoldable pub fallback_clear : List String → Fallback → Fallback
fallback_clear [] f = f
fallback_clear (key ∷ keys) f =
    fallback_clear keys (record { counters = pop key f.counters; locks = pop key f.locks })
