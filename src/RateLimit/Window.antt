-- ===== src/RateLimit/Window.antt =====
-- The attempts of a window, on the Redis path of app/core/rate_limit.py.
use omnibioai_auth.Prelude.{
  ℕ, ◌+◌, ◌≤◌, ◌<◌, String, ◌≡◌, refl, Bool, true, false, not, ◌&&◌, Option, none, some, List, [],
  ◌∷◌, arith, leb, ltb, ◌==◌, ◌≈◌, ≈_refl, length,
}
use omnibioai_auth.RateLimit.Commands.{Entry, Redis, bumped}
use omnibioai_auth.RateLimit.{Limit, number_at, incr_in_window, incr_and_lock}

-- The seconds that pass before each attempt, and their sum.
abbrev pub total : List ℕ → ℕ
total [] = 0
total (w ∷ ws) = w + total ws

-- The counter holds `n`, and outlasts the next `left` seconds.
abbrev pub holds_count : ℕ → ℕ → Option Entry → Bool
holds_count n left none = n == 0
holds_count n left (some e) = not (n == 0) && (e.value == n && ltb left e.ttl)

module _ (r : Redis) (fail_key lock_key : String) (limit : Limit) where
  -- Attempts, each after its wait.
  abbrev pub attempts : List ℕ → r.Store → r.Store
  attempts [] s = s
  attempts (w ∷ ws) s = attempts ws (incr_and_lock r fail_key lock_key limit (r.wait w s)).1

  record IsCounting (n left : ℕ) (s : r.Store) : Type 0 where
    unlocked : r.look lock_key s ≡ none
    counted : holds_count n left (r.look fail_key s) ≡ true

  recount :
      {n n' left left' : ℕ} {s : r.Store}
      → n ≡ n'
      → left ≡ left'
      → IsCounting n left s
      → IsCounting n' left' s
  recount same same' h = record { unlocked = h.unlocked; counted = ground (arith, h.counted) }

  IsCounting-wait :
      (n w left : ℕ) (s : r.Store) → IsCounting n (w + left) s → IsCounting n left (r.wait w s)
  IsCounting-wait n w left s h = record {
    unlocked = ground (arith, h.unlocked, r.look-wait lock_key w s);
    counted = ground (arith, h.counted, r.look-wait fail_key w s);
  }

  module _ (apart : (fail_key ≈ lock_key) ≡ false) (window : 1 ≤ limit.window_seconds) where
    -- The counter after one more attempt.
    look-incr_in_window :
        (n left : ℕ) (s : r.Store)
        → IsCounting n left s
        → left < limit.window_seconds
        → (number_at r fail_key (r.incr fail_key s) ≡ n + 1)
          × IsCounting (n + 1) left (incr_in_window r fail_key limit.window_seconds s).1
    look-incr_in_window n left s h short =
        let counted = r.incr fail_key s in
        let own = ≈_refl fail_key in
        let here : r.look fail_key counted ≡ some (bumped (r.look fail_key s)) =
          ground (arith, r.look-incr fail_key fail_key s, own) in
        let number : number_at r fail_key counted ≡ n + 1 = ground (arith, here, h.counted) in
        let other : r.look lock_key counted ≡ none =
          ground (arith, r.look-incr fail_key lock_key s, h.unlocked, apart) in
        (
          number,
          record {
            unlocked = ground (
              arith,
              other,
              apart,
              r.look-expire fail_key lock_key limit.window_seconds counted window,
            );
            counted = ground (
              arith,
              here,
              own,
              number,
              h.counted,
              r.look-expire fail_key fail_key limit.window_seconds counted window,
            );
          },
        )

    -- An attempt below the maximum counts, and the next one may come.
    IsCounting-incr_and_lock :
        (n left : ℕ) (s : r.Store)
        → IsCounting n left s
        → left < limit.window_seconds
        → n + 1 < limit.max_attempts
        → IsCounting (n + 1) left (incr_and_lock r fail_key lock_key limit s).1
    unfolding incr_and_lock
    IsCounting-incr_and_lock n left s h short below =
        let (number, counting) = look-incr_in_window n left s h short in
        record {
          unlocked = ground (arith, h.unlocked, number, counting.unlocked);
          counted = ground (arith, h.unlocked, number, counting.counted);
        }

    IsCounting-attempts :
        (n left : ℕ) (ws : List ℕ) (s : r.Store)
        → IsCounting n (total ws + left) s
        → total ws + left < limit.window_seconds
        → n + length ws < limit.max_attempts
        → IsCounting (n + length ws) left (attempts ws s)
    IsCounting-attempts n left [] s h short below = recount (omega arith) (omega arith) h
    IsCounting-attempts n left (w ∷ ws) s h short below =
        let waited = IsCounting-wait n w (total ws + left) s (recount refl (omega arith) h) in
        let one =
          IsCounting-incr_and_lock n (total ws + left) (r.wait w s) waited (omega arith)
            (omega arith) in
        recount (omega arith) refl
          (IsCounting-attempts (n + 1) left ws _ one (omega arith) (omega arith))

    -- Within a window the lock falls at the attempt whose number is the maximum, neither earlier
    -- nor later: the attempt after `ws`, if none of them was the last allowed one, is locked out
    -- exactly if its number is the maximum, and its number is reported. The two keys differ, are
    -- absent at the start, and the window is positive.
    pub attempt_locks_at_max :
        (ws : List ℕ) (w : ℕ) (s : r.Store)
        → r.look fail_key s ≡ none
        → r.look lock_key s ≡ none
        → total ws + w < limit.window_seconds
        → length ws < limit.max_attempts
        → (incr_and_lock r fail_key lock_key limit (r.wait w (attempts ws s))).0 ≡ record {
          locked = leb limit.max_attempts (length ws + 1);
          newly_locked = leb limit.max_attempts (length ws + 1);
          count = length ws + 1;
        }
    unfolding incr_and_lock
    attempt_locks_at_max ws w s no_count no_lock short below =
        let n = length ws in
        let start : IsCounting 0 (total ws + w) s = record {
          unlocked = no_lock;
          counted = ground (arith, no_count);
        } in
        let before : IsCounting n (w + 0) (attempts ws s) =
          recount (omega arith) (omega arith)
            (IsCounting-attempts 0 w ws s start short (omega arith)) in
        let now : IsCounting n 0 (r.wait w (attempts ws s)) = IsCounting-wait n w 0 _ before in
        let number = (look-incr_in_window n 0 _ now (omega arith)).0 in
        ground (arith, now.unlocked, number)
