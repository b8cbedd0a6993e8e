-- ===== src/RateLimit/Locks.antt =====
-- What stands in Redis of a lock, through the writes of app/core/rate_limit.py.
use omnibioai_auth.Prelude.{
  ℕ, ◌≤◌, String, ◌≡◌, ◌∙◌, refl, Bool, true, false, Option, none, some, List, [], ◌∷◌, arith, ltb,
  ◌≈◌, ≈_iff, ≈_refl, contains, Bool-cases, inl, inr,
}
use omnibioai_auth.RateLimit.Commands.{Entry, Redis}
use omnibioai_auth.RateLimit.InProcess.{
  Fallback, FallbackSettings, get, pop, fallback_clear, fallback_is_locked,
}
use omnibioai_auth.RateLimit.{
  Link, reached, refused, lost, Limit, Limiter, present, incr_in_window, incr_and_lock,
  record_attempt, is_locked, bump_strikes, set_lock_ttl, delete_all, clear,
}

-- An entry that is there and runs out.
abbrev pub alive : Option Entry → Bool
alive none = false
alive (some e) = ltb 0 e.ttl

module _ (r : Redis) (j : String) where
  abbrev pub IsAlive : r.Store → Type 0
  IsAlive s = alive (r.look j s) ≡ true

  IsAlive-incr_in_window :
      (k : String) (n : ℕ) (s : r.Store) → 1 ≤ n → IsAlive s → IsAlive (incr_in_window r k n s).1
  IsAlive-incr_in_window k n s positive h =
      let kept : IsAlive (r.incr k s) = ground (arith, r.look-incr k j s, ≈_iff k j) in
      ground (arith, kept, r.look-expire k j n (r.incr k s) positive, ≈_iff k j)

  pub IsAlive-incr_and_lock :
      (fail_key lock_key : String) (limit : Limit) (s : r.Store)
      → 1 ≤ limit.window_seconds
      → 1 ≤ limit.lockout_seconds
      → IsAlive s
      → IsAlive (incr_and_lock r fail_key lock_key limit s).1
  unfolding incr_and_lock
  IsAlive-incr_and_lock fail_key lock_key limit s window lockout h =
      let counted = (incr_in_window r fail_key limit.window_seconds s).1 in
      let kept : IsAlive counted =
        IsAlive-incr_in_window fail_key limit.window_seconds s window h in
      let set : IsAlive (r.set_ex lock_key limit.lockout_seconds counted) =
        ground (arith, kept, r.look-set_ex lock_key j limit.lockout_seconds counted lockout) in
      ground (arith, kept, set)

  -- No call takes a lock away, whatever becomes of it.
  pub IsAlive-record_attempt :
      (cfg : FallbackSettings) (link : Link) (now : ℕ) (fail_key lock_key : String) (limit : Limit)
      (fw fm : Option ℕ) (l : Limiter r)
      → 1 ≤ limit.window_seconds
      → 1 ≤ limit.lockout_seconds
      → IsAlive l.store
      → IsAlive (record_attempt r cfg link now fail_key lock_key limit fw fm l).1.store
  unfolding record_attempt
  IsAlive-record_attempt cfg reached now fk lk limit fw fm l window lockout h =
      IsAlive-incr_and_lock fk lk limit l.store window lockout h
  IsAlive-record_attempt cfg refused now fk lk limit fw fm l window lockout h = h
  IsAlive-record_attempt cfg lost now fk lk limit fw fm l window lockout h =
      IsAlive-incr_and_lock fk lk limit l.store window lockout h

  pub IsAlive-bump_strikes :
      (link : Link) (now : ℕ) (key : String) (n : ℕ) (l : Limiter r)
      → 1 ≤ n
      → IsAlive l.store
      → IsAlive (bump_strikes r link now key n l).1.store
  unfolding bump_strikes
  IsAlive-bump_strikes reached now key n l positive h =
      IsAlive-incr_in_window key n l.store positive h
  IsAlive-bump_strikes refused now key n l positive h = h
  IsAlive-bump_strikes lost now key n l positive h = IsAlive-incr_in_window key n l.store positive h

  IsAlive-expire : (k : String) (n : ℕ) (s : r.Store) → 1 ≤ n → IsAlive s → IsAlive (r.expire k n s)
  IsAlive-expire k n s positive h = ground (arith, r.look-expire k j n s positive, ≈_iff k j)

  pub IsAlive-set_lock_ttl :
      (link : Link) (now : ℕ) (key : String) (n : ℕ) (l : Limiter r)
      → 1 ≤ n
      → IsAlive l.store
      → IsAlive (set_lock_ttl r link now key n l).store
  unfolding set_lock_ttl
  IsAlive-set_lock_ttl reached now key n l positive h = IsAlive-expire key n l.store positive h
  IsAlive-set_lock_ttl refused now key n l positive h = h
  IsAlive-set_lock_ttl lost now key n l positive h = IsAlive-expire key n l.store positive h

-- After an attempt that finds or sets the lock, the lock is there.
pub locked-IsAlive :
    (r : Redis) (fail_key lock_key : String) (limit : Limit) (s : r.Store)
    → 1 ≤ limit.lockout_seconds
    → (present r lock_key s ≡ true → IsAlive r lock_key s)
    → (incr_and_lock r fail_key lock_key limit s).0.locked ≡ true
    → IsAlive r lock_key (incr_and_lock r fail_key lock_key limit s).1
unfolding incr_and_lock
locked-IsAlive r fail_key lock_key limit s lockout expiring h =
    let counted = (incr_in_window r fail_key limit.window_seconds s).1 in
    let set : IsAlive r lock_key (r.set_ex lock_key limit.lockout_seconds counted) = ground (
      arith,
      r.look-set_ex lock_key lock_key limit.lockout_seconds counted lockout,
      ≈_refl lock_key,
    ) in
    ground (arith, set, expiring)

-- Keys that are deleted are gone, in whatever order.
pub look-delete_all-none :
    (r : Redis) (j : String) (keys : List String) (s : r.Store)
    → r.look j s ≡ none
    → r.look j (delete_all r keys s) ≡ none
look-delete_all-none r j [] s h = h
look-delete_all-none r j (k ∷ ks) s h =
    look-delete_all-none r j ks (r.delete k s) (ground (arith, r.look-delete k j s))

pub look-delete_all :
    (r : Redis) (j : String) (keys : List String) (s : r.Store)
    → contains j keys ≡ true
    → r.look j (delete_all r keys s) ≡ none
look-delete_all r j [] s h = cc
look-delete_all r j (k ∷ ks) s h = elim (Bool-cases (k ≈ j)) [
  | inl same ↦
      look-delete_all-none r j ks (r.delete k s) (ground (arith, r.look-delete k j s, same))
  | inr other ↦ look-delete_all r j ks (r.delete k s) (ground (arith, ≈_iff k j, ≈_iff j k, other))
]

pop-none : (j k : String) (ps : List (String × ℕ)) → get j ps ≡ none → get j (pop k ps) ≡ none
pop-none j k [] h = refl
pop-none j k (p ∷ ps) h = ground (arith, pop-none j k ps, ≈_iff p.0 j, ≈_iff p.0 k)

pop-own : (j : String) (ps : List (String × ℕ)) → get j (pop j ps) ≡ none
pop-own j [] = refl
pop-own j (p ∷ ps) = ground (arith, pop-own j ps)

fallback_clear-none :
    (j : String) (keys : List String) (f : Fallback)
    → get j f.locks ≡ none
    → get j (fallback_clear keys f).locks ≡ none
unfolding fallback_clear
fallback_clear-none j [] f h = h
fallback_clear-none j (k ∷ ks) f h = fallback_clear-none j ks _ (pop-none j k f.locks h)

pub get-fallback_clear :
    (j : String) (keys : List String) (f : Fallback)
    → contains j keys ≡ true
    → get j (fallback_clear keys f).locks ≡ none
unfolding fallback_clear
get-fallback_clear j [] f h = cc
get-fallback_clear j (k ∷ ks) f h = elim (Bool-cases (k ≈ j)) [
  | inl same ↦
      let e : k ≡ j = ground (arith, ≈_iff k j, same) in
      fallback_clear-none j ks _ (rw e (pop-own j f.locks))
  | inr other ↦ get-fallback_clear j ks _ (ground (arith, ≈_iff k j, ≈_iff j k, other))
]

-- A key that is cleared is no lock, whatever becomes of the question.
pub clear-unlocked :
    (r : Redis) (j : String) (keys : List String) (l : Limiter r) (link : Link) (now : ℕ)
    → contains j keys ≡ true
    → is_locked r link now j (clear r reached keys l) ≡ (false, 0)
unfolding is_locked clear fallback_is_locked
clear-unlocked r j keys l reached now h = ground (arith, look-delete_all r j keys l.store h)
clear-unlocked r j keys l refused now h = ground (arith, get-fallback_clear j keys l.fallback h)
clear-unlocked r j keys l lost now h = ground (arith, get-fallback_clear j keys l.fallback h)

look-delete_all_other :
    (r : Redis) (j : String) (keys : List String) (s : r.Store)
    → contains j keys ≡ false
    → r.look j (delete_all r keys s) ≡ r.look j s
look-delete_all_other r j [] s h = refl
look-delete_all_other r j (k ∷ ks) s h =
    let rest : contains j ks ≡ false = ground arith in
    ground (
      arith,
      ≈_iff k j,
      ≈_iff j k,
      r.look-delete k j s,
      look-delete_all_other r j ks (r.delete k s) rest,
    )

get-pop : (j k : String) (ps : List (String × ℕ)) → (j ≈ k) ≡ false → get j (pop k ps) ≡ get j ps
get-pop j k [] h = refl
get-pop j k (p ∷ ps) h = ground (arith, get-pop j k ps h, ≈_iff p.0 j, ≈_iff p.0 k, ≈_iff j k)

get-fallback_clear_other :
    (j : String) (keys : List String) (f : Fallback)
    → contains j keys ≡ false
    → get j (fallback_clear keys f).locks ≡ get j f.locks
unfolding fallback_clear
get-fallback_clear_other j [] f h = refl
get-fallback_clear_other j (k ∷ ks) f h =
    let apart : (j ≈ k) ≡ false = ground arith in
    let rest : contains j ks ≡ false = ground arith in
    get-fallback_clear_other j ks _ rest ∙ get-pop j k f.locks apart

-- A key that is not cleared is as locked as it was.
pub clear-locked :
    (r : Redis) (j : String) (keys : List String) (l : Limiter r) (link : Link) (now : ℕ)
    → contains j keys ≡ false
    → is_locked r link now j (clear r reached keys l) ≡ is_locked r link now j l
unfolding is_locked clear fallback_is_locked
clear-locked r j keys l reached now h = ground (arith, look-delete_all_other r j keys l.store h)
clear-locked r j keys l refused now h = ground (arith, get-fallback_clear_other j keys l.fallback h)
clear-locked r j keys l lost now h = ground (arith, get-fallback_clear_other j keys l.fallback h)
