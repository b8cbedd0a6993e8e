-- ===== src/Throttle/Success.antt =====
-- What a success resets, in app/services/login_throttle_service.py and mfa_throttle_service.py.
use Prim.Native.Char.{code as code_point}
use Prim.Native.String.{[] as no_text, ◌∷◌ as cons_text, ◌++◌ as append}
use Prim.Native.String.append.{cons as append_cons}
use omnibioai_auth.Prelude.{
  ℕ, zero, suc, ◌+◌, String, ◌≡◌, refl, ap, ◌∙◌, Bool, true, false, Option, List, [], ◌∷◌, arith,
  ◌==◌, ◌≈◌, ≈_refl, ≈_ne, contains, All, Bool-cases, inl, inr,
}
use omnibioai_auth.Throttle.Login.{
  Hashing, short_digest, ip_key, login_keys, login_check_throttled, login_record_success,
}
use omnibioai_auth.Throttle.Mfa.{mfa_ip_key, mfa_keys, mfa_check_throttled, mfa_record_success}
use omnibioai_auth.RateLimit.Commands.{Redis}
use omnibioai_auth.RateLimit.{Link, reached, Limiter, clear}
use omnibioai_auth.RateLimit.Locks.{clear-unlocked, clear-locked}
use omnibioai_auth.Throttle.{
  Policy, Keys, known_ip, lock_of, ip_locks, check_locks, check_throttled, cleared_keys,
  record_success,
}

check_locks_kept :
    (r : Redis) (links : ℕ → Link) (i now : ℕ) (cleared : List String) (l : Limiter r)
    (keys : List String)
    → All (λ k. contains k cleared ≡ false) keys
    → check_locks r links i now keys (clear r reached cleared l) ≡ check_locks r links i now keys l
unfolding check_locks
check_locks_kept r links i now cleared l [] h = refl
check_locks_kept r links i now cleared l (k ∷ ks) h =
    rw (clear-locked r k cleared l (links i) now h.0)
      (rw (check_locks_kept r links (i + 1) now cleared l ks h.1) refl)

-- The lock of the address is left as it was where it is none of the keys that are cleared.
apart_leaves_ip :
    (r : Redis) (policy : Policy) (links : ℕ → Link) (now : ℕ) (keys : Keys) (l : Limiter r)
    → policy.enabled ≡ true
    → All (λ k. contains k (cleared_keys keys) ≡ false) (ip_locks keys)
    → check_throttled r policy links now keys (record_success r policy reached keys l)
      ≡ check_locks r links 2 now (ip_locks keys) l
unfolding check_throttled check_locks record_success
apart_leaves_ip r policy links now keys l enabled apart =
    let account =
      clear-unlocked r (lock_of keys.account) (cleared_keys keys) l (links 0) now
        (ground (arith, ≈_refl (lock_of keys.account))) in
    let pair =
      clear-unlocked r (lock_of keys.pair) (cleared_keys keys) l (links 1) now
        (ground (arith, ≈_refl (lock_of keys.pair))) in
    let address = check_locks_kept r links 2 now (cleared_keys keys) l (ip_locks keys) apart in
    ground (arith, account, pair, address)

-- The character at a place, 0 past the end.
code_at : ℕ → String → ℕ
code_at n no_text = 0
code_at zero (cons_text c s) = code_point c
code_at (suc n) (cons_text c s) = code_at n s

-- The place is one of the text.
inside : ℕ → String → Bool
inside n no_text = false
inside zero (cons_text c s) = true
inside (suc n) (cons_text c s) = inside n s

code_at-append : (n : ℕ) (s t : String) → inside n s ≡ true → code_at n (append s t) ≡ code_at n s
unfolding inside code_at
code_at-append n no_text t h = ground (arith, h)
code_at-append zero (cons_text c s) t h = ap (code_at zero) (append_cons c s t)
code_at-append (suc n) (cons_text c s) t h =
    ap (code_at (suc n)) (append_cons c s t) ∙ code_at-append n s t h

inside-append : (n : ℕ) (s t : String) → inside n s ≡ true → inside n (append s t) ≡ true
unfolding inside
inside-append n no_text t h = ground (arith, h)
inside-append zero (cons_text c s) t h = ap (inside zero) (append_cons c s t)
inside-append (suc n) (cons_text c s) t h =
    ap (inside (suc n)) (append_cons c s t) ∙ inside-append n s t h

-- The lock of a key has the key's letters.
code_at-lock_of : (n : ℕ) (s : String) → inside n s ≡ true → code_at n (lock_of s) ≡ code_at n s
code_at-lock_of n s h = code_at-append n s ":lock" h

contains-apart :
    (n : ℕ) (k : String) (xs : List String)
    → All (λ x. (code_at n k == code_at n x) ≡ false) xs
    → contains k xs ≡ false
contains-apart n k [] h = refl
contains-apart n k (x ∷ xs) h =
    let other : (k ≈ x) ≡ false = ≈_ne k x (λ e. ground (arith, h.0, ap (code_at n) e)) in
    ground (arith, other, contains-apart n k xs h.1)

-- The letter after the prefix tells the keys of the address from the others.
-- The locks of keys that differ in a letter, and the keys themselves.
key_lock-apart :
    (n : ℕ) (s t : String)
    → inside n s ≡ true
    → inside n t ≡ true
    → (code_at n s == code_at n t) ≡ false
    → ((code_at n (lock_of s) == code_at n t) ≡ false)
      × ((code_at n (lock_of s) == code_at n (lock_of t)) ≡ false)
key_lock-apart n s t hs ht e = ground (arith, code_at-lock_of n s hs, code_at-lock_of n t ht)

-- Keys under two literal beginnings that differ in a letter.
begun-apart :
    (n : ℕ) (s t x y : String)
    → inside n s ≡ true
    → inside n t ≡ true
    → (code_at n s == code_at n t) ≡ false
    → ((code_at n (lock_of (append s x)) == code_at n (append t y)) ≡ false)
      × ((code_at n (lock_of (append s x)) == code_at n (lock_of (append t y))) ≡ false)
begun-apart n s t x y hs ht e =
    key_lock-apart n (append s x) (append t y) (inside-append n s x hs) (inside-append n t y ht)
      (ground (arith, code_at-append n s x hs, code_at-append n t y ht, e))

login_keys-apart :
    (h : Hashing) (email : String) (ip : Option String)
    → All
        (λ k. contains k (cleared_keys (login_keys h email ip)) ≡ false)
        (ip_locks (login_keys h email ip))
unfolding code_at inside
login_keys-apart h email ip = elim (Bool-cases (known_ip ip ≈ "")) [
  | inl unknown ↦ rw unknown tt
  | inr known ↦
      let keys = login_keys h email ip in
      let address = lock_of (ip_key h (known_ip ip)) in
      let ip_at = known_ip ip in
      let account =
        begun-apart 10 "ratelimit:ip:" "ratelimit:acct:" ip_at
          (short_digest h (h.strip_lower email)) refl refl refl in
      let pair =
        begun-apart 10 "ratelimit:ip:" "ratelimit:pair:" ip_at
          (short_digest h (append (known_ip ip) (append ":" (h.strip_lower email)))) refl refl
          refl in
      let strike =
        begun-apart 10 "ratelimit:ip:" "ratelimit:strikes:" ip_at
          (short_digest h (h.strip_lower email)) refl refl refl in
      rw known (
        contains-apart 10 address (cleared_keys keys)
            (account.0, (account.1, (strike.0, (pair.0, (pair.1, tt))))),
        tt,
      )
]

mfa_keys-apart :
    (h : Hashing) (decimal : ℕ → String) (user_id : ℕ) (ip : Option String)
    → All
        (λ k. contains k (cleared_keys (mfa_keys h decimal user_id ip)) ≡ false)
        (ip_locks (mfa_keys h decimal user_id ip))
unfolding code_at inside
mfa_keys-apart h decimal user_id ip = elim (Bool-cases (known_ip ip ≈ "")) [
  | inl unknown ↦ rw unknown tt
  | inr known ↦
      let keys = mfa_keys h decimal user_id ip in
      let address = lock_of (mfa_ip_key h decimal (known_ip ip)) in
      let ip_at = known_ip ip in
      let account =
        begun-apart 13 "mfaratelimit:ip:" "mfaratelimit:acct:" ip_at (decimal user_id) refl refl
          refl in
      let pair =
        begun-apart 13 "mfaratelimit:ip:" "mfaratelimit:pair:" ip_at
          (short_digest h (append (known_ip ip) (append ":" (decimal user_id)))) refl refl refl in
      let strike =
        begun-apart 13 "mfaratelimit:ip:" "mfaratelimit:strikes:" ip_at (decimal user_id) refl refl
          refl in
      rw known (
        contains-apart 13 address (cleared_keys keys)
            (account.0, (account.1, (strike.0, (pair.0, (pair.1, tt))))),
        tt,
      )
]

-- Where throttling is enabled, after a success that reaches Redis neither the account nor the pair
-- is locked, whatever becomes of the later calls: the check comes to that of the lock of the
-- address alone, on the keys as they were before the success, for a login as for a second factor.
pub success_leaves_ip :
    (r : Redis) (h : Hashing) (decimal : ℕ → String) (policy : Policy) (links : ℕ → Link) (now : ℕ)
    (email : String) (user_id : ℕ) (ip : Option String) (l : Limiter r)
    → policy.enabled ≡ true
    → (login_check_throttled r h policy links now email ip
          (login_record_success r h policy reached email ip l)
        ≡ check_locks r links 2 now (ip_locks (login_keys h email ip)) l)
      × (mfa_check_throttled r h decimal policy links now user_id ip
            (mfa_record_success r h decimal policy reached user_id ip l)
          ≡ check_locks r links 2 now (ip_locks (mfa_keys h decimal user_id ip)) l)
success_leaves_ip r h decimal policy links now email user_id ip l enabled = (
  apart_leaves_ip r policy links now (login_keys h email ip) l enabled
      (login_keys-apart h email ip),
  apart_leaves_ip r policy links now (mfa_keys h decimal user_id ip) l enabled
      (mfa_keys-apart h decimal user_id ip),
)
