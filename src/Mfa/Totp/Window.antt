-- ===== src/Mfa/Totp/Window.antt =====
-- Which codes the window of app/services/mfa_service.py accepts.
use Prim.Native.Char.{Char}
use omnibioai_auth.Prelude.{
  ℕ, ◌+◌, ◌-◌, ◌/◌, ◌%◌, ◌≤◌, String, ◌≡◌, ◌⊎◌, refl, Bool, true, false, not, List, [], ◌∷◌, arith,
  ◌==◌, ◌≈◌, ≈_iff, is_none, if◌then◌else◌, inl, inr,
}
use omnibioai_auth.Mfa.Totp.{
  Hmac, code_number, period, is_digit, digit_char, six_digits, all_digits, is_code, totp_code_at,
  candidates, any_matches, verify_totp_code, first_match, totp_matched_step,
}

if-is_digit :
    (b : Bool) (x y : Char)
    → is_digit x ≡ true
    → is_digit y ≡ true
    → is_digit (if b then x else y) ≡ true
if-is_digit true x y hx hy = hx
if-is_digit false x y hx hy = hy

digit_char-is_digit : (d : ℕ) → is_digit (digit_char d) ≡ true
digit_char-is_digit d = if-is_digit (d == 0) "0" _ refl (
    if-is_digit (d == 1) "1" _ refl (
      if-is_digit (d == 2) "2" _ refl (
        if-is_digit (d == 3) "3" _ refl (
          if-is_digit (d == 4) "4" _ refl (
            if-is_digit (d == 5) "5" _ refl (
              if-is_digit (d == 6) "6" _ refl
                (if-is_digit (d == 7) "7" _ refl (if-is_digit (d == 8) "8" "9" refl refl))))))))

six_digits-is_code : (n : ℕ) → is_code (six_digits n) ≡ true
unfolding is_code six_digits all_digits
six_digits-is_code n = rw (digit_char-is_digit (n / 100000 % 10)) (
    rw (digit_char-is_digit (n / 10000 % 10)) (
      rw (digit_char-is_digit (n / 1000 % 10)) (
        rw (digit_char-is_digit (n / 100 % 10))
          (rw (digit_char-is_digit (n / 10 % 10)) (rw (digit_char-is_digit (n % 10)) refl)))))

module _ (mac : Hmac) (secret : String) where
  -- The two tests of a code agree: the one that gives the step finds one exactly if the other
  -- accepts the code.
  any_matches-first_match :
      (code : String) (ts : List ℕ)
      → any_matches mac secret code ts ≡ not (is_none (first_match mac secret code ts))
  unfolding any_matches first_match
  any_matches-first_match code [] = refl
  any_matches-first_match code (t ∷ ts) = ground (arith, any_matches-first_match code ts)

  pub verify_totp_code-totp_matched_step :
      (code : String) (now : ℕ)
      → verify_totp_code mac secret code now ≡ not (is_none (totp_matched_step mac secret code now))
  unfolding verify_totp_code totp_matched_step
  verify_totp_code-totp_matched_step code now =
      ground (arith, any_matches-first_match code (candidates mac secret now))

  totp_code_at-is_code : (t : ℕ) → is_code (totp_code_at mac secret t) ≡ true
  unfolding totp_code_at
  totp_code_at-is_code t = six_digits-is_code (code_number (mac secret (t / period)) % 1000000)

  -- The code depends on the period alone.
  totp_code_at-same_period :
      (t u : ℕ) → t / period ≡ u / period → totp_code_at mac secret t ≡ totp_code_at mac secret u
  unfolding totp_code_at
  totp_code_at-same_period t u e = rw e refl

  window_cases :
      (shown now : ℕ)
      → period ≤ now
      → shown / period ≤ now / period + 1
      → now / period ≤ shown / period + 1
      → ((now - period) / period ≡ shown / period)
        ⊎ ((now / period ≡ shown / period) ⊎ ((now + period) / period ≡ shown / period))
  window_cases shown now late ahead behind = omega arith

  -- A code that a device shows is accepted as long as the clocks of the device and the server are
  -- at most one period apart, from the second period of Unix time on.
  pub verify_totp_code-totp_code_at :
      (shown now : ℕ)
      → period ≤ now
      → shown / period ≤ now / period + 1
      → now / period ≤ shown / period + 1
      → verify_totp_code mac secret (totp_code_at mac secret shown) now ≡ true
  unfolding verify_totp_code any_matches
  verify_totp_code-totp_code_at shown now late ahead behind =
      let same : (t : ℕ)
          → t / period ≡ shown / period
          → (totp_code_at mac secret t ≈ totp_code_at mac secret shown) ≡ true =
        λ t e.
          (≈_iff (totp_code_at mac secret t) (totp_code_at mac secret shown)).1
            (totp_code_at-same_period t shown e) in
      rw (totp_code_at-is_code shown) (elim (window_cases shown now late ahead behind) [
        | inl e ↦ rw (same (now - period) e) refl
        | inr (inl e) ↦ ground (arith, same now e)
        | inr (inr e) ↦ ground (arith, same (now + period) e)
      ])
