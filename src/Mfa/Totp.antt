-- ===== src/Mfa/Totp.antt =====
-- The time-based codes of app/services/mfa_service.py (RFC 6238). HMAC-SHA1 over the decoded secret
-- and the packed counter is a parameter, which gives the bytes of the digest. Time is Unix time, in
-- seconds, from the first period on.
pub mod Window
use Prim.Native.Char.{Char, code as code_point}
use Prim.Native.String.{[] as no_text, ◌∷◌ as cons_text}
use omnibioai_auth.Prelude.{
  ℕ, zero, suc, ◌+◌, ◌-◌, ◌*◌, ◌/◌, ◌%◌, ◌^◌, String, Bool, true, false, not, ◌&&◌, ◌||◌, Option,
  none, some, List, [], ◌∷◌, leb, ◌==◌, ◌≈◌, if◌then◌else◌,
}

abbrev pub digits : ℕ
digits = 6

abbrev pub period : ℕ
period = 30

-- The secret and the counter give the digest.
abbrev pub Hmac : Type 0
Hmac = String → ℕ → List ℕ

abbrev pub byte_at : ℕ → List ℕ → ℕ
byte_at i [] = 0
byte_at zero (b ∷ bs) = b
byte_at (suc i) (b ∷ bs) = byte_at i bs

abbrev pub last_byte : List ℕ → ℕ
last_byte [] = 0
last_byte (b ∷ []) = b
last_byte (b ∷ c ∷ bs) = last_byte (c ∷ bs)

-- Four bytes from the offset, most significant first, without the sign bit.
pub code_number : List ℕ → ℕ
code_number digest =
    let offset = last_byte digest % 16 in
    (((byte_at offset digest * 256 + byte_at (offset + 1) digest) * 256
          + byte_at (offset + 2) digest)
        * 256
      + byte_at (offset + 3) digest)
    % 2147483648

abbrev pub digit_char : ℕ → Char
digit_char d =
    if d == 0
    then "0"
    else if d == 1
    then "1"
    else if d == 2
    then "2"
    else if d == 3
    then "3"
    else if d == 4
    then "4"
    else if d == 5
    then "5"
    else if d == 6
    then "6"
    else if d == 7
    then "7"
    else if d == 8
    then "8"
    else "9"

-- `str(n).zfill(6)` of a number with at most six digits.
pub six_digits : ℕ → String
six_digits n = cons_text (digit_char (n / 100000 % 10)) (
    cons_text (digit_char (n / 10000 % 10)) (
      cons_text (digit_char (n / 1000 % 10)) (
        cons_text (digit_char (n / 100 % 10))
          (cons_text (digit_char (n / 10 % 10)) (cons_text (digit_char (n % 10)) no_text)))))

abbrev pub is_digit : Char → Bool
is_digit c = leb b'0' (code_point c) && leb (code_point c) b'9'

-- `code.isdigit()` with the given length. Digits that are not ASCII are no digits here: the code
-- lets them pass, and the comparison then raises on them.
pub all_digits : ℕ → String → Bool
all_digits zero no_text = true
all_digits zero (cons_text c s) = false
all_digits (suc n) no_text = false
all_digits (suc n) (cons_text c s) = is_digit c && all_digits n s

unfoldable pub is_code : String → Bool
unfolding all_digits
is_code = all_digits digits

module _ (mac : Hmac) (secret : String) where
  unfoldable pub totp_code_at : ℕ → String
  unfolding code_number six_digits
  totp_code_at for_time = six_digits (code_number (mac secret (for_time / period)) % 1000000)

  -- The window of one step either way, in the order of the loop.
  abbrev pub candidates : ℕ → List ℕ
  candidates for_time = (for_time - period) ∷ for_time ∷ (for_time + period) ∷ []

  pub any_matches : String → List ℕ → Bool
  any_matches code [] = false
  any_matches code (t ∷ ts) = totp_code_at t ≈ code || any_matches code ts

  unfoldable pub verify_totp_code : String → ℕ → Bool
  unfolding any_matches is_code
  verify_totp_code code for_time =
      if is_code code then any_matches code (candidates for_time) else false

  unfoldable pub first_match : String → List ℕ → Option ℕ
  first_match code [] = none
  first_match code (t ∷ ts) =
      let rest = first_match code ts in if totp_code_at t ≈ code then some (t / period) else rest

  unfoldable pub totp_matched_step : String → ℕ → Option ℕ
  unfolding first_match is_code
  totp_matched_step code for_time =
      if is_code code then first_match code (candidates for_time) else none
