-- ===== src/Password.antt =====
-- app/core/password_policy.py, app/core/common_passwords.py and app/core/compromised_password.py.
-- SHA-1 in hexadecimal digits and the answer of the breach API, as lines, are parameters; the
-- answer is missing when the request fails.
pub mod Accepted
use Prim.Native.Nat.{zero, suc}
use Prim.Native.Char.{Char, code as code_point}
use Prim.Native.String.{[] as no_text, ◌∷◌ as cons_text}
use omnibioai_auth.Prelude.{
  ℕ, ◌+◌, ◌-◌, ◌*◌, String, Bool, true, false, not, ◌&&◌, ◌||◌, Option, none, some, List, [], ◌∷◌,
  ltb, leb, ◌==◌, ◌≈◌, contains, stripped, upper, lower, if◌then◌else◌, Result, ok, err,
}
use omnibioai_auth.Session.{prefix}

unfoldable pub text_length : String → ℕ
text_length no_text = 0
text_length (cons_text c s) = suc (text_length s)

-- `s[n:]`
unfoldable pub text_from : ℕ → String → String
text_from zero s = s
text_from (suc n) no_text = no_text
text_from (suc n) (cons_text c s) = text_from n s

cons_part : Char → List String → List String
cons_part c [] = cons_text c no_text ∷ []
cons_part c (part ∷ parts) = cons_text c part ∷ parts

-- `s.split(":")`
unfoldable pub split_colon : String → List String
unfolding cons_part
split_colon no_text = "" ∷ []
split_colon (cons_text c s) =
    let rest = split_colon s in if code_point c == 58 then "" ∷ rest else cons_part c rest

is_count_digit : Char → Bool
is_count_digit c = leb 48 (code_point c) && leb (code_point c) 57

-- The digits of a number, with single underscores between them.
digits_value : Bool → ℕ → String → Option ℕ
unfolding is_count_digit
digits_value after_digit value no_text = if after_digit then some value else none
digits_value after_digit value (cons_text c s) =
    let rest =
      digits_value (is_count_digit c)
        (if is_count_digit c then value * 10 + (code_point c - 48) else value) s in
    if is_count_digit c || (after_digit && code_point c == 95) then rest else none

pub record Count : Type 0 where
  pub negative : Bool
  pub magnitude : ℕ

read_count : Bool → Option ℕ → Option Count
read_count negative none = none
read_count negative (some n) = some (record { negative = negative; magnitude = n })

signed : String → Option Count
unfolding read_count digits_value is_count_digit
signed no_text = none
signed (cons_text c s) =
    if code_point c == 45
    then read_count true (digits_value false 0 s)
    else if code_point c == 43
    then read_count false (digits_value false 0 s)
    else read_count false (digits_value false 0 (cons_text c s))

-- `int(count_str.strip())` in ASCII, missing where it raises ValueError.
unfoldable pub breach_number : String → Option Count
unfolding signed read_count digits_value is_count_digit
breach_number text = signed (stripped text)

abbrev pub is_zero : Option Count → Bool
is_zero none = false
is_zero (some count) = count.magnitude == 0

pub record CompromiseCheckResult : Type 0 where
  pub performed : Bool
  pub compromised : Bool
  pub breach_count : Option Count

abbrev pub sha1_prefix_suffix : (String → String) → String → String × String
sha1_prefix_suffix sha1 password =
    let digest = upper (sha1 password) in (prefix 5 digest, text_from 5 digest)

abbrev pub not_found : CompromiseCheckResult
not_found = record { performed = true; compromised = false; breach_count = none }

-- The two parts of a line, compared with the suffix; the other lines decide when it is no match
-- or a decoy.
abbrev pub scan_parts : String → List String → CompromiseCheckResult → CompromiseCheckResult
scan_parts suffix (line_suffix ∷ count_str ∷ []) rest =
    if upper (stripped line_suffix) ≈ suffix
    then (if is_zero (breach_number count_str) then rest else record {
      performed = true;
      compromised = true;
      breach_count = breach_number count_str;
    })
    else rest
scan_parts suffix [] rest = rest
scan_parts suffix (part ∷ []) rest = rest
scan_parts suffix (part ∷ part' ∷ part'' ∷ parts) rest = rest

unfoldable pub scan_lines : String → List String → CompromiseCheckResult
scan_lines suffix [] = not_found
scan_lines suffix (line ∷ lines) =
    scan_parts suffix (split_colon (stripped line)) (scan_lines suffix lines)

unfoldable pub check_compromised :
    (String → String) → (String → Option (List String)) → String → CompromiseCheckResult
check_compromised sha1 range_of password =
    let digest = sha1_prefix_suffix sha1 password in
    elim (range_of digest.0) [
      | none ↦ record { performed = false; compromised = false; breach_count = none }
      | some lines ↦ scan_lines digest.1 lines
    ]

pub data PasswordPolicyError : Type 0 where
  too_short too_long matches_email common_password check_unavailable compromised :
      PasswordPolicyError

-- PASSWORD_MIN_LENGTH, PASSWORD_MAX_LENGTH, PASSWORD_COMPROMISE_CHECK_ENABLED and
-- PASSWORD_COMPROMISE_CHECK_FAIL_CLOSED.
pub record PasswordSettings : Type 0 where
  pub min_length : ℕ
  pub max_length : ℕ
  pub check_enabled : Bool
  pub fail_closed : Bool

-- PASSWORD_REJECTED_TOTAL, as the list of its increments, and
-- PASSWORD_COMPROMISE_CHECK_ERRORS_TOTAL.
pub record PasswordMetrics : Type 0 where
  pub rejected : List PasswordPolicyError
  pub check_errors : ℕ

abbrev pub common_passwords : List String
common_passwords =
    "password" ∷ "password1" ∷ "password12" ∷ "password123" ∷ "password1234" ∷ "123456" ∷ "12345678"
    ∷ "123456789" ∷ "1234567890" ∷ "12345" ∷ "qwerty" ∷ "qwerty123" ∷ "qwertyuiop" ∷ "1q2w3e4r"
    ∷ "1q2w3e4r5t" ∷ "letmein" ∷ "letmein123" ∷ "welcome" ∷ "welcome1" ∷ "welcome123" ∷ "admin"
    ∷ "administrator" ∷ "admin123" ∷ "root" ∷ "toor" ∷ "iloveyou" ∷ "iloveyou1" ∷ "iloveyou123"
    ∷ "monkey" ∷ "monkey123" ∷ "dragon" ∷ "dragon123" ∷ "master" ∷ "master123" ∷ "superman"
    ∷ "trustno1" ∷ "sunshine" ∷ "sunshine1" ∷ "princess" ∷ "princess1" ∷ "football" ∷ "football1"
    ∷ "baseball" ∷ "baseball1" ∷ "basketball" ∷ "shadow" ∷ "shadow1" ∷ "michael" ∷ "michael1"
    ∷ "jennifer" ∷ "computer" ∷ "internet" ∷ "changeme" ∷ "changeme123" ∷ "default" ∷ "abc123"
    ∷ "abcd1234" ∷ "a1b2c3d4" ∷ "1234abcd" ∷ "qazwsx" ∷ "1qaz2wsx" ∷ "zxcvbnm" ∷ "asdfghjkl"
    ∷ "asdf1234" ∷ "starwars" ∷ "batman" ∷ "pokemon" ∷ "hunter2" ∷ "whatever" ∷ "whatever1"
    ∷ "letme1n" ∷ "passw0rd" ∷ "p@ssword" ∷ "p@ssw0rd" ∷ "pass1234" ∷ "test1234" ∷ "testtest"
    ∷ "temp1234" ∷ "temppass" ∷ "guest" ∷ "guest123" ∷ "user1234" ∷ "login123" ∷ "access123"
    ∷ "secret123" ∷ "freedom" ∷ "freedom1" ∷ "matrix" ∷ "matrix1" ∷ "ninja" ∷ "ninja123" ∷ "flower"
    ∷ "flower1" ∷ "loveme" ∷ "hello123" ∷ "hello1234" ∷ "welcome2023" ∷ "welcome2024" ∷ "spring2023"
    ∷ "spring2024" ∷ "summer2023" ∷ "summer2024" ∷ "autumn2023" ∷ "winter2023" ∷ "january2024"
    ∷ "chocolate" ∷ "cookie123" ∷ "banana123" ∷ "orange123" ∷ "purple123" ∷ "michelle" ∷ "jessica1"
    ∷ "jordan23" ∷ "george1" ∷ "charlie1" ∷ "1111111111" ∷ "0000000000" ∷ "9999999999"
    ∷ "aaaaaaaaaa" ∷ "zzzzzzzzzz" ∷ "qqqqqqqqqq" ∷ "121212121212" ∷ "123123123123" ∷ "654321654321"
    ∷ "111111000000" ∷ []

abbrev pub reject_password :
    PasswordPolicyError → PasswordMetrics → Result PasswordPolicyError (Unit {0}) × PasswordMetrics
reject_password reason metrics = (
  err reason,
  record { rejected = reason ∷ metrics.rejected; check_errors = metrics.check_errors },
)

-- `email and password.strip().lower() == email.strip().lower()`
abbrev pub is_email : String → Option String → Bool
is_email password none = false
is_email password (some email) =
    not (email ≈ "") && (lower (stripped password) ≈ lower (stripped email))

abbrev pub judge_check :
    PasswordSettings
    → CompromiseCheckResult
    → PasswordMetrics
    → Result PasswordPolicyError (Unit {0}) × PasswordMetrics
judge_check settings result metrics =
    if not result.performed
    then (let missed : PasswordMetrics = record {
      rejected = metrics.rejected;
      check_errors = suc metrics.check_errors;
    } in
        if settings.fail_closed then reject_password check_unavailable missed else (ok tt, missed))
    else if result.compromised
    then reject_password compromised metrics
    else (ok tt, metrics)

unfoldable pub validate_new_password :
    (String → String)
    → (String → Option (List String))
    → PasswordSettings
    → String
    → Option String
    → PasswordMetrics
    → Result PasswordPolicyError (Unit {0}) × PasswordMetrics
validate_new_password sha1 range_of settings password email metrics =
    if ltb (text_length password) settings.min_length
    then reject_password too_short metrics
    else if ltb settings.max_length (text_length password)
    then reject_password too_long metrics
    else if is_email password email
    then reject_password matches_email metrics
    else if contains (lower password) common_passwords
    then reject_password common_password metrics
    else if settings.check_enabled
    then judge_check settings (check_compromised sha1 range_of password) metrics
    else (ok tt, metrics)
