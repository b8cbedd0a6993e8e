-- ===== src/Password/Accepted.antt =====
-- Which passwords app/core/password_policy.py accepts.
use omnibioai_auth.Prelude.{
  is_ascii, ℕ, String, ◌≡◌, refl, inl, inr, Bool, true, false, not, ◌&&◌, ◌||◌, Option, none, some,
  List, [], ◌∷◌, arith, leb, ltb, ◌≈◌, contains, stripped, upper, lower, Option-cases, Result, ok,
  err, if◌then◌else◌,
}
use omnibioai_auth.Password.{
  text_length, split_colon, breach_number, is_zero, sha1_prefix_suffix, scan_parts, scan_lines,
  check_compromised, PasswordSettings, PasswordMetrics, PasswordPolicyError, common_passwords,
  is_email, judge_check, reject_password, validate_new_password, too_short, too_long, matches_email,
  common_password,
}

-- A line of the answer that lists the suffix as breached, with a number that is not zero.
abbrev names_breach : String → List String → Bool
names_breach suffix (line_suffix ∷ count_str ∷ []) =
    upper (stripped line_suffix) ≈ suffix && not (is_zero (breach_number count_str))
names_breach suffix [] = false
names_breach suffix (part ∷ []) = false
names_breach suffix (part ∷ part' ∷ part'' ∷ parts) = false

abbrev pub is_breached : String → List String → Bool
is_breached suffix [] = false
is_breached suffix (line ∷ lines) =
    names_breach suffix (split_colon (stripped line)) || is_breached suffix lines

-- What the service accepts of the answer of the breach API.
abbrev pub answer_passes : PasswordSettings → String → Option (List String) → Bool
answer_passes settings suffix none = not settings.fail_closed
answer_passes settings suffix (some lines) = not (is_breached suffix lines)

abbrev pub is_ok : Result PasswordPolicyError (Unit {0}) → Bool
is_ok (ok x) = true
is_ok (err e) = false

scan_parts_performed :
    (suffix : String) (parts lines : List String)
    → (scan_parts suffix parts (scan_lines suffix lines)).performed
      ≡ ((scan_lines suffix lines).performed || names_breach suffix parts)
scan_parts_performed suffix [] lines = ground arith
scan_parts_performed suffix (a ∷ []) lines = ground arith
scan_parts_performed suffix (a ∷ b ∷ []) lines = ground arith
scan_parts_performed suffix (a ∷ b ∷ c ∷ parts) lines = ground arith

scan_parts_compromised :
    (suffix : String) (parts lines : List String)
    → (scan_parts suffix parts (scan_lines suffix lines)).compromised
      ≡ (names_breach suffix parts || (scan_lines suffix lines).compromised)
scan_parts_compromised suffix [] lines = ground arith
scan_parts_compromised suffix (a ∷ []) lines = ground arith
scan_parts_compromised suffix (a ∷ b ∷ []) lines = ground arith
scan_parts_compromised suffix (a ∷ b ∷ c ∷ parts) lines = ground arith

scan_lines-performed :
    (suffix : String) (lines : List String) → (scan_lines suffix lines).performed ≡ true
unfolding scan_lines
scan_lines-performed suffix [] = refl
scan_lines-performed suffix (line ∷ lines) = ground (
  arith,
  scan_parts_performed suffix (split_colon (stripped line)) lines,
  scan_lines-performed suffix lines,
)

scan_lines-compromised :
    (suffix : String) (lines : List String)
    → (scan_lines suffix lines).compromised ≡ is_breached suffix lines
unfolding scan_lines
scan_lines-compromised suffix [] = refl
scan_lines-compromised suffix (line ∷ lines) = ground (
  arith,
  scan_parts_compromised suffix (split_colon (stripped line)) lines,
  scan_lines-compromised suffix lines,
)

judge_check-passes :
    (sha1 : String → String) (range_of : String → Option (List String))
    (settings : PasswordSettings) (password : String) (metrics : PasswordMetrics)
    → is_ok (judge_check settings (check_compromised sha1 range_of password) metrics).0
      ≡ answer_passes settings
          (sha1_prefix_suffix sha1 password).1
          (range_of (sha1_prefix_suffix sha1 password).0)
unfolding check_compromised
judge_check-passes sha1 range_of settings password metrics =
    let digest = sha1_prefix_suffix sha1 password in
    elim (Option-cases (range_of digest.0)) [
      | inl missing ↦ ground (arith, missing)
      | inr (lines, answered) ↦ ground (
        arith,
        answered,
        scan_lines-performed digest.1 lines,
        scan_lines-compromised digest.1 lines,
      )
    ]

-- The order of the tests, with the outcome of each as a variable.
tests_in_order :
    (settings : PasswordSettings) (n : ℕ) (mail common passes : Bool)
    (judged : Result PasswordPolicyError (Unit {0}) × PasswordMetrics) (metrics : PasswordMetrics)
    → is_ok judged.0 ≡ passes
    → is_ok
        (if ltb n settings.min_length
          then reject_password too_short metrics
          else if ltb settings.max_length n
          then reject_password too_long metrics
          else if mail
          then reject_password matches_email metrics
          else if common
          then reject_password common_password metrics
          else if settings.check_enabled
          then judged
          else (ok tt, metrics)).0
      ≡ (leb settings.min_length n
          && (leb n settings.max_length
              && (not mail && (not common && (not settings.check_enabled || passes)))))
tests_in_order settings n mail common passes judged metrics e = ground (arith, e)

-- Texts on which the model of `lower`, `upper` and `int` is exact: ASCII, and short enough for
-- `int` to read every number in them.
abbrev pub is_plain : String → Bool
is_plain s = is_ascii s && leb (text_length s) 4300

abbrev pub all_plain : List String → Bool
all_plain [] = true
all_plain (s ∷ ss) = is_plain s && all_plain ss

abbrev pub plain_email : Option String → Bool
plain_email none = true
plain_email (some email) = is_ascii email

abbrev pub plain_answer : Option (List String) → Bool
plain_answer none = true
plain_answer (some lines) = all_plain lines

-- For ASCII texts, and lines of an answer of at most 4,300 characters: a new password is accepted
-- exactly when its length is within the bounds of the settings, it is
-- neither the address of the account nor a common password, and, with the breach check enabled, no
-- line of the answer, wherever it stands, lists its suffix with a number that is not zero, or no
-- answer came and the settings do not fail closed.
pub validate_new_password_lem :
    (sha1 : String → String) (range_of : String → Option (List String))
    (settings : PasswordSettings) (password : String) (email : Option String)
    (metrics : PasswordMetrics)
    → is_ascii password ≡ true
    → plain_email email ≡ true
    → is_ascii (sha1 password) ≡ true
    → plain_answer (range_of (sha1_prefix_suffix sha1 password).0) ≡ true
    → is_ok (validate_new_password sha1 range_of settings password email metrics).0 ≡ (
        leb settings.min_length (text_length password)
        && (leb (text_length password) settings.max_length
            && (not (is_email password email)
                && (not (contains (lower password) common_passwords)
                    && (not settings.check_enabled
                        || answer_passes settings
                            (sha1_prefix_suffix sha1 password).1
                            (range_of (sha1_prefix_suffix sha1 password).0))))))
unfolding validate_new_password
validate_new_password_lem sha1 range_of settings password email metrics ascii ascii_email
      ascii_digest ascii_lines =
    let digest = sha1_prefix_suffix sha1 password in
    tests_in_order settings (text_length password) (is_email password email)
      (contains (lower password) common_passwords)
      (answer_passes settings digest.1 (range_of digest.0))
      (judge_check settings (check_compromised sha1 range_of password) metrics) metrics
      (judge_check-passes sha1 range_of settings password metrics)
