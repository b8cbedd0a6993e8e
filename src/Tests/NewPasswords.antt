-- ===== src/Tests/NewPasswords.antt =====
-- Runs of the policy on new passwords.
use omnibioai_auth.Prelude.{
  is_ascii, String, ◌≡◌, refl, true, Option, none, some, List, [], ◌∷◌, ◌≈◌, stripped, upper, lower,
  err,
}
use omnibioai_auth.Session.{prefix}
use omnibioai_auth.Password.{
  text_length, text_from, split_colon, breach_number, scan_lines, check_compromised,
  PasswordSettings, PasswordMetrics, compromised, matches_email, validate_new_password,
}
use omnibioai_auth.Password.Accepted.{is_ok, validate_new_password_lem}

abbrev settings : PasswordSettings
settings = record { min_length = 12; max_length = 20; check_enabled = true; fail_closed = true }

abbrev fresh : PasswordMetrics
fresh = record { rejected = []; check_errors = 0 }

-- A decoy for one password, and a breach of another.
abbrev listed : String → Option (List String)
listed digest = some ("horseee: 0" ∷ "no entry" ∷ " 6Staple:+1_2 " ∷ [])

validate_new_password_lem_example :
    is_ok (validate_new_password (λ s. s) listed settings "abcdehorseee" (some "a@b") fresh).0
    ≡ true
unfolding text_length text_from split_colon breach_number stripped upper lower prefix is_ascii ◌≈◌
validate_new_password_lem_example =
    validate_new_password_lem (λ s. s) listed settings "abcdehorseee" (some "a@b") fresh refl refl
      refl refl

breached :
    validate_new_password (λ s. s) listed settings "123456staple" none fresh
    ≡ (err compromised, record { rejected = compromised ∷ []; check_errors = 0 })
unfolding validate_new_password check_compromised scan_lines text_length text_from split_colon
    breach_number stripped upper lower prefix ◌≈◌
breached = refl

-- A control character in front of the address does not make it another text.
same_as_email :
    validate_new_password (λ s. s) listed settings "\u{1c}alice@mylabs" (some "ALICE@mylabs") fresh
    ≡ (err matches_email, record { rejected = matches_email ∷ []; check_errors = 0 })
unfolding validate_new_password text_length stripped lower ◌≈◌
same_as_email = refl
