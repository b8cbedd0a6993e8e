-- ===== src/Tests/Factors.antt =====
-- Runs of the second factors of app/services/mfa_service.py and email_mfa_service.py.
use omnibioai_auth.Prelude.{
  ℕ, String, ◌≡◌, ◌≤◌, refl, true, false, none, some, List, [], ◌∷◌, arith, ◌≈◌, ok,
}
use omnibioai_auth.Models.{Time, seconds, MfaDevice, Db, mfa_recovery_codes_generated}
use omnibioai_auth.Mfa.Totp.{is_code, Hmac, totp_code_at, verify_totp_code}
use omnibioai_auth.Mfa.Totp.Window.{verify_totp_code-totp_code_at}
use omnibioai_auth.Mfa.Devices.{MfaCrypto}
use omnibioai_auth.Mfa.Devices.Enabled.{IsBacked, DeviceCall, device_calls, device_calls-IsBacked}
use omnibioai_auth.Mfa.RecoveryCodes.{issue_recovery_codes}
use omnibioai_auth.Mfa.RecoveryCodes.Once.{
  redemptions, occurrences, issue_recovery_codes-redemptions,
}
use omnibioai_auth.Mfa.Token.{ChallengePayload}
use omnibioai_auth.Mfa.Email.{
  EmailSettings, EmailCrypto, email_digest, challenge_identity, is_enabled_for, send_code,
  resend_wait, hourly_wait, issue_code, sent, verify_code,
}
use omnibioai_auth.Mfa.Email.Guesses.{is_accepted, after_answers}
use omnibioai_auth.Mfa.Email.Budget.{issue_code-exhausted}
use omnibioai_auth.Mfa.Steps.{
  Search, match_devices, is_unambiguous, acceptances, fresh, acceptances-fresh,
}
use omnibioai_auth.Tests.{db, bob}

-- The digest of RFC 4226 for the counter 0.
abbrev pub rfc_mac : Hmac
rfc_mac secret counter =
    204 ∷ 147 ∷ 207 ∷ 24 ∷ 80 ∷ 141 ∷ 148 ∷ 147 ∷ 76 ∷ 100 ∷ 182 ∷ 93 ∷ 139 ∷ 167 ∷ 102 ∷ 127 ∷ 183
    ∷ 205 ∷ 228 ∷ 176 ∷ []

rfc_code : totp_code_at rfc_mac "secret" 59 ≡ "755224"
unfolding totp_code_at
rfc_code = refl

verify_totp_code-totp_code_at_example :
    verify_totp_code rfc_mac "secret" (totp_code_at rfc_mac "secret" 65) 95 ≡ true
verify_totp_code-totp_code_at_example =
    verify_totp_code-totp_code_at rfc_mac "secret" 65 95 (omega arith) (omega arith) (omega arith)

abbrev pub plain_mfa : MfaCrypto
plain_mfa = record { encrypt = λ s. s; decrypt = λ s. some s; mac = rfc_mac }

-- Bob enrols a device, confirms it, and removes it.
abbrev enrolment : List DeviceCall
enrolment =
    DeviceCall.start plain_mfa (seconds 40) 7 "secret" 2
    ∷ DeviceCall.verify plain_mfa (seconds 65) 2 7 "755224"
    ∷ DeviceCall.remove (seconds 90) 2 7
    ∷ []

device_calls-IsBacked_example : IsBacked 2 (device_calls enrolment db)
unfolding IsBacked
device_calls-IsBacked_example = device_calls-IsBacked 2 enrolment db (λ u found on. ground arith)

abbrev batch : List String
batch = "AAAA-BBBB" ∷ "CCCC-DDDD" ∷ []

abbrev tries : List (Time × String)
tries = (10, " aaaa-bbbb") ∷ (11, "AAAA-BBBB") ∷ (12, "x") ∷ []

issue_recovery_codes-redemptions_example :
    redemptions
      (λ s. s)
      2
      "AAAA-BBBB"
      tries
      (issue_recovery_codes (λ s. s) 5 1 batch mfa_recovery_codes_generated 2 db).1
    ≤ occurrences (λ s. s) 2 "AAAA-BBBB" batch
issue_recovery_codes-redemptions_example =
    issue_recovery_codes-redemptions (λ s. s) 2 5 1 batch mfa_recovery_codes_generated db
      "AAAA-BBBB" tries

abbrev pub mail : EmailSettings
mail = record {
  enabled = true;
  pepper = "pepper";
  resend_cooldown_seconds = 60;
  max_sends_per_hour = 5;
  ttl_seconds = 300;
  max_attempts = 3;
}

abbrev pub challenge_of : ℕ → String → ChallengePayload
challenge_of user_id jti = record {
  token_type = "mfa_challenge";
  jti = some jti;
  user_id = some user_id;
  auth_method = some "password";
  idp_org_id = none;
  saml_name_id = none;
  saml_session_index = none;
  organization_saml_config_id = none;
  required_stage = none;
  exp = seconds 10000;
}

-- Every token is a challenge of Bob's, with itself for its `jti`.
abbrev pub plain_mail : EmailCrypto
plain_mail = record {
  keyed_digest = λ pepper message. message;
  decimal = λ n. "n";
  decode_token = λ token. some (challenge_of 2 token);
}

abbrev pub mailed : Db
mailed = sent mail plain_mail (seconds 9000) 1 "123456" true bob "jti" false db

abbrev guesses : List (Time × String)
guesses = (seconds 9001, "000000") ∷ (seconds 9002, "000001") ∷ (seconds 9003, "000002") ∷ []

mail_issued :
    issue_code mail plain_mail (seconds 9000) 1 "123456" true bob "jti" false db ≡ ok (60, mailed)
unfolding issue_code is_enabled_for challenge_identity resend_wait hourly_wait send_code
    email_digest ◌≈◌
mail_issued = refl

identity : challenge_identity plain_mail "jti" ≡ ok (2, "jti")
unfolding challenge_identity ◌≈◌
identity = refl

-- After three guesses the code itself is refused; without them it passes.
issue_code-exhausted_example :
    is_accepted mail plain_mail 2 "jti"
      (seconds 9004)
      "123456"
      (after_answers mail plain_mail 2 "jti" guesses mailed)
    ≡ false
unfolding is_code
issue_code-exhausted_example =
    issue_code-exhausted mail plain_mail (seconds 9000) 1 "123456" true bob "jti" "jti" false db 60
      mailed guesses (seconds 9004) "123456" (λ id. omega arith) refl identity mail_issued
      ((refl, omega arith), ((refl, omega arith), ((refl, omega arith), tt))) (omega arith)

passes_at_once : is_accepted mail plain_mail 2 "jti" (seconds 9004) "123456" mailed ≡ true
unfolding is_accepted verify_code email_digest is_code sent ◌≈◌
passes_at_once = refl

abbrev device : MfaDevice
device = record {
  id = 7;
  user_id = 2;
  device_type = "totp";
  encrypted_secret = "secret";
  created_at = 0;
  verified_at = some 1;
  last_used_at = none;
  disabled_at = none;
}

-- A digest that shows the counter.
abbrev counting : MfaCrypto
counting = record {
  encrypt = λ s. s;
  decrypt = λ s. some s;
  mac = λ secret counter. 0 ∷ 0 ∷ 0 ∷ counter ∷ 0 ∷ [];
}

-- The code of the step 2, at two times.
abbrev replay : List Search
replay =
    (record { now = seconds 65; code = "000002"; devices = device ∷ [] })
    ∷ (record { now = seconds 70; code = "000002"; devices = device ∷ [] })
    ∷ []

found_once : acceptances counting 7 "secret" "000002" 2 replay db ≡ 1
unfolding acceptances match_devices totp_code_at ◌≈◌
found_once = refl

acceptances-fresh_example :
    acceptances counting 7 "secret" "000002" 2 replay db ≤ fresh counting 7 "secret" "000002" 2 db
unfolding is_unambiguous totp_code_at ◌≈◌
acceptances-fresh_example =
    acceptances-fresh counting 7 "secret" "000002" 2 replay db (refl, (refl, tt))
