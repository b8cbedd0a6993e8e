-- ===== src/Tests/Challenges.antt =====
-- Runs of challenges at a login.
use omnibioai_auth.Prelude.{
  String, List, count, ◌≡◌, ◌≤◌, refl, true, not, ◌&&◌, Option, none, [], ◌∷◌, ◌≈◌, if◌then◌else◌,
}
use omnibioai_auth.Models.{seconds}
use omnibioai_auth.RateLimit.Commands.{Entry}
use omnibioai_auth.RateLimit.{reached, Limiter}
use omnibioai_auth.Auth.Issue.{generate_tokens}
use omnibioai_auth.Mfa.Challenge.{Service}
use omnibioai_auth.Mfa.Challenge.Once.{Answer, completions, completions_le}
use omnibioai_auth.Mfa.Decision.{
  org_requires_mfa, email_mfa_required, is_signed_in, generate_tokens_or_mfa_challenge,
  generate_tokens_or_mfa_challenge_lem,
}
use omnibioai_auth.Mfa.Enrollment.{EnrollmentSession, consumptions, is_open, consumptions_le}
use omnibioai_auth.Tests.{short_sessions, plain, request, password_login, bob, db}
use omnibioai_auth.Tests.Throttling.{dict, hashing, policy, fallback_settings}
use omnibioai_auth.Tests.Factors.{plain_mfa, plain_mail, mail, mailed}

abbrev service : Service
service = record {
  settings = short_sessions;
  crypto = plain;
  call = request (seconds 9001) "uuid" "refresh";
  mfa = plain_mfa;
  code_hash = λ s. s;
  email = mail;
  email_crypto = plain_mail;
  sign = λ payload. "next";
  next_jti = "next";
  hashing = hashing;
  throttle = policy;
  fallback = fallback_settings;
  check_links = λ n. reached;
  record_links = λ n. reached;
}

abbrev no_entry : String → Option Entry
no_entry key = none

abbrev unlocked : Limiter dict
unlocked = record { store = no_entry; fallback = record { counters = []; locks = [] } }

abbrev answer : String → Answer
answer code = record { env = service; ip = none; method = none; code = code; token = "jti" }

-- A wrong code, and the mailed one twice.
abbrev answers : List Answer
answers = answer "000000" ∷ answer "123456" ∷ answer "123456" ∷ []

completions_le_example : completions dict "jti" answers (unlocked, mailed) ≤ 1
unfolding ◌≈◌
completions_le_example = completions_le dict "jti" refl answers unlocked mailed

generate_tokens_or_mfa_challenge_lem_example :
    (is_signed_in service 1 "123456" true bob password_login
        (generate_tokens_or_mfa_challenge service 1 "123456" true bob password_login db).0
      ≡ (not bob.mfa_enabled
          && (not (email_mfa_required service 1 "123456" true bob password_login)
              && not (org_requires_mfa bob db))))
    × (((generate_tokens_or_mfa_challenge service 1 "123456" true bob password_login db).1.sessions
          ≡ (if is_signed_in service 1 "123456" true bob password_login
                (generate_tokens_or_mfa_challenge service 1 "123456" true bob password_login db).0
              then (generate_tokens service.settings service.crypto service.call bob password_login
                  db).1.sessions
              else db.sessions))
        × ((generate_tokens_or_mfa_challenge service 1 "123456" true bob password_login
              db).1.refresh_tokens
            ≡ (if is_signed_in service 1 "123456" true bob password_login
                  (generate_tokens_or_mfa_challenge service 1 "123456" true bob password_login db).0
                then (generate_tokens service.settings service.crypto service.call bob
                    password_login db).1.refresh_tokens
                else db.refresh_tokens)))
generate_tokens_or_mfa_challenge_lem_example =
    generate_tokens_or_mfa_challenge_lem service 1 "123456" true bob password_login db

abbrev enrolling : List EnrollmentSession
enrolling =
    (record {
      id = 4;
      user_id = 2;
      token_jti = "enrol";
      created_at = 0;
      expires_at = seconds 600;
      consumed_at = none;
    })
    ∷ []

-- The session is consumed twice, and after that once more past its expiry.
consumptions_le_example :
    consumptions 4 ((seconds 10, 4) ∷ (seconds 20, 4) ∷ (seconds 700, 4) ∷ []) enrolling
    ≤ count (is_open 4) enrolling
consumptions_le_example =
    consumptions_le 4 ((seconds 10, 4) ∷ (seconds 20, 4) ∷ (seconds 700, 4) ∷ []) enrolling
