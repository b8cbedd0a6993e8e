-- ===== src/Tests/Passwords.antt =====
-- Password logins, app/services/auth_service.py.
use omnibioai_auth.Prelude.{◌+◌, String, ◌≡◌, refl, none, some, [], ◌∷◌, ◌≈◌}
use omnibioai_auth.Models.{User, Db}
use omnibioai_auth.Auth.Authenticate.{Passwords, reject, accept, upgraded, authenticate_user}
use omnibioai_auth.Auth.Password.{
  logins, IsVerified, one_login_event, rejection_uniform, authenticate_user-IsVerified,
}
use omnibioai_auth.Tests.{db, alice, bob}
use omnibioai_auth.Tests.Throttling.{dict, hashing, policy, fallback_settings, flaky, two_failed}

-- Passwords are stored as they are, and an old form is renewed.
abbrev in_clear : Passwords
in_clear = record {
  verify_password = λ password hash. password ≈ hash;
  needs_rehash = λ hash. hash ≈ "secret";
  hash_password = λ password. "renewed";
}

abbrev with_password : User
with_password = record alice { hashed_password = some "secret" }

abbrev accounts : Db
accounts = record db { users = with_password ∷ bob ∷ [] }

one_login_event_example :
    logins
      (authenticate_user dict hashing policy fallback_settings in_clear flaky 10 "alice@lab" "guess"
        none
        (two_failed, accounts)).1.1
    ≡ logins accounts + 1
one_login_event_example =
    one_login_event dict hashing policy fallback_settings in_clear flaky 10 "alice@lab" "guess" none
      two_failed accounts

-- A wrong password for an account, and one where there is no such account.
rejection_uniform_example :
    (authenticate_user dict hashing policy fallback_settings in_clear flaky 10 "alice@lab" "guess"
      none
      (two_failed, accounts)).1.0
    ≡ (authenticate_user dict hashing policy fallback_settings in_clear flaky 10 "alice@lab" "other"
        none
        (two_failed, record db { users = [] })).1.0
unfolding authenticate_user reject ◌≈◌
rejection_uniform_example =
    rejection_uniform dict hashing policy fallback_settings in_clear in_clear flaky 10 "alice@lab"
      "guess" "other" none two_failed accounts (record db { users = [] }) refl refl

authenticate_user-IsVerified_example :
    (account : User) × (hash : String) × IsVerified dict hashing policy fallback_settings in_clear
      flaky 10 "alice@lab" "secret" none account hash accounts
    × (record alice { hashed_password = some "renewed" } ≡ upgraded in_clear "secret" hash account)
unfolding authenticate_user accept ◌≈◌
authenticate_user-IsVerified_example =
    authenticate_user-IsVerified dict hashing policy fallback_settings in_clear flaky 10 "alice@lab"
      "secret" none two_failed accounts (record alice { hashed_password = some "renewed" }) refl
