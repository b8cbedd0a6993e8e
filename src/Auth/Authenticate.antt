-- ===== src/Auth/Authenticate.antt =====
-- `authenticate_user` of app/services/auth_service.py: the check of a password, with the throttle
-- and the audit trail. The functions of app/core/security.py on passwords are parameters. The
-- verification against `DUMMY_PASSWORD_HASH`, whose result is dropped, takes time and does nothing
-- else.
use omnibioai_auth.Prelude.{
  ℕ, String, Bool, not, Option, none, some, [], ◌∷◌, ◌==◌, ◌≈◌, first, update_first, if◌then◌else◌,
}
use omnibioai_auth.Models.{User, Value, AuditEvent, login_success, login_failure, Db, log_event}
use omnibioai_auth.RateLimit.Commands.{Redis}
use omnibioai_auth.RateLimit.InProcess.{FallbackSettings}
use omnibioai_auth.RateLimit.{Link, Limiter}
use omnibioai_auth.Throttle.{Policy}
use omnibioai_auth.Throttle.Login.{Hashing, login_record_failure, login_record_success}

pub record Passwords : Type 0 where
  pub verify_password : String → String → Bool
  pub needs_rehash : String → Bool
  pub hash_password : String → String

abbrev id_value : Option User → Value
id_value none = Value.null
id_value (some u) = Value.number u.id

abbrev id_of_user : Option User → Option ℕ
id_of_user none = none
id_of_user (some u) = some u.id

abbrev pub login_event : String → Option User → Option String → AuditEvent
login_event email user reason = record {
  event_type = elim reason [ none ↦ login_success | some _ ↦ login_failure ];
  actor_user_id = id_of_user user;
  target_user_id = id_of_user user;
  organization_id = none;
  resource_type = some "user";
  resource_id = id_value user;
  metadata =
      ("email", Value.text email)
      ∷ elim reason [ none ↦ [] | some why ↦ ("reason", Value.text why) ∷ [] ];
}

unfoldable pub log_login_failure : String → Option User → String → Db → Db
unfolding log_event
log_login_failure email user reason = log_event (login_event email user (some reason))

-- `not user.hashed_password`: NULL and the empty text are no password.
abbrev pub password_of : User → Option String
password_of u = elim u.hashed_password [ none ↦ none | some h ↦ if h ≈ "" then none else some h ]

-- The password that a successful login stores.
abbrev pub upgraded : Passwords → String → String → User → User
upgraded pw password hash user =
    if pw.needs_rehash hash
    then record user { hashed_password = some (pw.hash_password password) }
    else user

module _ (r : Redis) (h : Hashing) (policy : Policy) (cfg : FallbackSettings) (pw : Passwords)
    (links : ℕ → Link) (now : ℕ) (email password : String) (client_ip : Option String) where
  unfoldable pub reject : Option User → String → Limiter r × Db → Option User × (Limiter r × Db)
  unfolding log_login_failure
  reject user reason (l, db) = (
    none,
    login_record_failure r h policy cfg links now email client_ip
        (l, log_login_failure email user reason db),
  )

  unfoldable pub accept : User → String → Limiter r × Db → Option User × (Limiter r × Db)
  unfolding log_event
  accept user hash (l, db) =
      let user' = upgraded pw password hash user in
      (
        some user',
        (
          login_record_success r h policy (links 0) email client_ip l,
          log_event (login_event email (some user) none) (record db {
            users = update_first (λ u. u.id == user.id) (upgraded pw password hash) db.users;
          }),
        ),
      )

  unfoldable pub authenticate_user : Limiter r × Db → Option User × (Limiter r × Db)
  unfolding reject accept
  authenticate_user (l, db) = elim (first (λ u. u.email ≈ email) db.users) [
    | none ↦ reject none "unknown_user_or_inactive" (l, db)
    | some user ↦
        if not (user.status ≈ "active")
        then reject (some user) "unknown_user_or_inactive" (l, db)
        else elim (password_of user) [
          | none ↦ reject (some user) "no_password_set" (l, db)
          | some hash ↦
              if pw.verify_password password hash
              then accept user hash (l, db)
              else reject (some user) "invalid_password" (l, db)
        ]
  ]
