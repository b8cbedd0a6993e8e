-- ===== src/Auth/Password.antt =====
-- What a password login checks, counts and records.
use omnibioai_auth.Prelude.{
  ℕ, ◌+◌, String, ◌≡◌, ◌∙◌, sym, ◌⊎◌, refl, Bool, true, false, Option, none, some, [], ◌∷◌, arith,
  ◌==◌, ◌≈◌, first, count, count-append, update_first, if◌then◌else◌, Option-cases, Bool-cases, inl,
  inr,
}
use omnibioai_auth.Models.{User, AuditEvent, login_success, login_failure, Db, log_event}
use omnibioai_auth.RateLimit.Commands.{Redis}
use omnibioai_auth.RateLimit.InProcess.{FallbackSettings}
use omnibioai_auth.RateLimit.{Link, Limit, Limiter}
use omnibioai_auth.Throttle.{
  Policy, Keys, record_account, record_dimension, record_ip, record_failure,
}
use omnibioai_auth.Throttle.Login.{Hashing, login_audit, login_keys, login_record_failure}
use omnibioai_auth.Auth.Authenticate.{
  Passwords, password_of, log_login_failure, login_event, upgraded, reject, accept,
  authenticate_user,
}

abbrev pub is_login : AuditEvent → Bool
is_login e = elim e.event_type [ login_success ↦ true | login_failure ↦ true | _ ↦ false ]

abbrev pub logins : Db → ℕ
logins db = count is_login db.audit_events

logins-log_event :
    (e : AuditEvent) (db : Db) → logins (log_event e db) ≡ logins db + (if is_login e then 1 else 0)
unfolding log_event
logins-log_event e db = ground (arith, count-append is_login db.audit_events (e ∷ []))

module _ (r : Redis) (cfg : FallbackSettings) (policy : Policy) (links : ℕ → Link) (now : ℕ)
    (keys : Keys) (email : String) (ip : Option String) where
  abbrev audit : String → ℕ → AuditEvent
  audit = login_audit email ip

  logins-record_account :
      (state : Limiter r × Db)
      → logins (record_account r cfg policy links now keys audit state).1 ≡ logins state.1
  unfolding record_account
  logins-record_account state =
      ground (arith, logins-log_event (audit "account" policy.account.lockout_seconds) state.1)

  logins-record_dimension :
      (i : ℕ) (dimension key : String) (limit : Limit) (state : Limiter r × Db)
      → logins (record_dimension r cfg policy links now keys audit i dimension key limit state).1
        ≡ logins state.1
  unfolding record_dimension
  logins-record_dimension i dimension key limit state =
      ground (arith, logins-log_event (audit dimension limit.lockout_seconds) state.1)

  logins-record_ip :
      (state : Limiter r × Db)
      → logins (record_ip r cfg policy links now keys audit state).1 ≡ logins state.1
  unfolding record_ip
  logins-record_ip state = elim (Option-cases keys.ip) [
    | inl unknown ↦ ground (arith, unknown)
    | inr (key, e) ↦ ground (arith, e, logins-record_dimension 4 "ip" key policy.ip state)
  ]

  logins-record_failure :
      (state : Limiter r × Db)
      → logins (record_failure r cfg policy links now keys audit state).1 ≡ logins state.1
  unfolding record_failure
  logins-record_failure state =
      let one = record_account r cfg policy links now keys audit state in
      let two =
        record_dimension r cfg policy links now keys audit 3 "pair" keys.pair policy.pair one in
      ground (
        arith,
        logins-record_account state,
        logins-record_dimension 3 "pair" keys.pair policy.pair one,
        logins-record_ip two,
      )

  -- What the throttle does depends on nothing that the database holds.
  module _ (s s' : Limiter r × Db) (same : s.0 ≡ s'.0) where
    limiter-record_account :
        (record_account r cfg policy links now keys audit s).0
        ≡ (record_account r cfg policy links now keys audit s').0
    unfolding record_account
    limiter-record_account = ground (arith, same)

    limiter-record_dimension :
        (i : ℕ) (dimension key : String) (limit : Limit)
        → (record_dimension r cfg policy links now keys audit i dimension key limit s).0
          ≡ (record_dimension r cfg policy links now keys audit i dimension key limit s').0
    unfolding record_dimension
    limiter-record_dimension i dimension key limit = cc

  limiter-record_ip :
      (s s' : Limiter r × Db)
      → s.0 ≡ s'.0
      → (record_ip r cfg policy links now keys audit s).0
        ≡ (record_ip r cfg policy links now keys audit s').0
  unfolding record_ip
  limiter-record_ip s s' same = elim (Option-cases keys.ip) [
    | inl unknown ↦ ground (arith, unknown, same)
    | inr (key, e) ↦ ground (arith, e, limiter-record_dimension s s' same 4 "ip" key policy.ip)
  ]

  limiter-record_failure :
      (l : Limiter r) (db db' : Db)
      → (record_failure r cfg policy links now keys audit (l, db)).0
        ≡ (record_failure r cfg policy links now keys audit (l, db')).0
  unfolding record_failure
  limiter-record_failure l db db' =
      let one = record_account r cfg policy links now keys audit (l, db) in
      let one' = record_account r cfg policy links now keys audit (l, db') in
      let pair =
        record_dimension r cfg policy links now keys audit 3 "pair" keys.pair policy.pair in
      let first_same = limiter-record_account (l, db) (l, db') refl in
      let second_same =
        limiter-record_dimension one one' first_same 3 "pair" keys.pair policy.pair in
      ground (arith, limiter-record_ip (pair one) (pair one') second_same)

module _ (r : Redis) (h : Hashing) (policy : Policy) (cfg : FallbackSettings) (pw : Passwords)
    (links : ℕ → Link) (now : ℕ) (email password : String) (client_ip : Option String) where
  -- What the throttle is told of a failed attempt.
  abbrev pub throttled : Limiter r × Db → Limiter r × Db
  throttled = login_record_failure r h policy cfg links now email client_ip

  logins-reject :
      (user : Option User) (why : String) (l : Limiter r) (db : Db)
      → logins (reject r h policy cfg pw links now email password client_ip user why (l, db)).1.1
        ≡ logins db + 1
  unfolding reject log_login_failure
  logins-reject user why l db =
      let failed = login_event email user (some why) in
      ground (
        arith,
        logins-log_event failed db,
        logins-record_failure r cfg policy links now (login_keys h email client_ip) email client_ip
            (l, log_event failed db),
      )

  logins-accept :
      (user : User) (hash : String) (l : Limiter r) (db : Db)
      → logins (accept r h policy cfg pw links now email password client_ip user hash (l, db)).1.1
        ≡ logins db + 1
  unfolding accept
  logins-accept user hash l db = logins-log_event (login_event email (some user) none) (record db {
    users = update_first (λ u. u.id == user.id) (upgraded pw password hash) db.users;
  })

  -- The tests of a login, passed by `account`, whose stored password is `hash`.
  pub record IsVerified (account : User) (hash : String) (db : Db) : Type 0 where
    pub stored : first (λ u. u.email ≈ email) db.users ≡ some account
    pub account_active : (account.status ≈ "active") ≡ true
    pub has_password : password_of account ≡ some hash
    pub verified : pw.verify_password password hash ≡ true

  abbrev attempt : Limiter r × Db → Option User × (Limiter r × Db)
  attempt = authenticate_user r h policy cfg pw links now email password client_ip

  abbrev rejected : Option User → String → Limiter r × Db → Option User × (Limiter r × Db)
  rejected = reject r h policy cfg pw links now email password client_ip

  abbrev accepted : User → String → Limiter r × Db → Option User × (Limiter r × Db)
  accepted = accept r h policy cfg pw links now email password client_ip

  -- An attempt is a rejection, or the tests are passed and it is accepted.
  authenticate_user-cases :
      (s : Limiter r × Db)
      → ((user : Option User) × (why : String) × (attempt s ≡ rejected user why s))
        ⊎ ((account : User) × (hash : String) × IsVerified account hash s.1
            × (attempt s ≡ accepted account hash s))
  unfolding authenticate_user
  authenticate_user-cases s = elim (Option-cases (first (λ u. u.email ≈ email) s.1.users)) [
    | inl unknown ↦ inl (none, "unknown_user_or_inactive", ground (arith, unknown))
    | inr (account, e) ↦ elim (Bool-cases (account.status ≈ "active")) [
      | inr suspended ↦ inl (some account, "unknown_user_or_inactive", ground (arith, e, suspended))
      | inl active ↦ elim (Option-cases (password_of account)) [
        | inl unset ↦ inl (some account, "no_password_set", ground (arith, e, active, unset))
        | inr (hash, eh) ↦ elim (Bool-cases (pw.verify_password password hash)) [
          | inr wrong ↦ inl (some account, "invalid_password", ground (arith, e, active, eh, wrong))
          | inl right ↦ inr (
            account,
            hash,
            record { stored = e; account_active = active; has_password = eh; verified = right },
            ground (arith, e, active, eh, right),
          )
        ]
      ]
    ]
  ]

  -- Every attempt leaves exactly one event of a login in the audit trail, of its success or of its
  -- failure, on every path.
  pub one_login_event :
      (l : Limiter r) (db : Db)
      → logins (authenticate_user r h policy cfg pw links now email password client_ip (l, db)).1.1
        ≡ logins db + 1
  one_login_event l db = elim (authenticate_user-cases (l, db)) [
    | inl (user, why, e) ↦ rw e (logins-reject user why l db)
    | inr (account, hash, v, e) ↦ rw e (logins-accept account hash l db)
  ]

  rejection-throttled :
      (l : Limiter r) (db : Db)
      → (authenticate_user r h policy cfg pw links now email password client_ip (l, db)).0 ≡ none
      → (authenticate_user r h policy cfg pw links now email password client_ip (l, db)).1.0
        ≡ (throttled (l, db)).0
  unfolding reject accept
  rejection-throttled l db refused = elim (authenticate_user-cases (l, db)) [
    | inl (user, why, e) ↦ rw e (
        limiter-record_failure r cfg policy links now (login_keys h email client_ip) email client_ip
          l (log_login_failure email user why db) db)
    | inr (account, hash, v, e) ↦ absurd (ground (arith, e))
  ]

  -- An accepted attempt names an account that is active and has a password, and the password
  -- given verifies against it; at most the stored form of the password is renewed.
  pub authenticate_user-IsVerified :
      (l : Limiter r) (db : Db) (user : User)
      → (authenticate_user r h policy cfg pw links now email password client_ip (l, db)).0
        ≡ some user
      → (account : User) × (hash : String) × IsVerified account hash db
        × (user ≡ upgraded pw password hash account)
  unfolding reject accept
  authenticate_user-IsVerified l db user success = elim (authenticate_user-cases (l, db)) [
    | inl (who, why, e) ↦ absurd (ground (arith, e))
    | inr (account, hash, v, e) ↦ (account, hash, v, ground (arith, e))
  ]

-- Two rejected attempts on one e-mail, from one address and with the throttle in one state, leave
-- the throttle in one state, whatever the two databases hold, whichever passwords are given and
-- whyever each is rejected: nothing of whether the account exists, is active or has a password
-- shows in it.
pub rejection_uniform :
    (r : Redis) (h : Hashing) (policy : Policy) (cfg : FallbackSettings) (pw pw' : Passwords)
    (links : ℕ → Link) (now : ℕ) (email password password' : String) (client_ip : Option String)
    (l : Limiter r) (db db' : Db)
    → (authenticate_user r h policy cfg pw links now email password client_ip (l, db)).0 ≡ none
    → (authenticate_user r h policy cfg pw' links now email password' client_ip (l, db')).0 ≡ none
    → (authenticate_user r h policy cfg pw links now email password client_ip (l, db)).1.0
      ≡ (authenticate_user r h policy cfg pw' links now email password' client_ip (l, db')).1.0
rejection_uniform r h policy cfg pw pw' links now email password password' client_ip l db db'
      refused refused' =
    rejection-throttled r h policy cfg pw links now email password client_ip l db refused
    ∙ limiter-record_failure r cfg policy links now (login_keys h email client_ip) email client_ip l
        db db'
    ∙ sym
        (rejection-throttled r h policy cfg pw' links now email password' client_ip l db' refused')
