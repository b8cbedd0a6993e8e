-- ===== src/Mfa/Challenge/Records.antt =====
-- What an answered challenge of app/services/mfa_service.py writes to the table of revoked tokens.
use omnibioai_auth.Prelude.{
  ℕ, String, ◌≡◌, refl, Bool, true, false, Option, none, some, List, [], ◌∷◌, ◌++◌, arith, ◌==◌,
  ◌≈◌, first, select, if◌then◌else◌, Result, ok, err, Option-cases, inl, inr, subst,
}
use omnibioai_auth.Models.{Time, EmailOtp, MfaDevice, User, Db, AuditEvent, log_event}
use omnibioai_auth.RateLimit.Commands.{Redis}
use omnibioai_auth.RateLimit.{Limiter}
use omnibioai_auth.Auth.Blacklist.{revoked-record_failure, revoked-generate_tokens}
use omnibioai_auth.Throttle.Mfa.{mfa_keys, mfa_audit}
use omnibioai_auth.Mfa.Devices.{MfaCrypto, unix}
use omnibioai_auth.Mfa.RecoveryCodes.{try_consume_recovery_code}
use omnibioai_auth.Mfa.Token.{ChallengePayload}
use omnibioai_auth.Mfa.Email.{
  EmailSettings, EmailCrypto, email_digest, keyed, latest, open_for, verify_code, answer_row,
}
use omnibioai_auth.Mfa.Steps.{try_claim_totp_step, try_device, match_devices}
use omnibioai_auth.Mfa.Challenge.{
  unless_raised, Service, ChallengeError, Verified, verified_at, context_of, organization,
  asked_devices, wrote_user, recorded, consume_challenge_jti, State, Reply, grant_tokens, complete,
  fail_challenge, after_email, email_match, try_email, recovery_match, try_recovery, try_totp,
  verify_for_user,
}

revoked-match_devices :
    (c : MfaCrypto) (now : Time) (code : String) (ds : List MfaDevice) (db : Db)
    → (match_devices c now code ds db).1.revoked_tokens ≡ db.revoked_tokens
unfolding match_devices try_device try_claim_totp_step
revoked-match_devices c now code [] db = refl
revoked-match_devices c now code (d ∷ ds) db =
    ground (arith, revoked-match_devices c now code ds (try_device c now code d db).1)

revoked-answer_row :
    (cfg : EmailSettings) (now : Time) (o : EmailOtp) (candidate : String) (db : Db)
    → (answer_row cfg now o candidate db).1.revoked_tokens ≡ db.revoked_tokens
unfolding answer_row
revoked-answer_row cfg now o candidate db = ground arith

revoked-verify_code :
    (cfg : EmailSettings) (c : EmailCrypto) (now : Time) (user_id : ℕ) (jti code : String) (db : Db)
    → (unless_raised db (verify_code cfg c now user_id jti code db)).1.revoked_tokens
      ≡ db.revoked_tokens
unfolding verify_code email_digest
revoked-verify_code cfg c now user_id jti code db =
    elim (Option-cases (latest (select (open_for user_id jti) db.email_otps))) [
      | inl e ↦ ground (arith, e)
      | inr (o, e) ↦
          ground (arith, e, revoked-answer_row cfg now o (keyed cfg c user_id jti code) db)
    ]

-- The table after a reply to a challenge with the given `jti`.
unfoldable pub with_jti : Option String → List String → List String
with_jti none revoked = revoked
with_jti (some jti) revoked = if jti ≈ "" then revoked else revoked ++ jti ∷ []

unfoldable pub is_ok : Result ChallengeError Verified → Bool
is_ok (ok v) = true
is_ok (err e) = false

consumed-with_jti :
    (jti : Option String) (db db' : Db)
    → consume_challenge_jti jti db ≡ some db'
    → db'.revoked_tokens ≡ with_jti jti db.revoked_tokens
unfolding consume_challenge_jti with_jti
consumed-with_jti none db db' e = ground (arith, e)
consumed-with_jti (some jti) db db' e = ground (arith, e)

module _ (r : Redis) (env : Service) (ip method : Option String) (code : String)
    (payload : ChallengePayload) (user : User) where
  -- The table grows by the `jti` if the reply is a success, and else stays.
  Records : List String → Reply r env ip method code → Type 0
  Records revoked reply =
      reply.1.1.revoked_tokens ≡ (if is_ok reply.0 then with_jti payload.jti revoked else revoked)

  IsFinish : (State r env ip method code → Reply r env ip method code) → Type 0
  IsFinish finish =
      (s : State r env ip method code)
      → (is_ok (finish s).0 ≡ true) × ((finish s).1.1.revoked_tokens ≡ s.1.revoked_tokens)

  grant_tokens-IsFinish : IsFinish (grant_tokens r env ip method code payload user)
  unfolding IsFinish grant_tokens is_ok
  grant_tokens-IsFinish (l, db) = (
    refl,
    revoked-generate_tokens env.settings env.crypto env.call (verified_at env.call.now user)
        (context_of payload) db,
  )

  after_email-IsFinish : IsFinish (after_email r env ip method code payload user)
  unfolding IsFinish after_email is_ok
  after_email-IsFinish s = ground (arith, grant_tokens-IsFinish s)

  complete-Records :
      (event : AuditEvent) (finish : State r env ip method code → Reply r env ip method code)
      (claimed written : Db) (l : Limiter r)
      → IsFinish finish
      → claimed.revoked_tokens ≡ written.revoked_tokens
      → Records written.revoked_tokens
          (complete r env ip method code payload user event finish claimed written l)
  unfolding Records IsFinish complete log_event is_ok
  complete-Records event finish claimed written l done same =
      elim (Option-cases (consume_challenge_jti payload.jti written)) [
        | inl e ↦ ground (arith, same)
        | inr (db, e) ↦
            let finished = done (recorded r env ip method code payload user event l db) in
            ground (arith, finished.0, finished.1, consumed-with_jti payload.jti written db e)
      ]

  fail-Records :
      (l : Limiter r) (db : Db)
      → Records db.revoked_tokens (fail_challenge r env ip method code payload user (l, db))
  unfolding Records fail_challenge log_event is_ok
  fail-Records l db =
      revoked-record_failure r env.fallback env.throttle env.record_links (unix env.call.now)
        (mfa_keys env.hashing env.email_crypto.decimal user.id ip)
        (mfa_audit user.id ip (organization r env ip method code payload user db)) (l, db)

  if-Records :
      (b : Bool) (revoked : List String) (x y : Reply r env ip method code)
      → Records revoked x
      → Records revoked y
      → Records revoked (if b then x else y)
  if-Records true revoked x y hx hy = hx
  if-Records false revoked x y hx hy = hy

  revoked-email_match :
      (db : Db)
      → (email_match r env ip method code payload user db).1.revoked_tokens ≡ db.revoked_tokens
  unfolding email_match
  revoked-email_match db = elim (Option-cases payload.jti) [
    | inl e ↦ rw (e, email_match) refl
    | inr (jti, e) ↦
        ground
          (arith, revoked-verify_code env.email env.email_crypto env.call.now user.id jti code db)
  ]

  email-Records :
      (l : Limiter r) (db : Db)
      → Records db.revoked_tokens (try_email r env ip method code payload user (l, db))
  unfolding try_email
  email-Records l db =
      let after = email_match r env ip method code payload user db in
      subst (λ x. Records x (try_email r env ip method code payload user (l, db)))
        (revoked-email_match db)
        (if-Records after.0 after.1.revoked_tokens _ _
          (complete-Records _ (after_email r env ip method code payload user) after.1
            (wrote_user r env ip method code payload user after.1) l after_email-IsFinish refl)
          (fail-Records l after.1))

  revoked-recovery_match :
      (db : Db)
      → (recovery_match r env ip method code payload user db).1.revoked_tokens ≡ db.revoked_tokens
  unfolding recovery_match try_consume_recovery_code
  revoked-recovery_match db = ground arith

  recovery-Records :
      (l : Limiter r) (db : Db)
      → Records db.revoked_tokens (try_recovery r env ip method code payload user (l, db))
  unfolding try_recovery
  recovery-Records l db =
      let after = recovery_match r env ip method code payload user db in
      subst (λ x. Records x (try_recovery r env ip method code payload user (l, db)))
        (revoked-recovery_match db)
        (if-Records after.0 after.1.revoked_tokens _ _
          (complete-Records _ (grant_tokens r env ip method code payload user) after.1
            (wrote_user r env ip method code payload user after.1) l grant_tokens-IsFinish refl)
          (email-Records l after.1))

  matched-Records :
      (m : Option MfaDevice) (revoked : List String) (x : Reply r env ip method code)
      (y : MfaDevice → Reply r env ip method code)
      → Records revoked x
      → ((d : MfaDevice) → Records revoked (y d))
      → Records revoked (elim m [ none ↦ x | some d ↦ y d ])
  matched-Records none revoked x y hx hy = hx
  matched-Records (some d) revoked x y hx hy = hy d

  totp-Records :
      (l : Limiter r) (db : Db)
      → Records db.revoked_tokens (try_totp r env ip method code payload user (l, db))
  unfolding try_totp
  totp-Records l db =
      let devices = asked_devices r env ip method code payload user db in
      let after = match_devices env.mfa env.call.now code devices db in
      subst (λ x. Records x (try_totp r env ip method code payload user (l, db)))
        (revoked-match_devices env.mfa env.call.now code devices db)
        (matched-Records after.0 after.1.revoked_tokens _ _ (recovery-Records l after.1) (λ d.
          complete-Records _ (grant_tokens r env ip method code payload user) after.1 _ l
            grant_tokens-IsFinish refl))

module _ (r : Redis) (env : Service) (ip method : Option String) (code : String) where
  pub verify_for_user-Records :
      (payload : ChallengePayload) (user_id : ℕ) (l : Limiter r) (db : Db)
      → (verify_for_user r env ip method code payload user_id (l, db)).1.1.revoked_tokens ≡ (
          if is_ok (verify_for_user r env ip method code payload user_id (l, db)).0
          then with_jti payload.jti db.revoked_tokens
          else db.revoked_tokens)
  unfolding verify_for_user Records is_ok
  verify_for_user-Records payload user_id l db =
      elim (Option-cases (first (λ u. u.id == user_id) db.users)) [
        | inl e ↦ ground (arith, e)
        | inr (user, e) ↦ ground (arith, e, totp-Records r env ip method code payload user l db)
      ]
