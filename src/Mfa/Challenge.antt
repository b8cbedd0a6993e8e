-- ===== src/Mfa/Challenge.antt =====
-- `verify_mfa_challenge` of app/services/mfa_service.py: the second step of a login. The parts of
-- the service that it calls are the other modules'; Redis, the calls of one request, signing and
-- decoding are parameters.
pub mod Records
pub mod Once
use omnibioai_auth.Prelude.{
  ℕ, String, Bool, true, false, not, ◌&&◌, ◌||◌, Option, none, some, List, [], ◌∷◌, ◌++◌, ◌==◌, ◌≈◌,
  is_none, contains, first, select, update_first, if◌then◌else◌, Result, ok, err,
}
use omnibioai_auth.Models.{
  Time, MfaDevice, RecoveryCode, User, Db, AuditEvent, AuditEventType, Value, log_event,
  mfa_verified, mfa_verification_failed, mfa_recovery_code_used,
}
use omnibioai_auth.RateLimit.Commands.{Redis}
use omnibioai_auth.RateLimit.InProcess.{FallbackSettings}
use omnibioai_auth.RateLimit.{Link, Limiter}
use omnibioai_auth.Throttle.{Policy}
use omnibioai_auth.Throttle.Login.{Hashing}
use omnibioai_auth.Throttle.Mfa.{mfa_check_throttled, mfa_record_failure, mfa_record_success}
use omnibioai_auth.Session.{Settings}
use omnibioai_auth.Org.{resolve_primary_membership}
use omnibioai_auth.Auth.Claims.{org_of}
use omnibioai_auth.Auth.Refresh.{Crypto, Call}
use omnibioai_auth.Auth.Issue.{LoginContext, generate_tokens}
use omnibioai_auth.Mfa.Devices.{MfaCrypto, unix, usable_by, with_user}
use omnibioai_auth.Mfa.RecoveryCodes.{CodeHash, verify_recovery_code, try_consume_recovery_code}
use omnibioai_auth.Mfa.Token.{ChallengePayload, create_mfa_challenge_token}
use omnibioai_auth.Mfa.Email.{EmailSettings, EmailCrypto, EmailError, is_enabled_for, verify_code}
use omnibioai_auth.Mfa.Steps.{match_devices}

-- What the service is configured with, and one request's clock, random values and calls of Redis.
pub record Service : Type 0 where
  pub settings : Settings
  pub crypto : Crypto
  pub call : Call
  pub mfa : MfaCrypto
  pub code_hash : CodeHash
  pub email : EmailSettings
  pub email_crypto : EmailCrypto
  pub sign : ChallengePayload → String
  pub next_jti : String
  pub hashing : Hashing
  pub throttle : Policy
  pub fallback : FallbackSettings
  pub check_links : ℕ → Link
  pub record_links : ℕ → Link

pub data ChallengeError : Type 0 where
  bad_token wrong_code : ChallengeError
  throttled : ℕ → ChallengeError

-- The tokens of a login, or the token of a second challenge.
pub data Verified : Type 0 where
  tokens : String → String → Verified
  next_challenge : String → Verified

-- The insert fails on a `jti` that is revoked, and then nothing pending is kept.
unfoldable pub consume_challenge_jti : Option String → Db → Option Db
consume_challenge_jti none db = some db
consume_challenge_jti (some jti) db =
    if jti ≈ ""
    then some db
    else if contains jti db.revoked_tokens
    then none
    else some (record db { revoked_tokens = db.revoked_tokens ++ jti ∷ [] })

abbrev pub is_consumed : Option String → Db → Bool
is_consumed none db = false
is_consumed (some jti) db = not (jti ≈ "") && contains jti db.revoked_tokens

-- `required_stage not in (None, "email", "totp")`
abbrev pub known_stage : Option String → Bool
known_stage none = true
known_stage (some stage) = stage ≈ "email" || stage ≈ "totp"

abbrev pub is_stage : Option String → String → Bool
is_stage none stage = false
is_stage (some s) stage = s ≈ stage

-- `method in (None, name)`
abbrev pub allows : Option String → String → Bool
allows none name = true
allows (some m) name = m ≈ name

-- `payload.get("auth_method") or "password"`
abbrev pub method_of : ChallengePayload → String
method_of payload = elim payload.auth_method [
  | none ↦ "password"
  | some m ↦ if m ≈ "" then "password" else m
]

abbrev pub context_of : ChallengePayload → LoginContext
context_of payload = record {
  auth_method = method_of payload;
  idp_org_id = payload.idp_org_id;
  client_ip = none;
  user_agent = none;
  saml_name_id = payload.saml_name_id;
  saml_session_index = payload.saml_session_index;
  organization_saml_config_id = payload.organization_saml_config_id;
}

abbrev pub verified_at : Time → User → User
verified_at now u = record u { mfa_last_verified_at = some now }

abbrev used_at : Time → MfaDevice → MfaDevice
used_at now d = record d { last_used_at = some now }

-- A call that raises is no match.
abbrev pub unless_raised : Db → Result EmailError (Bool × Db) → Bool × Db
unless_raised db (ok answer) = answer
unless_raised db (err e) = (false, db)

module _ (r : Redis) (env : Service) (ip : Option String) (method : Option String)
    (code : String) where
  abbrev pub State : Type 0
  State = Limiter r × Db

  abbrev pub Reply : Type 0
  Reply = Result ChallengeError Verified × State

  module _ (payload : ChallengePayload) (user : User) where
    abbrev pub organization : Db → Option ℕ
    organization db = org_of (resolve_primary_membership user.id db)

    abbrev challenge_event :
        AuditEventType → String → Value → List (String × Value) → Db → AuditEvent
    challenge_event event_type resource_type resource_id more db = record {
      event_type = event_type;
      actor_user_id = some user.id;
      target_user_id = some user.id;
      organization_id = organization db;
      resource_type = some resource_type;
      resource_id = resource_id;
      metadata = ("authentication_method", Value.text (method_of payload)) ∷ more;
    }

    -- `generate_tokens` for the verified account.
    unfoldable pub grant_tokens : State → Reply
    unfolding generate_tokens
    grant_tokens (l, db) =
        let (issued, db') =
          generate_tokens env.settings env.crypto env.call (verified_at env.call.now user)
            (context_of payload) db in
        (ok (tokens issued.0 issued.1), (l, db'))

    abbrev pub recorded : AuditEvent → Limiter r → Db → State
    recorded event l db = (
      mfa_record_success r env.hashing env.email_crypto.decimal env.throttle (env.record_links 0)
          user.id ip l,
      log_event event db,
    )

    -- What follows a factor that was claimed: `written` has the writes of the factor, which a used
    -- challenge discards.
    unfoldable pub complete : AuditEvent → (State → Reply) → Db → Db → Limiter r → Reply
    unfolding consume_challenge_jti log_event
    complete event finish claimed written l = elim (consume_challenge_jti payload.jti written) [
      | none ↦ (err bad_token, (l, claimed))
      | some db ↦ finish (recorded event l db)
    ]

    -- The last branch.
    unfoldable pub fail_challenge : State → Reply
    unfolding log_event
    fail_challenge (l, db) =
        let (l', db') =
          mfa_record_failure r env.hashing env.email_crypto.decimal env.throttle env.fallback
            env.record_links (unix env.call.now) user.id ip (organization db) (l, db) in
        (
          err wrong_code,
          (
            l',
            log_event (challenge_event mfa_verification_failed "user" (Value.number user.id) [] db)
                db',
          ),
        )

    -- After a code by mail the devices are asked for, if the account has any.
    unfoldable pub after_email : State → Reply
    unfolding grant_tokens create_mfa_challenge_token
    after_email s =
        if user.mfa_enabled
        then (
          ok (
              next_challenge (
                create_mfa_challenge_token env.sign env.call.now env.next_jti user.id
                  (context_of payload) (some "totp"))),
          s,
        )
        else grant_tokens s

    abbrev pub wrote_user : Db → Db
    wrote_user = with_user user.id (verified_at env.call.now)

    abbrev pub email_asked : Bool
    email_asked =
        not (is_stage payload.required_stage "totp")
        && (allows method "email" && is_enabled_for env.email user)

    -- A missing `jti` finds no row.
    unfoldable pub email_match : Db → Bool × Db
    unfolding verify_code
    email_match db = elim payload.jti [
      | none ↦ (false, db)
      | some jti ↦
          if email_asked
          then unless_raised db
              (verify_code env.email env.email_crypto env.call.now user.id jti code db)
          else (false, db)
    ]

    unfoldable pub try_email : State → Reply
    unfolding email_match complete after_email fail_challenge
    try_email (l, db) =
        let (matched, db') = email_match db in
        if matched
        then complete
            (challenge_event mfa_verified "mfa_email_otp" Value.null
              (("factor", Value.text "email") ∷ []) db)
            after_email db' (wrote_user db') l
        else fail_challenge (l, db')

    abbrev pub stage_open : String → Bool
    stage_open name = not (is_stage payload.required_stage "email") && allows method name

    unfoldable pub recovery_match : Db → Bool × Db
    unfolding verify_recovery_code try_consume_recovery_code
    recovery_match db =
        if stage_open "recovery_code"
        then elim (verify_recovery_code env.code_hash user.id code db) [
          | none ↦ (false, db)
          | some row ↦ try_consume_recovery_code env.call.now row.id db
        ]
        else (false, db)

    unfoldable pub try_recovery : State → Reply
    unfolding recovery_match complete grant_tokens try_email
    try_recovery (l, db) =
        let (matched, db') = recovery_match db in
        if matched
        then complete (challenge_event mfa_recovery_code_used "user" (Value.number user.id) [] db)
            grant_tokens db' (wrote_user db') l
        else try_email (l, db')

    abbrev pub asked_devices : Db → List MfaDevice
    asked_devices db = if stage_open "totp" then select (usable_by user.id) db.mfa_devices else []

    unfoldable pub try_totp : State → Reply
    unfolding match_devices complete grant_tokens try_recovery
    try_totp (l, db) =
        let (matched, db') = match_devices env.mfa env.call.now code (asked_devices db) db in
        elim matched [
          | none ↦ try_recovery (l, db')
          | some d ↦
              let used : Db = record db' {
                mfa_devices =
                    update_first (λ x. x.id == d.id) (used_at env.call.now) db'.mfa_devices;
              } in
              complete (challenge_event mfa_verified "mfa_device" (Value.number d.id) [] db)
                grant_tokens db' (wrote_user used) l
        ]

  abbrev refused : State → Reply
  refused s = (err bad_token, s)

  -- The account is there, is active, and still has the factor that the token asks for.
  abbrev pub may_answer : ChallengePayload → User → Bool
  may_answer payload user =
      user.status ≈ "active"
      && ((user.mfa_enabled || is_enabled_for env.email user)
          && (not (is_stage payload.required_stage "totp") || user.mfa_enabled))

  -- What follows the throttle.
  unfoldable pub verify_for_user : ChallengePayload → ℕ → State → Reply
  unfolding is_enabled_for try_totp
  verify_for_user payload user_id (l, db) =
      if is_consumed payload.jti db
      then refused (l, db)
      else elim (first (λ u. u.id == user_id) db.users) [
        | none ↦ refused (l, db)
        | some user ↦
            if may_answer payload user then try_totp payload user (l, db) else refused (l, db)
      ]

  unfoldable pub verify_mfa_challenge : String → State → Reply
  unfolding verify_for_user
  verify_mfa_challenge challenge_token (l, db) =
      elim (env.email_crypto.decode_token challenge_token) [
        | none ↦ refused (l, db)
        | some payload ↦
            if payload.token_type ≈ "mfa_challenge" && known_stage payload.required_stage
            then elim payload.user_id [
              | none ↦ refused (l, db)
              | some user_id ↦
                  let (locked, wait) =
                    mfa_check_throttled r env.hashing env.email_crypto.decimal env.throttle
                      env.check_links (unix env.call.now) user_id ip l in
                  if locked
                  then (err (throttled wait), (l, db))
                  else verify_for_user payload user_id (l, db)
            ]
            else refused (l, db)
      ]
