-- ===== src/Mfa/Email.antt =====
-- app/services/email_mfa_service.py: codes that are sent by mail. The keyed digest, the decimal
-- text of a number, decoding of a token and the delivery of a mail are parameters.
pub mod Weights
pub mod Guesses
pub mod Budget
use Prim.Native.String.{◌++◌ as append}
use omnibioai_auth.Prelude.{
  ℕ, suc, ◌+◌, ◌-◌, ◌*◌, ◌/◌, String, Bool, true, false, not, ◌&&◌, ◌||◌, Option, none, some, List,
  [], ◌∷◌, ◌++◌, ltb, leb, ◌==◌, ◌≈◌, is_none, max, contains, first, select, count, length,
  update_all, if◌then◌else◌, Result, ok, err, ◌>>=◌,
}
use omnibioai_auth.Models.{
  Time, seconds, EmailOtp, User, Db, AuditEvent, AuditEventType, Value, log_event,
  mfa_email_code_sent, mfa_email_code_resent,
}
use omnibioai_auth.Mfa.Totp.{is_code}
use omnibioai_auth.Mfa.Devices.{own_event}
use omnibioai_auth.Mfa.Token.{ChallengePayload}

pub record EmailSettings : Type 0 where
  pub enabled : Bool
  pub pepper : String
  pub resend_cooldown_seconds : ℕ
  pub max_sends_per_hour : ℕ
  pub ttl_seconds : ℕ
  pub max_attempts : ℕ

pub record EmailCrypto : Type 0 where
  pub keyed_digest : String → String → String
  pub decimal : ℕ → String
  pub decode_token : String → Option ChallengePayload

pub data EmailError : Type 0 where
  unavailable bad_challenge : EmailError
  resend_limited : ℕ → EmailError

unfoldable pub is_enabled_for : EmailSettings → User → Bool
is_enabled_for cfg user = cfg.enabled && (user.status ≈ "active" && not (user.email ≈ ""))

-- The keyed digest of `f"{user_id}:{challenge_jti}:{code}"`.
abbrev pub keyed : EmailSettings → EmailCrypto → ℕ → String → String → String
keyed cfg c user_id challenge_jti code =
    c.keyed_digest cfg.pepper
      (append (c.decimal user_id) (append ":" (append challenge_jti (append ":" code))))

unfoldable pub email_digest :
    EmailSettings → EmailCrypto → ℕ → String → String → Result EmailError String
email_digest cfg c user_id challenge_jti code =
    if cfg.pepper ≈ "" then err unavailable else ok (keyed cfg c user_id challenge_jti code)

abbrev is_text : Option String → String → Bool
is_text none t = false
is_text (some s) t = s ≈ t

unfoldable pub challenge_identity : EmailCrypto → String → Result EmailError (ℕ × String)
challenge_identity c challenge_token = elim (c.decode_token challenge_token) [
  | none ↦ err bad_challenge
  | some payload ↦ elim payload.user_id [
    | none ↦ err bad_challenge
    | some user_id ↦ elim payload.jti [
      | none ↦ err bad_challenge
      | some jti ↦
          if payload.token_type ≈ "mfa_challenge"
            && (is_text payload.auth_method "password" && not (jti ≈ ""))
          then ok (user_id, jti)
          else err bad_challenge
    ]
  ]
]

-- By `created_at`, then by `id`.
abbrev newer : EmailOtp → EmailOtp → Bool
newer a b = ltb b.created_at a.created_at || (a.created_at == b.created_at && ltb b.id a.id)

-- `order_by(created_at.desc(), id.desc()).first()`
pub latest : List EmailOtp → Option EmailOtp
latest [] = none
latest (o ∷ os) = elim (latest os) [ none ↦ some o | some p ↦ some (if newer p o then p else o) ]

oldest_time : List EmailOtp → Option Time
oldest_time [] = none
oldest_time (o ∷ os) = elim (oldest_time os) [
  | none ↦ some o.created_at
  | some t ↦ some (if ltb t o.created_at then t else o.created_at)
]

abbrev pub open_of : ℕ → EmailOtp → Bool
open_of user_id o = o.user_id == user_id && (is_none o.consumed_at && is_none o.invalidated_at)

abbrev pub sent_since : ℕ → Time → EmailOtp → Bool
sent_since user_id since o = o.user_id == user_id && leb since o.created_at

abbrev hour : ℕ
hour = seconds 3600

-- The cooldown between two mails; the clock does not run backwards.
unfoldable pub resend_wait : EmailSettings → Time → Bool → Option EmailOtp → Option ℕ
resend_wait cfg now resend none = none
resend_wait cfg now resend (some o) =
    if resend && ltb (now - o.created_at) (seconds cfg.resend_cooldown_seconds)
    then some (cfg.resend_cooldown_seconds - (now - o.created_at) / 1000000)
    else none

-- The cap on mails in an hour.
unfoldable pub hourly_wait : EmailSettings → Time → ℕ → Db → Option ℕ
unfolding oldest_time
hourly_wait cfg now user_id db =
    let recent = select (sent_since user_id (now - hour)) db.email_otps in
    if leb cfg.max_sends_per_hour (length recent)
    then elim (oldest_time recent) [
      | none ↦ some 3600
      | some t ↦ some (max 1 ((t + hour - now) / 1000000))
    ]
    else none

abbrev pub retry_after : ℕ → EmailError
retry_after n = resend_limited (max 1 n)

abbrev pub new_otp : EmailSettings → Time → ℕ → ℕ → String → String → EmailOtp
new_otp cfg now id user_id jti code_hash = record {
  id = id;
  user_id = user_id;
  challenge_jti = jti;
  code_hash = code_hash;
  attempts = 0;
  created_at = now;
  expires_at = now + seconds cfg.ttl_seconds;
  consumed_at = none;
  invalidated_at = none;
}

module _ (cfg : EmailSettings) (c : EmailCrypto) (now : Time) (id : ℕ) (code : String)
    (delivered : Bool) where
  -- The earlier codes of the user are invalidated, and one is put in their place.
  unfoldable pub sent : User → String → Bool → Db → Db
  unfolding log_event
  sent user jti resend db =
      log_event
        (own_event (if resend then mfa_email_code_resent else mfa_email_code_sent) user.id
          "mfa_email_otp" id (("delivery", Value.text "email") ∷ []))
        (record db {
          email_otps =
              update_all (open_of user.id) (λ o. record o { invalidated_at = some now })
                db.email_otps
              ++ new_otp cfg now id user.id jti (keyed cfg c user.id jti code) ∷ [];
        })

  unfoldable pub send_code : User → String → Bool → Db → Result EmailError (ℕ × Db)
  unfolding email_digest sent
  send_code user jti resend db = email_digest cfg c user.id jti code >>= λ _.
      if delivered
      then ok (cfg.resend_cooldown_seconds, sent user jti resend db)
      else err unavailable

  unfoldable pub issue_code : User → String → Bool → Db → Result EmailError (ℕ × Db)
  unfolding is_enabled_for challenge_identity latest resend_wait hourly_wait send_code
  issue_code user challenge_token resend db =
      if not (is_enabled_for cfg user)
      then err unavailable
      else (challenge_identity c challenge_token >>= λ identity.
          if not (identity.0 == user.id && user.status ≈ "active")
            || contains identity.1 db.revoked_tokens
          then err bad_challenge
          else elim (resend_wait cfg now resend
              (latest (select (λ o. o.user_id == user.id) db.email_otps))) [
                | some wait ↦ err (retry_after wait)
                | none ↦ elim (hourly_wait cfg now user.id db) [
                  | some wait ↦ err (retry_after wait)
                  | none ↦ send_code user identity.1 resend db
                ]
              ])

  unfoldable pub resend_code : String → Db → Result EmailError (ℕ × Db)
  unfolding issue_code challenge_identity
  resend_code challenge_token db = challenge_identity c challenge_token >>= λ identity.
      elim (first (λ u. u.id == identity.0) db.users) [
        | none ↦ err bad_challenge
        | some user ↦ issue_code user challenge_token true db
      ]

abbrev pub open_for : ℕ → String → EmailOtp → Bool
open_for user_id jti o = open_of user_id o && o.challenge_jti ≈ jti

abbrev pub open_row : EmailSettings → ℕ → EmailOtp → Bool
open_row cfg id o =
    o.id == id
    && (is_none o.consumed_at && (is_none o.invalidated_at && ltb o.attempts cfg.max_attempts))

-- One more attempt, the last of which invalidates the code.
abbrev pub miss : EmailSettings → Time → EmailOtp → EmailOtp
miss cfg now o = record o {
  attempts = suc o.attempts;
  invalidated_at = if leb cfg.max_attempts (suc o.attempts) then some now else o.invalidated_at;
}

abbrev pub claimable : EmailSettings → Time → ℕ → String → EmailOtp → Bool
claimable cfg now id code_hash o =
    open_row cfg id o && (o.code_hash ≈ code_hash && ltb now o.expires_at)

-- The comparison of a code with the row, and the write that follows; `id` is a key.
unfoldable pub answer_row : EmailSettings → Time → EmailOtp → String → Db → Bool × Db
answer_row cfg now o candidate db =
    if o.code_hash ≈ candidate
    then if count (claimable cfg now o.id candidate) db.email_otps == 1
      then (
        true,
        record db {
          email_otps =
              update_all (claimable cfg now o.id candidate)
                (λ x. record x { consumed_at = some now }) db.email_otps;
        },
      )
      else (false, db)
    else (
      false,
      record db { email_otps = update_all (open_row cfg o.id) (miss cfg now) db.email_otps },
    )

unfoldable pub verify_code :
    EmailSettings → EmailCrypto → Time → ℕ → String → String → Db → Result EmailError (Bool × Db)
unfolding latest email_digest answer_row
verify_code cfg c now user_id challenge_jti code db =
    elim (latest (select (open_for user_id challenge_jti) db.email_otps)) [
      | none ↦ ok (false, db)
      | some o ↦
          if (leb o.expires_at now || leb cfg.max_attempts o.attempts) || not (is_code code)
          then ok (false, db)
          else email_digest cfg c user_id challenge_jti code >>= λ candidate.
              ok (answer_row cfg now o candidate db)
    ]
