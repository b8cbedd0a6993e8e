-- ===== src/Mfa/Decision.antt =====
-- `generate_tokens_or_mfa_challenge` of app/services/auth_service.py, which every login flow calls
-- once the first factor is proved.
use omnibioai_auth.Prelude.{
  ℕ, String, ◌≡◌, Bool, true, false, not, ◌&&◌, Option, none, some, List, [], ◌∷◌, arith, ◌≈◌,
  if◌then◌else◌, Result, ok, err, Result-cases, Bool-cases, inl, inr, sym, ap,
}
use omnibioai_auth.Models.{User, MfaPolicy, Db, Value, log_event, mfa_challenge_required}
use omnibioai_auth.Org.{resolve_primary_membership}
use omnibioai_auth.Auth.Claims.{org_of}
use omnibioai_auth.Auth.Issue.{LoginContext, generate_tokens}
use omnibioai_auth.Mfa.Policy.{get_org_mfa_policy}
use omnibioai_auth.Mfa.Token.{create_mfa_challenge_token}
use omnibioai_auth.Mfa.Email.{EmailError, is_enabled_for, issue_code, sent}
use omnibioai_auth.Mfa.Email.Budget.{issue_code-sent}
use omnibioai_auth.Mfa.Challenge.{Service}

-- What a login yields: tokens, or a challenge with the factors that answer it.
pub data LoginOutcome : Type 0 where
  signed_in : String → String → LoginOutcome
  challenged : String → List String → LoginOutcome

pub data LoginError : Type 0 where
  enrollment_required : LoginError
  email_failed : EmailError → LoginError

abbrev pub demands : Option MfaPolicy → Bool
demands none = false
demands (some policy) = policy.required && not policy.override_active

-- The policy of the primary organization.
unfoldable pub org_requires_mfa : User → Db → Bool
unfolding get_org_mfa_policy
org_requires_mfa user db = elim (org_of (resolve_primary_membership user.id db)) [
  | none ↦ false
  | some organization_id ↦ demands (get_org_mfa_policy organization_id db)
]

module _ (env : Service) (otp_id : ℕ) (otp : String) (delivered : Bool) (user : User)
    (ctx : LoginContext) where
  abbrev pub email_mfa_required : Bool
  email_mfa_required = ctx.auth_method ≈ "password" && is_enabled_for env.email user

  abbrev challenge_token : String
  challenge_token =
      create_mfa_challenge_token env.sign env.call.now env.next_jti user.id ctx
        (if email_mfa_required then some "email" else none)

  abbrev audited : Db → Db
  audited db =
      log_event
        (record {
          event_type = mfa_challenge_required;
          actor_user_id = some user.id;
          target_user_id = some user.id;
          organization_id = org_of (resolve_primary_membership user.id db);
          resource_type = some "user";
          resource_id = Value.number user.id;
          metadata = ("authentication_method", Value.text ctx.auth_method) ∷ [];
        })
        db

  -- The challenge is audited, and the audit stays if the mail then fails.
  unfoldable pub challenge : Db → Result LoginError LoginOutcome × Db
  unfolding create_mfa_challenge_token is_enabled_for issue_code log_event
  challenge db =
      if email_mfa_required
      then elim (issue_code env.email env.email_crypto env.call.now otp_id otp delivered user
          challenge_token false (audited db)) [
            | ok sent ↦ (ok (challenged challenge_token ("email" ∷ [])), sent.1)
            | err e ↦ (err (email_failed e), audited db)
          ]
      else (
        ok (challenged challenge_token (if user.mfa_enabled then "totp" ∷ [] else [])),
        audited db,
      )

  unfoldable pub generate_tokens_or_mfa_challenge : Db → Result LoginError LoginOutcome × Db
  unfolding is_enabled_for org_requires_mfa generate_tokens challenge
  generate_tokens_or_mfa_challenge db =
      if not user.mfa_enabled && not email_mfa_required
      then (if org_requires_mfa user db
          then (err enrollment_required, db)
          else (let (issued, db') = generate_tokens env.settings env.crypto env.call user ctx db in
              (ok (signed_in issued.0 issued.1), db')))
      else challenge db

  abbrev pub is_signed_in : Result LoginError LoginOutcome → Bool
  is_signed_in (ok (signed_in access refresh)) = true
  is_signed_in (ok (challenged token methods)) = false
  is_signed_in (err e) = false

  sent-sessions :
      (token : String) (db : Db) (wait : ℕ) (db' : Db)
      → issue_code env.email env.email_crypto env.call.now otp_id otp delivered user token false db
        ≡ ok (wait, db')
      → (db'.sessions ≡ db.sessions) × (db'.refresh_tokens ≡ db.refresh_tokens)
  unfolding sent log_event
  sent-sessions token db wait db' e =
      let (jti, same) =
        issue_code-sent env.email env.email_crypto env.call.now otp_id otp delivered user token
          false db wait db' e in
      (sym (ap (λ d. d.sessions) same), sym (ap (λ d. d.refresh_tokens) same))

  challenge-sessions :
      (db : Db)
      → ((challenge db).1.sessions ≡ db.sessions)
        × ((challenge db).1.refresh_tokens ≡ db.refresh_tokens)
  unfolding challenge log_event
  challenge-sessions db = elim (Bool-cases email_mfa_required) [
    | inr idle ↦ ground (arith, idle)
    | inl due ↦
        elim (Result-cases (
          issue_code env.email env.email_crypto env.call.now otp_id otp delivered user
            challenge_token false (audited db))) [
              | inl (s, e) ↦
                  ground (arith, due, e, sent-sessions challenge_token (audited db) s.0 s.1 e)
              | inr (x, e) ↦ ground (arith, due, e)
            ]
  ]

  -- Tokens come of the first factor alone exactly if the account has no MFA of its own, no code by
  -- mail is due, and the policy of its organization, if it is not overridden, asks for none; and
  -- the sessions and the refresh tokens change only then, as the issue of tokens changes them.
  pub generate_tokens_or_mfa_challenge_lem :
      (db : Db)
      → (is_signed_in (generate_tokens_or_mfa_challenge db).0
          ≡ (not user.mfa_enabled && (not email_mfa_required && not (org_requires_mfa user db))))
        × (((generate_tokens_or_mfa_challenge db).1.sessions ≡ (
              if is_signed_in (generate_tokens_or_mfa_challenge db).0
              then (generate_tokens env.settings env.crypto env.call user ctx db).1.sessions
              else db.sessions))
            × ((generate_tokens_or_mfa_challenge db).1.refresh_tokens ≡ (
                if is_signed_in (generate_tokens_or_mfa_challenge db).0
                then (generate_tokens env.settings env.crypto env.call user ctx db).1.refresh_tokens
                else db.refresh_tokens)))
  unfolding generate_tokens_or_mfa_challenge challenge
  generate_tokens_or_mfa_challenge_lem db =
      (ground arith, (ground (arith, challenge-sessions db), ground (arith, challenge-sessions db)))
