-- ===== src/Mfa/Email/Budget.antt =====
-- How many guesses a mailed code of app/services/email_mfa_service.py allows.
use omnibioai_auth.Prelude.{
  ℕ, All, length, ◌+◌, ◌≤◌, String, ◌≡◌, refl, Bool, true, false, ◌&&◌, some, List, [], ◌∷◌, arith,
  ltb, ◌==◌, ◌≈◌, count, update_all, ok, count-append, count-update_all_keep, Result-cases, subst,
  inl, inr,
}
use omnibioai_auth.Models.{Time, seconds, EmailOtp, User, Db, log_event}
use omnibioai_auth.Mfa.Email.{
  EmailSettings, EmailCrypto, challenge_identity, keyed, email_digest, open_of, open_for, sent,
  new_otp, send_code, issue_code,
}
use omnibioai_auth.Mfa.Email.Weights.{weigh, weigh-append, weigh-zero}
use omnibioai_auth.Mfa.Email.Guesses.{
  HasKeys, guesses_left, is_accepted, after_answers, IsGuessed, IsGuess, answers-weigh,
  exhausted-refused,
}

module _ (cfg : EmailSettings) (c : EmailCrypto) (now : Time) (id : ℕ) (code : String)
    (delivered : Bool) (user : User) where
  abbrev expiry : Time
  expiry = now + seconds cfg.ttl_seconds

  abbrev invalidated : Db → List EmailOtp
  invalidated db =
      update_all (open_of user.id) (λ o. record o { invalidated_at = some now }) db.email_otps

  -- The invalidation that a new code begins with closes every code of the user.
  invalidated-closed :
      (q : EmailOtp → Bool) (os : List EmailOtp)
      → ((x : EmailOtp) → q x ≡ true → open_of user.id x ≡ true)
      → count q (update_all (open_of user.id) (λ o. record o { invalidated_at = some now }) os) ≡ 0
  invalidated-closed q [] opens = refl
  invalidated-closed q (o ∷ os) opens = ground (
    arith,
    opens o,
    opens (record o { invalidated_at = some now }),
    invalidated-closed q os opens,
  )

  abbrev row : String → EmailOtp
  row jti = new_otp cfg now id user.id jti (keyed cfg c user.id jti code)

  sent-weigh :
      (jti : String) (resend : Bool) (db : Db)
      → weigh
          (guesses_left cfg c user.id jti)
          (sent cfg c now id code delivered user jti resend db).email_otps
        ≤ cfg.max_attempts
  unfolding sent log_event weigh
  sent-weigh jti resend db =
      let w = guesses_left cfg c user.id jti in
      ground (
        arith,
        weigh-zero w (invalidated db)
            (invalidated-closed (λ o. ltb 0 (w o)) db.email_otps (λ x h. ground arith)),
        weigh-append w (invalidated db) (row jti ∷ []),
      )

  sent-HasKeys :
      (jti : String) (resend : Bool) (db : Db)
      → HasKeys db.email_otps
      → count (λ o. o.id == id) db.email_otps ≡ 0
      → HasKeys (sent cfg c now id code delivered user jti resend db).email_otps
  unfolding sent log_event
  sent-HasKeys jti resend db keys fresh i = ground (
    arith,
    keys i,
    fresh,
    count-append (λ o. o.id == i)
        (update_all (open_of user.id) (λ o. record o { invalidated_at = some now }) db.email_otps)
        (new_otp cfg now id user.id jti (keyed cfg c user.id jti code) ∷ []),
    count-update_all_keep (λ o. o.id == i) (open_of user.id)
        (λ o. record o { invalidated_at = some now }) db.email_otps (λ x h. refl),
  )

  sent-IsGuessed :
      (jti : String) (resend : Bool) (db : Db)
      → HasKeys db.email_otps
      → count (λ o. o.id == id) db.email_otps ≡ 0
      → IsGuessed cfg c user.id jti expiry
          (sent cfg c now id code delivered user jti resend db).email_otps
  unfolding sent log_event
  sent-IsGuessed jti resend db keys fresh =
      let of_challenge = open_for user.id jti in
      let early : EmailOtp → Bool = λ o. of_challenge o && ltb o.expires_at expiry in
      record {
        keys = sent-HasKeys jti resend db keys fresh;
        one_open = ground (
          arith,
          invalidated-closed of_challenge db.email_otps (λ x h. ground arith),
          count-append of_challenge (invalidated db) (row jti ∷ []),
        );
        lasting = ground (
          arith,
          invalidated-closed early db.email_otps (λ x h. ground arith),
          count-append early (invalidated db) (row jti ∷ []),
        );
      }

  pub issue_code-sent :
      (token : String) (resend : Bool) (db : Db) (wait : ℕ) (db' : Db)
      → issue_code cfg c now id code delivered user token resend db ≡ ok (wait, db')
      → (jti : String) × (sent cfg c now id code delivered user jti resend db ≡ db')
  unfolding issue_code send_code email_digest
  issue_code-sent token resend db wait db' e = elim (Result-cases (challenge_identity c token)) [
    | inl (identity, known) ↦ (identity.1, ground arith)
    | inr (error, known) ↦ ground arith
  ]

  issue_code-sent_for :
      (token jti : String) (resend : Bool) (db : Db) (wait : ℕ) (db' : Db)
      → challenge_identity c token ≡ ok (user.id, jti)
      → issue_code cfg c now id code delivered user token resend db ≡ ok (wait, db')
      → (sent cfg c now id code delivered user jti resend db ≡ db') × ((cfg.pepper ≈ "") ≡ false)
  unfolding issue_code send_code email_digest
  issue_code-sent_for token jti resend db wait db' known e = (ground arith, ground arith)

  -- After a code is mailed for a challenge, and as many guesses of six digits as the settings allow
  -- attempts are made at it before its expiry, right or wrong, no answer to the challenge passes
  -- until another code is mailed, not even the code itself, if the keys of the rows are distinct.
  pub issue_code-exhausted :
      (token jti : String) (resend : Bool) (db : Db) (wait : ℕ) (db' : Db)
      (guesses : List (Time × String)) (later : Time) (answer : String)
      → HasKeys db.email_otps
      → count (λ o. o.id == id) db.email_otps ≡ 0
      → challenge_identity c token ≡ ok (user.id, jti)
      → issue_code cfg c now id code delivered user token resend db ≡ ok (wait, db')
      → All (IsGuess cfg c user.id jti (now + seconds cfg.ttl_seconds)) guesses
      → cfg.max_attempts ≤ length guesses
      → is_accepted cfg c user.id jti later answer (after_answers cfg c user.id jti guesses db')
        ≡ false
  issue_code-exhausted token jti resend db wait db' guesses later answer keys fresh known issued
        made many =
      let (same, peppered) = issue_code-sent_for token jti resend db wait db' known issued in
      let sent_db = sent cfg c now id code delivered user jti resend db in
      subst
        (λ d.
          is_accepted cfg c user.id jti later answer (after_answers cfg c user.id jti guesses d)
          ≡ false)
        same
        (exhausted-refused cfg c user.id jti later answer
          (after_answers cfg c user.id jti guesses sent_db)
          (omega (
            arith,
            many,
            sent-weigh jti resend db,
            answers-weigh cfg c user.id jti expiry guesses sent_db
                (sent-IsGuessed jti resend db keys fresh) peppered made,
          )))
