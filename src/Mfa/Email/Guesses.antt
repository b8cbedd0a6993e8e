-- ===== src/Mfa/Email/Guesses.antt =====
-- What guesses at a mailed code of app/services/email_mfa_service.py leave of its attempts.
use omnibioai_auth.Prelude.{
  ℕ, All, length, ◌+◌, ◌-◌, ◌≤◌, ◌<◌, String, ◌≡◌, refl, Bool, true, false, not, ◌&&◌, some, List,
  [], ◌∷◌, arith, ltb, ◌==◌, ◌≈◌, count, select, if◌then◌else◌, ok, err, count-update_all_keep,
  Option-cases, Bool-cases, inl, inr,
}
use omnibioai_auth.Models.{Time, EmailOtp, Db}
use omnibioai_auth.Mfa.Totp.{is_code}
use omnibioai_auth.Mfa.Email.{
  EmailSettings, EmailCrypto, keyed, email_digest, latest, open_for, open_row, miss, claimable,
  answer_row, verify_code,
}
use omnibioai_auth.Mfa.Email.Weights.{
  weigh, latest-select-count, latest-select-fits, weigh-drop, count-update_all-le, weigh-positive,
  weigh-zero, count-split, latest-none, count-select_none,
}

-- No two rows have one key.
abbrev pub HasKeys : List EmailOtp → Type 0
HasKeys os = (id : ℕ) → count (λ o. o.id == id) os ≤ 1

module _ (cfg : EmailSettings) (c : EmailCrypto) (user_id : ℕ) (jti : String) where
  -- The guesses that a row has left.
  abbrev pub guesses_left : EmailOtp → ℕ
  guesses_left o = if open_for user_id jti o then cfg.max_attempts - o.attempts else 0

  -- The answer passes.
  unfoldable pub is_accepted : Time → String → Db → Bool
  unfolding verify_code
  is_accepted now code db = elim (verify_code cfg c now user_id jti code db) [
    | ok r ↦ r.0
    | err _ ↦ false
  ]

  -- The rows after a call; a call that raises changes nothing.
  unfoldable pub after_answer : Time → String → Db → Db
  unfolding verify_code
  after_answer now code db = elim (verify_code cfg c now user_id jti code db) [
    | ok r ↦ r.1
    | err _ ↦ db
  ]

  -- The rows after answers, each with its time and its code.
  unfoldable pub after_answers : List (Time × String) → Db → Db
  unfolding after_answer
  after_answers [] db = db
  after_answers ((now, code) ∷ answers) db = after_answers answers (after_answer now code db)

  -- What holds while a mailed code that lasts until `expiry` is being guessed: keys are distinct,
  -- and at most one code answers the challenge, which does not end before that.
  pub record IsGuessed (expiry : Time) (os : List EmailOtp) : Type 0 where
    pub keys : HasKeys os
    pub one_open : count (open_for user_id jti) os ≤ 1
    pub lasting : count (λ o. open_for user_id jti o && ltb o.expires_at expiry) os ≡ 0

  count-claimable-le :
      (now : Time) (id : ℕ) (candidate : String) (os : List EmailOtp)
      → count (claimable cfg now id candidate) os ≤ count (λ o. o.id == id) os
  count-claimable-le now id candidate [] = omega arith
  count-claimable-le now id candidate (o ∷ os) =
      ground (arith, count-claimable-le now id candidate os)

  answer_row-weigh :
      (now : Time) (o : EmailOtp) (candidate : String) (db : Db)
      → HasKeys db.email_otps
      → latest (select (open_for user_id jti) db.email_otps) ≡ some o
      → o.attempts < cfg.max_attempts
      → now < o.expires_at
      → weigh guesses_left (answer_row cfg now o candidate db).1.email_otps + 1
        ≤ weigh guesses_left db.email_otps
  unfolding answer_row
  answer_row-weigh now o candidate db keys found few early =
      let fits = latest-select-fits (open_for user_id jti) db.email_otps o found in
      elim (Bool-cases (o.code_hash ≈ candidate)) [
        | inl same ↦
            let here : claimable cfg now o.id candidate o ≡ true = ground arith in
            ground (
              arith,
              keys o.id,
              count-claimable-le now o.id candidate db.email_otps,
              latest-select-count (open_for user_id jti) (claimable cfg now o.id candidate)
                  db.email_otps o found here,
              weigh-drop guesses_left (open_for user_id jti) (claimable cfg now o.id candidate)
                  (λ x. record x { consumed_at = some now }) db.email_otps o (λ x h. ground arith)
                  found here (ground arith),
            )
        | inr other ↦ ground (
          arith,
          weigh-drop guesses_left (open_for user_id jti) (open_row cfg o.id) (miss cfg now)
              db.email_otps o (λ x h. ground arith) found (ground arith) (ground arith),
        )
      ]

  answer_row-le :
      (q : EmailOtp → Bool) (now : Time) (o : EmailOtp) (candidate : String) (db : Db)
      → ((x : EmailOtp) → q (record x { consumed_at = some now }) ≡ true → q x ≡ true)
      → ((x : EmailOtp) → open_row cfg o.id x ≡ true → q (miss cfg now x) ≡ true → q x ≡ true)
      → count q (answer_row cfg now o candidate db).1.email_otps ≤ count q db.email_otps
  unfolding answer_row
  answer_row-le q now o candidate db consumed missed = ground (
    arith,
    count-update_all-le q (claimable cfg now o.id candidate)
        (λ x. record x { consumed_at = some now }) db.email_otps (λ x h. consumed x),
    count-update_all-le q (open_row cfg o.id) (miss cfg now) db.email_otps missed,
  )

  after_answer-le :
      (q : EmailOtp → Bool) (now : Time) (code : String) (db : Db)
      → ((x : EmailOtp) → q (record x { consumed_at = some now }) ≡ true → q x ≡ true)
      → ((o x : EmailOtp) → open_row cfg o.id x ≡ true → q (miss cfg now x) ≡ true → q x ≡ true)
      → count q (after_answer now code db).email_otps ≤ count q db.email_otps
  unfolding after_answer verify_code email_digest
  after_answer-le q now code db consumed missed =
      elim (Option-cases (latest (select (open_for user_id jti) db.email_otps))) [
        | inl e ↦ ground arith
        | inr (o, e) ↦
            ground
              (arith, answer_row-le q now o (keyed cfg c user_id jti code) db consumed (missed o))
      ]

  answer_row-keys :
      (now : Time) (o : EmailOtp) (candidate : String) (db : Db) (id : ℕ)
      → count (λ x. x.id == id) (answer_row cfg now o candidate db).1.email_otps
        ≡ count (λ x. x.id == id) db.email_otps
  unfolding answer_row
  answer_row-keys now o candidate db id = ground (
    arith,
    count-update_all_keep (λ x. x.id == id) (claimable cfg now o.id candidate)
        (λ x. record x { consumed_at = some now }) db.email_otps (λ x h. refl),
    count-update_all_keep (λ x. x.id == id) (open_row cfg o.id) (miss cfg now) db.email_otps
        (λ x h. refl),
  )

  answer-HasKeys :
      (now : Time) (code : String) (db : Db)
      → HasKeys db.email_otps
      → HasKeys (after_answer now code db).email_otps
  unfolding after_answer verify_code email_digest
  answer-HasKeys now code db keys id =
      elim (Option-cases (latest (select (open_for user_id jti) db.email_otps))) [
        | inl e ↦ ground (arith, keys id)
        | inr (o, e) ↦
            ground (arith, keys id, answer_row-keys now o (keyed cfg c user_id jti code) db id)
      ]

  IsGuessed-after_answer :
      (expiry now : Time) (code : String) (db : Db)
      → IsGuessed expiry db.email_otps
      → IsGuessed expiry (after_answer now code db).email_otps
  IsGuessed-after_answer expiry now code db g = record {
    keys = answer-HasKeys now code db g.keys;
    one_open = omega (
      arith,
      g.one_open,
      after_answer-le (open_for user_id jti) now code db (λ x h. ground arith)
          (λ o x h k. ground arith),
    );
    lasting = omega (
      arith,
      g.lasting,
      after_answer-le (λ o. open_for user_id jti o && ltb o.expires_at expiry) now code db
          (λ x h. ground arith) (λ o x h k. ground arith),
    );
  }

  -- A guess in time takes one of the guesses that are left.
  answer-weigh :
      (expiry now : Time) (code : String) (db : Db)
      → IsGuessed expiry db.email_otps
      → (cfg.pepper ≈ "") ≡ false
      → is_code code ≡ true
      → now < expiry
      → weigh guesses_left (after_answer now code db).email_otps
        ≤ weigh guesses_left db.email_otps - 1
  unfolding after_answer verify_code email_digest
  answer-weigh expiry now code db g peppered six early =
      let of_challenge = open_for user_id jti in
      elim (Option-cases (latest (select of_challenge db.email_otps))) [
        | inl e ↦
            let closed = count-select_none of_challenge db.email_otps (latest-none _ e) in
            let split =
              count-split of_challenge (λ o. ltb 0 (guesses_left o)) db.email_otps
                (λ x h. ground arith) in
            ground (arith, e, weigh-zero guesses_left db.email_otps (omega (arith, closed, split)))
        | inr (o, e) ↦
            let late =
              latest-select-count of_challenge (λ x. of_challenge x && ltb x.expires_at expiry)
                db.email_otps o e in
            let fits = latest-select-fits of_challenge db.email_otps o e in
            let in_time : expiry ≤ o.expires_at = ground (arith, late, fits, g.lasting) in
            elim (Bool-cases (ltb o.attempts cfg.max_attempts)) [
              | inl few ↦ ground (
                arith,
                e,
                few,
                in_time,
                peppered,
                six,
                answer_row-weigh now o (keyed cfg c user_id jti code) db g.keys e,
              )
              | inr spent ↦
                  let split =
                    count-split of_challenge (λ x. ltb 0 (guesses_left x)) db.email_otps
                      (λ x h. ground arith) in
                  let here =
                    latest-select-count of_challenge
                      (λ x. of_challenge x && not (ltb 0 (guesses_left x))) db.email_otps o e
                      (ground (arith, fits, spent)) in
                  let nothing_left =
                    weigh-zero guesses_left db.email_otps
                      (omega (arith, split, here, g.one_open)) in
                  ground (arith, e, spent, nothing_left)
            ]
      ]

  -- A guess: six digits, before the expiry.
  abbrev pub IsGuess : Time → Time × String → Type 0
  IsGuess expiry (now, code) = (is_code code ≡ true) × (now < expiry)

  pub answers-weigh :
      (expiry : Time) (guesses : List (Time × String)) (db : Db)
      → IsGuessed expiry db.email_otps
      → (cfg.pepper ≈ "") ≡ false
      → All (IsGuess expiry) guesses
      → weigh guesses_left (after_answers guesses db).email_otps
        ≤ weigh guesses_left db.email_otps - length guesses
  unfolding after_answers
  answers-weigh expiry [] db g peppered made = omega arith
  answers-weigh expiry ((now, code) ∷ guesses) db g peppered made = omega (
    arith,
    answer-weigh expiry now code db g peppered made.0.0 made.0.1,
    answers-weigh expiry guesses (after_answer now code db)
        (IsGuessed-after_answer expiry now code db g) peppered made.1,
  )

  -- Without a guess left no answer passes.
  pub exhausted-refused :
      (now : Time) (code : String) (db : Db)
      → weigh guesses_left db.email_otps ≡ 0
      → is_accepted now code db ≡ false
  unfolding is_accepted verify_code email_digest
  exhausted-refused now code db none_left =
      let of_challenge = open_for user_id jti in
      elim (Option-cases (latest (select of_challenge db.email_otps))) [
        | inl e ↦ ground (arith, e)
        | inr (o, e) ↦
            let fits = latest-select-fits of_challenge db.email_otps o e in
            let left =
              latest-select-count of_challenge (λ x. ltb 0 (guesses_left x)) db.email_otps o e in
            let spent : cfg.max_attempts ≤ o.attempts =
              ground (arith, fits, left, none_left, weigh-positive guesses_left db.email_otps) in
            ground (arith, e, spent)
      ]
