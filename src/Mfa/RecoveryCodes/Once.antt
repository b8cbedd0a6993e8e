-- ===== src/Mfa/RecoveryCodes/Once.antt =====
-- How often the recovery codes of app/services/mfa_service.py are redeemed.
use omnibioai_auth.Prelude.{
  ℕ, suc, ◌+◌, ◌≤◌, String, ◌≡◌, refl, Bool, true, false, ◌&&◌, none, some, List, [], ◌∷◌, arith,
  ◌≈◌, first, count, update_all, if◌then◌else◌, count-append, count-update_all_le, first-holds,
  count-update_all_zero, Option-cases, Bool-cases, inl, inr, ≈_iff,
}
use omnibioai_auth.Models.{Time, RecoveryCode, Db, AuditEventType, log_event}
use omnibioai_auth.Mfa.RecoveryCodes.{
  CodeHash, matching, unused_of, spend, spendable, hash_recovery_code, code_rows,
  invalidate_recovery_codes, issue_recovery_codes, verify_recovery_code, try_consume_recovery_code,
}

-- The part of `verify_mfa_challenge` that redeems a code.
unfoldable pub redeem_recovery_code : CodeHash → Time → ℕ → String → Db → Bool × Db
unfolding verify_recovery_code try_consume_recovery_code
redeem_recovery_code h now user_id code db = elim (verify_recovery_code h user_id code db) [
  | none ↦ (false, db)
  | some row ↦ try_consume_recovery_code now row.id db
]

-- The unused codes of a user with one digest.
abbrev pub redeemable : ℕ → String → RecoveryCode → Bool
redeemable user_id digest r = unused_of user_id r && r.code_hash ≈ digest

module _ (h : CodeHash) (user_id : ℕ) where
  -- How many of the attempts redeem a code with the digest.
  pub redemptions : String → List (Time × String) → Db → ℕ
  redemptions digest [] db = 0
  redemptions digest ((now, code) ∷ attempts) db =
      let (redeemed, db') = redeem_recovery_code h now user_id code db in
      let rest = redemptions digest attempts db' in
      if redeemed && hash_recovery_code h code ≈ digest then suc rest else rest

  -- How many of the codes have the digest.
  pub occurrences : String → List String → ℕ
  occurrences digest [] = 0
  occurrences digest (code ∷ codes) =
      let rest = occurrences digest codes in
      if hash_recovery_code h code ≈ digest then suc rest else rest

  count-spend_one :
      (p q : RecoveryCode → Bool) (now : Time) (id : ℕ) (rows : List RecoveryCode)
      (r : RecoveryCode)
      → ((x : RecoveryCode) → p x ≡ true → q x ≡ true)
      → ((x : RecoveryCode) → q (spend now x) ≡ false)
      → first p rows ≡ some r
      → spendable id r ≡ true
      → count q (update_all (spendable id) (spend now) rows) + 1 ≤ count q rows
  count-spend_one p q now id [] r fits gone e s = cc
  count-spend_one p q now id (x ∷ xs) r fits gone e s = ground (
    arith,
    fits x,
    gone x,
    count-update_all_le q (spendable id) (spend now) xs (λ y k. ground (arith, gone y)),
    count-spend_one p q now id xs r fits gone,
  )

  redeem-count :
      (now : Time) (code digest : String) (db : Db)
      → count
            (redeemable user_id digest)
            (redeem_recovery_code h now user_id code db).1.recovery_codes
          + (if (redeem_recovery_code h now user_id code db).0 && hash_recovery_code h code ≈ digest
              then 1
              else 0)
        ≤ count (redeemable user_id digest) db.recovery_codes
  unfolding redeem_recovery_code verify_recovery_code try_consume_recovery_code
  redeem-count now code digest db =
      elim (Option-cases (first (matching h user_id code) db.recovery_codes)) [
        | inl e ↦ ground arith
        | inr (r, e) ↦ elim (Bool-cases (hash_recovery_code h code ≈ digest)) [
          | inl same ↦ ground (
            arith,
            first-holds (matching h user_id code) db.recovery_codes r e,
            count-spend_one (matching h user_id code) (redeemable user_id digest) now r.id
                db.recovery_codes r
                (λ x k. ground (arith, ≈_iff (hash_recovery_code h code) digest))
                (λ x. ground arith) e,
          )
          | inr other ↦ ground (
            arith,
            count-update_all_le (redeemable user_id digest) (spendable r.id) (spend now)
                db.recovery_codes (λ x k. ground arith),
          )
        ]
      ]

  redemptions-le :
      (digest : String) (attempts : List (Time × String)) (db : Db)
      → redemptions digest attempts db ≤ count (redeemable user_id digest) db.recovery_codes
  unfolding redemptions
  redemptions-le digest [] db = omega arith
  redemptions-le digest ((now, code) ∷ attempts) db = ground (
    arith,
    redeem-count now code digest db,
    redemptions-le digest attempts (redeem_recovery_code h now user_id code db).1,
  )

  count-code_rows :
      (digest : String) (now : Time) (id : ℕ) (codes : List String)
      → count (redeemable user_id digest) (code_rows h now user_id id codes)
        ≡ occurrences digest codes
  unfolding code_rows occurrences
  count-code_rows digest now id [] = refl
  count-code_rows digest now id (code ∷ codes) =
      ground (arith, count-code_rows digest now (suc id) codes)

  -- After a batch of codes is issued to an account, in whatever state its codes were, no sequence
  -- of attempts redeems a digest more often than the batch has a code with that digest: a code of
  -- the batch is redeemed at most once, and one that is not in it never.
  pub issue_recovery_codes-redemptions :
      (now : Time) (id : ℕ) (codes : List String) (event_type : AuditEventType) (db : Db)
      (digest : String) (attempts : List (Time × String))
      → redemptions digest attempts (issue_recovery_codes h now id codes event_type user_id db).1
        ≤ occurrences digest codes
  unfolding issue_recovery_codes invalidate_recovery_codes log_event
  issue_recovery_codes-redemptions now id codes event_type db digest attempts = omega (
    arith,
    redemptions-le digest attempts (issue_recovery_codes h now id codes event_type user_id db).1,
    count-append (redeemable user_id digest)
        (update_all (unused_of user_id) (spend now) db.recovery_codes)
        (code_rows h now user_id id codes),
    count-code_rows digest now id codes,
    count-update_all_zero (redeemable user_id digest) (unused_of user_id) (spend now)
        db.recovery_codes (λ x e. ground arith) (λ x. ground arith),
  )
