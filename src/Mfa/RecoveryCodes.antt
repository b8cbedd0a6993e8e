-- ===== src/Mfa/RecoveryCodes.antt =====
-- Recovery codes of app/services/mfa_service.py. The codes drawn and the keys of the new rows are
-- parameters, as is the digest.
pub mod Once
use omnibioai_auth.Prelude.{
  ℕ, suc, ◌+◌, String, Bool, true, false, not, ◌&&◌, ◌||◌, Option, none, some, List, [], ◌∷◌, ◌++◌,
  ◌==◌, ◌≈◌, is_none, first, select, count, update_first, update_all, if◌then◌else◌, length,
  stripped, upper,
}
use omnibioai_auth.Models.{
  Time, RecoveryCode, Db, AuditEvent, AuditEventType, Value, log_event,
  mfa_recovery_codes_generated, mfa_recovery_codes_regenerated,
}

abbrev pub unused_of : ℕ → RecoveryCode → Bool
unused_of user_id r = r.user_id == user_id && is_none r.used_at

abbrev pub spend : Time → RecoveryCode → RecoveryCode
spend now r = record r { used_at = some now }

-- The number of codes that it spends, and the rows after it.
unfoldable pub invalidate_recovery_codes : Time → ℕ → Db → ℕ × Db
invalidate_recovery_codes now user_id db = (
  count (unused_of user_id) db.recovery_codes,
  record db { recovery_codes = update_all (unused_of user_id) (spend now) db.recovery_codes },
)

-- `code.strip().upper()` for a code in ASCII.
unfoldable pub normalised : String → String
unfolding stripped upper
normalised code = upper (stripped code)

-- The hexadecimal SHA-256 digest of a text.
abbrev pub CodeHash : Type 0
CodeHash = String → String

unfoldable pub hash_recovery_code : CodeHash → String → String
unfolding normalised
hash_recovery_code sha256 code = sha256 (normalised code)

-- The rows of new codes, with keys from `id` on.
unfoldable pub code_rows : CodeHash → Time → ℕ → ℕ → List String → List RecoveryCode
unfolding hash_recovery_code
code_rows h now user_id id [] = []
code_rows h now user_id id (code ∷ codes) =
    (record {
      id = id;
      user_id = user_id;
      code_hash = hash_recovery_code h code;
      created_at = now;
      used_at = none;
    })
    ∷ code_rows h now user_id (suc id) codes

abbrev issued_event : AuditEventType → ℕ → ℕ → ℕ → AuditEvent
issued_event event_type user_id issued invalidated = record {
  event_type = event_type;
  actor_user_id = some user_id;
  target_user_id = some user_id;
  organization_id = none;
  resource_type = some "user";
  resource_id = Value.number user_id;
  metadata =
      ("codes_issued", Value.number issued) ∷ ("codes_invalidated", Value.number invalidated) ∷ [];
}

unfoldable pub issue_recovery_codes :
    CodeHash → Time → ℕ → List String → AuditEventType → ℕ → Db → List String × Db
unfolding invalidate_recovery_codes log_event code_rows
issue_recovery_codes h now id codes event_type user_id db =
    let (invalidated, db') = invalidate_recovery_codes now user_id db in
    (
      codes,
      log_event (issued_event event_type user_id (length codes) invalidated)
          (record db' { recovery_codes = db'.recovery_codes ++ code_rows h now user_id id codes }),
    )

abbrev pub generate_recovery_codes : CodeHash → Time → ℕ → List String → ℕ → Db → List String × Db
generate_recovery_codes h now id codes =
    issue_recovery_codes h now id codes mfa_recovery_codes_generated

abbrev pub regenerate_recovery_codes : CodeHash → Time → ℕ → List String → ℕ → Db → List String × Db
regenerate_recovery_codes h now id codes =
    issue_recovery_codes h now id codes mfa_recovery_codes_regenerated

abbrev pub recovery_codes_remaining : ℕ → Db → ℕ
recovery_codes_remaining user_id db = count (unused_of user_id) db.recovery_codes

-- The unused rows of the user with the digest of the code.
abbrev pub matching : CodeHash → ℕ → String → RecoveryCode → Bool
matching h user_id code r = unused_of user_id r && r.code_hash ≈ hash_recovery_code h code

unfoldable pub verify_recovery_code : CodeHash → ℕ → String → Db → Option RecoveryCode
verify_recovery_code h user_id code db =
    if code ≈ "" then none else first (matching h user_id code) db.recovery_codes

-- A key of the table, so that the update meets at most one row.
abbrev pub spendable : ℕ → RecoveryCode → Bool
spendable code_id r = r.id == code_id && is_none r.used_at

unfoldable pub try_consume_recovery_code : Time → ℕ → Db → Bool × Db
try_consume_recovery_code now code_id db = (
  count (spendable code_id) db.recovery_codes == 1,
  record db { recovery_codes = update_all (spendable code_id) (spend now) db.recovery_codes },
)
