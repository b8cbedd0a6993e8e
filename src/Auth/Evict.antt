-- ===== src/Auth/Evict.antt =====
-- The loop of app/services/auth_service.py that revokes the sessions of a list, counted.
use omnibioai_auth.Prelude.{
  ℕ, ◌+◌, String, ◌≡◌, ◌≢◌, refl, Bool, true, false, Option, some, List, [], ◌∷◌, arith, ◌≈◌,
  ≈_refl, ≈_ne, first, count, update_first, length, count-update_first_out, first-update_first_key,
  All, All-zip, Distinct,
}
use omnibioai_auth.Models.{Time, Reason, UserSession, Db}
use omnibioai_auth.Session.{is_active, has_id, revoke}
use omnibioai_auth.Session.Revocation.{kill}
use omnibioai_auth.Auth.Refresh.{revoke_family, log_session_revoked, revoke_all_of, revoke_sessions}

abbrev pub id_of : UserSession → String
id_of s = s.session_id

-- The ids of the table are texts that are not empty, each of one row: the column is unique, and
-- holds what `uuid.uuid4()` made.
pub record HasIds (db : Db) : Type 0 where
  pub distinct : Distinct id_of db.sessions
  pub named : All (λ s. (s.session_id ≈ "") ≡ false) db.sessions

-- `s` is the row of its id.
abbrev pub IsStored : List UserSession → UserSession → Type 0
IsStored rows s = (first (has_id s.session_id) rows ≡ some s) × ((s.session_id ≈ "") ≡ false)

pub stored :
    (rows : List UserSession)
    → Distinct id_of rows
    → All (λ s. (s.session_id ≈ "") ≡ false) rows
    → All (IsStored rows) rows
stored [] d n = tt
stored (x ∷ xs) d n = (
  (ground (arith, ≈_refl x.session_id), n.0),
  All-zip (λ y. id_of x ≢ id_of y) (IsStored xs) (IsStored (x ∷ xs)) xs
      (λ y ne st. (ground (arith, ≈_ne x.session_id y.session_id ne, st.0), st.1)) d.0
      (stored xs d.1 n.1),
)

-- A list of active rows, each to be revoked.
module _ (now : Time) (u : ℕ) (r : Reason) (actor : Option ℕ) (q : UserSession → Bool)
    (needs_active : (s : UserSession) → q s ≡ true → is_active s.status ≡ true)
    (killed_out : (s : UserSession) → q (kill now r s) ≡ false) where
  abbrev IsTarget : List UserSession → UserSession → Type 0
  IsTarget rows s = IsStored rows s × (q s ≡ true)

  sessions-revoke_all_of :
      (s : UserSession) (db : Db)
      → IsTarget db.sessions s
      → (revoke_all_of now u (some s.session_id) r actor db).sessions
        ≡ update_first (has_id s.session_id) (kill now r) db.sessions
  unfolding log_session_revoked revoke revoke_family
  sessions-revoke_all_of s db h = ground (arith, h.0.0, h.0.1, needs_active s h.1)

  still-IsTarget :
      (s : UserSession) (rows ss : List UserSession)
      → All (λ y. id_of s ≢ id_of y) ss
      → All (IsTarget rows) ss
      → All (IsTarget (update_first (has_id s.session_id) (kill now r) rows)) ss
  still-IsTarget s rows ss =
      All-zip (λ y. id_of s ≢ id_of y) (IsTarget rows)
        (IsTarget (update_first (has_id s.session_id) (kill now r) rows)) ss
        (λ y ne t. (
          (
            ground (
              arith,
              t.0.0,
              ≈_ne s.session_id y.session_id ne,
              first-update_first_key id_of s.session_id y.session_id (kill now r) rows (λ x. refl),
            ),
            t.0.1,
          ),
          t.1,
        ))

  -- Each round takes one row out of the count.
  pub count-revoke_sessions :
      (ss : List UserSession) (db : Db)
      → Distinct id_of ss
      → All (IsTarget db.sessions) ss
      → count q (revoke_sessions now u r actor ss db).sessions + length ss ≡ count q db.sessions
  unfolding revoke_sessions
  count-revoke_sessions [] db d h = omega arith
  count-revoke_sessions (s ∷ ss) db d h =
      let db1 = revoke_all_of now u (some s.session_id) r actor db in
      let rows : db1.sessions ≡ update_first (has_id s.session_id) (kill now r) db.sessions =
        sessions-revoke_all_of s db h.0 in
      let rest : All (IsTarget db1.sessions) ss =
        rw rows (still-IsTarget s db.sessions ss d.0 h.1) in
      let one : count q db1.sessions + 1 ≡ count q db.sessions = rw rows (
        count-update_first_out q (has_id s.session_id) (kill now r) db.sessions s killed_out h.0.0.0
          h.0.1) in
      omega (arith, count-revoke_sessions ss db1 d.1 rest, one)
