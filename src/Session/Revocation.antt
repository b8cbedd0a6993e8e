-- ===== src/Session/Revocation.antt =====
-- `revoke` and `touch` of app/services/session_service.py: what they do to the row of a family.
use omnibioai_auth.Prelude.{
  String, ◌≡◌, refl, Option, none, some, [], ◌∷◌, arith, ◌≈◌, ≈_iff, first-update_first_key,
  first-append_some, if◌then◌else◌,
}
use omnibioai_auth.Models.{Time, active, revoked, Reason, UserSession, Db}
use omnibioai_auth.Session.{
  is_active, has_id, get_by_family_id, revoke, touch, create, NewSession, new_row,
}

-- The row after a refresh.
abbrev pub slide : Time → Time → UserSession → UserSession
slide now expires_at s = record s {
  last_activity_at = now;
  expires_at = expires_at;
  status = active;
}

-- The row after a revocation.
abbrev pub kill : Time → Reason → UserSession → UserSession
kill now reason s = record s {
  status = revoked;
  revoked_at = some now;
  revoked_reason = some reason;
}

module _ (now later : Time) (r r' : Reason) where
  -- A second revocation, by whomever and for whatever reason, leaves the database as the first left it.
  revoke_idem :
      (fid : Option String) (db : Db)
      → revoke later fid r' (revoke now fid r db) ≡ revoke now fid r db
  unfolding revoke
  revoke_idem none db = refl
  revoke_idem (some f) db = ground (
    arith,
    first-update_first_key (λ t. t.session_id) f f (kill now r) db.sessions (λ s. refl),
    ≈_iff f f,
  )

-- What a family's row is after a revocation of a family.
pub get-revoke :
    (now : Time) (r : Reason) (i j : String) (db : Db) (s : UserSession)
    → get_by_family_id (some j) db ≡ some s
    → get_by_family_id (some j) (revoke now (some i) r db)
      ≡ some (if i ≈ j then (if is_active s.status then kill now r s else s) else s)
unfolding get_by_family_id revoke
get-revoke now r i j db s e = ground (
  arith,
  ≈_iff i j,
  ≈_iff i "",
  ≈_iff j "",
  first-update_first_key (λ t. t.session_id) i j (kill now r) db.sessions (λ t. refl),
)

-- Neither a revocation nor a refresh writes to the row of a revoked session.
module _ (j : String) (db : Db) (s : UserSession) (found : get_by_family_id (some j) db ≡ some s)
    (dead : s.status ≡ revoked) where
  pub get-revoke_dead :
      (now : Time) (fid : Option String) (r : Reason)
      → get_by_family_id (some j) (revoke now fid r db) ≡ some s
  unfolding get_by_family_id revoke
  get-revoke_dead now none r = found
  get-revoke_dead now (some i) r = ground (
    arith,
    ≈_iff i j,
    ≈_iff i "",
    ≈_iff j "",
    first-update_first_key (λ t. t.session_id) i j (kill now r) db.sessions (λ t. refl),
  )

  pub get-touch_dead :
      (now : Time) (fid : Option String) (expires_at : Time)
      → get_by_family_id (some j) (touch now fid expires_at db) ≡ some s
  unfolding get_by_family_id touch
  get-touch_dead now none expires_at = found
  get-touch_dead now (some i) expires_at = ground (
    arith,
    ≈_iff i j,
    ≈_iff i "",
    ≈_iff j "",
    first-update_first_key (λ t. t.session_id) i j (slide now expires_at) db.sessions (λ t. refl),
  )

  pub get-create :
      (now : Time) (new : NewSession) → get_by_family_id (some j) (create now new db) ≡ some s
  unfolding get_by_family_id create
  get-create now new =
      ground (arith, ≈_iff j "", first-append_some (has_id j) db.sessions (new_row now new ∷ []) s)
