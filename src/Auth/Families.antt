-- ===== src/Auth/Families.antt =====
-- A family of refresh tokens has at most one token that is not revoked.
use omnibioai_auth.Prelude.{
  ◌+◌, ◌≤◌, String, ◌≡◌, ◌⊎◌, ◌∙◌, ap, refl, true, Option, none, some, List, [], ◌∷◌, ◌++◌, arith,
  ◌≈◌, ≈_iff, ≈_refl, count, count-append, count-update_first_le, count-update_first_out,
  count-update_all_le, update_first, if◌then◌else◌, Bool-cases, inl, inr,
}
use omnibioai_auth.Models.{RefreshToken, User, Db}
use omnibioai_auth.Session.{Settings, revoke, touch, create}
use omnibioai_auth.Auth.Refresh.{
  Crypto, Call, has_hash, in_family, revoke_family, log_session_revoked, succeed, successor,
  rotate_out, family_or_new,
}
use omnibioai_auth.Auth.Issue.{record_login}
use omnibioai_auth.Auth.Trace.{Operation, AllAdmit, run}
use omnibioai_auth.Auth.Keeps.{Keeps, IsExchangeable, run_keeps}
use omnibioai_auth.Auth.Kill.{live_in}

-- At most one token of each family can be exchanged.
abbrev pub IsSingleLive : Db → Type 0
IsSingleLive db = (f : String) → count (live_in f) db.refresh_tokens ≤ 1

-- What `uuid.uuid4()` made names no family that has a live token.
abbrev pub IsFresh : Call → Db → Type 0
IsFresh call db = count (live_in call.uuid) db.refresh_tokens ≡ 0

-- An added row counts for its own family alone.
count-successor :
    (g : String) (c : Crypto) (call : Call) (f : String) (user : User) (signed : String)
    (ts : List RefreshToken)
    → count (live_in g) (ts ++ successor c call f user signed ∷ [])
      ≡ count (live_in g) ts + (if f ≈ g then 1 else 0)
count-successor g c call f user signed ts =
    ground (arith, count-append (live_in g) ts (successor c call f user signed ∷ []))

-- The successor's family is that of the presented row, or new.
family_or_new-cases :
    (o : Option String) (uuid : String)
    → (family_or_new o uuid ≡ uuid) ⊎ (o ≡ some (family_or_new o uuid))
family_or_new-cases none uuid = inl refl
family_or_new-cases (some f) uuid = elim (Bool-cases (f ≈ "")) [
  | inl empty ↦ inl (ground arith)
  | inr named ↦ inr (ground arith)
]

module _ (c : Crypto) (call : Call) (p : String) (t : RefreshToken) (db : Db)
    (x : IsExchangeable c p t db) (fresh : IsFresh call db) (single : IsSingleLive db) where
  -- The family of the successor has no live token once the presented one is out.
  emptied :
      (fid : String)
      → family_or_new t.family_id call.uuid ≡ fid
      → count
          (live_in fid)
          (update_first (has_hash (c.sha256 p)) (rotate_out call.now fid) db.refresh_tokens)
        ≡ 0
  emptied fid e =
      let spend = rotate_out call.now fid in
      elim (family_or_new-cases t.family_id call.uuid) [
        | inl new ↦
            let none_live : count (live_in fid) db.refresh_tokens ≡ 0 = rw (← e) (rw new fresh) in
            omega (
              arith,
              none_live,
              count-update_first_le (live_in fid) (has_hash (c.sha256 p)) spend db.refresh_tokens
                  (λ r. refl),
            )
        | inr same ↦
            let own : t.family_id ≡ some fid = same ∙ ap some e in
            let live : live_in fid t ≡ true = ground (arith, x.not_revoked, own, ≈_refl fid) in
            omega (
              arith,
              single fid,
              count-update_first_out (live_in fid) (has_hash (c.sha256 p)) spend db.refresh_tokens t
                  (λ r. refl) x.found live,
            )
      ]

  succeed_single :
      (user : User) (signed : String)
      → IsSingleLive (succeed c call p (family_or_new t.family_id call.uuid) user signed db)
  succeed_single user signed g =
      let fid = family_or_new t.family_id call.uuid in
      let ts = update_first (has_hash (c.sha256 p)) (rotate_out call.now fid) db.refresh_tokens in
      ground (
        arith,
        count-successor g c call fid user signed ts,
        ≈_iff fid g,
        emptied fid refl,
        count-update_first_le (live_in g) (has_hash (c.sha256 p)) (rotate_out call.now fid)
            db.refresh_tokens (λ r. refl),
        single g,
      )

single-revoke_family :
    (fid : Option String) (db : Db) → IsSingleLive db → IsSingleLive (revoke_family fid db)
unfolding revoke_family
single-revoke_family none db h f = h f
single-revoke_family (some g) db h f = ground (
  arith,
  h f,
  count-update_all_le (live_in f) (in_family g) (λ r. record r { revoked = true }) db.refresh_tokens
      (λ t k. cc),
)

IsSingleLive-Keeps : (c : Crypto) → Keeps c IsFresh IsSingleLive
IsSingleLive-Keeps c = record {
  by_revoke_family = λ fid db h f. single-revoke_family fid db h f;
  by_revoke = λ now fid r db h f. unfold revoke in ground (arith, h f);
  by_log = λ u fid r actor db h. unfold log_session_revoked in h;
  by_spend_row = λ token db h f. omega (
    arith,
    h f,
    count-update_first_le (live_in f) (has_hash (c.sha256 token)) (λ r. record r { revoked = true })
        db.refresh_tokens (λ t. refl),
  );
  by_touch = λ now fid expires_at db h f. unfold touch in ground (arith, h f);
  by_create = λ now new db h. unfold create in h;
  by_succeed =
      λ call p t user signed db x fresh h. succeed_single c call p t db x fresh h user signed;
  by_record_login = λ call user ctx claims db fresh h f.
      unfold record_login in
      ground (
        arith,
        h f,
        fresh,
        ≈_iff call.uuid f,
        count-successor f c call call.uuid user (call.refresh_token claims) db.refresh_tokens,
      );
}

-- From a database where each family has at most one token that can be exchanged, every run of the
-- service leads to such a database, provided that no `uuid.uuid4()` names a family that has such
-- a token.
pub run-IsSingleLive :
    (cfg : Settings) (c : Crypto) (ops : List Operation) (db : Db)
    → AllAdmit cfg c IsFresh ops db
    → IsSingleLive db
    → IsSingleLive (run cfg c ops db)
run-IsSingleLive cfg c ops db fresh h = run_keeps cfg c (IsSingleLive-Keeps c) ops db fresh h
