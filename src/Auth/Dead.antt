-- ===== src/Auth/Dead.antt =====
-- A revoked session stays revoked, and no token of its family is exchanged again.
use omnibioai_auth.Prelude.{String, ◌≡◌, none, some, List, arith, first}
use omnibioai_auth.Models.{revoked, RefreshToken, UserSession, Db}
use omnibioai_auth.Session.{Settings, get_by_family_id, is_usable}
use omnibioai_auth.Session.Revocation.{get-revoke_dead, get-touch_dead, get-create}
use omnibioai_auth.Auth.Refresh.{
  Crypto, Call, TeamChoice, has_hash, revoke_family, log_session_revoked, rotate_in_session,
  rotate_row, rotate_refresh_token,
}
use omnibioai_auth.Auth.Issue.{record_login}
use omnibioai_auth.Auth.Trace.{Operation, run}
use omnibioai_auth.Auth.Keeps.{Keeps, Anything, AllAdmit-Anything, run_keeps}

-- The row of session `f` is `s`.
abbrev pub IsRow : String → UserSession → Db → Type 0
IsRow f s db = get_by_family_id (some f) db ≡ some s

IsRow-Keeps :
    (c : Crypto) (f : String) (s : UserSession) → s.status ≡ revoked → Keeps c Anything (IsRow f s)
IsRow-Keeps c f s dead = record {
  by_revoke_family = λ fid db h. unfold get_by_family_id revoke_family in ground arith;
  by_revoke = λ now fid r db h. get-revoke_dead f db s h dead now fid r;
  by_log = λ u fid r actor db h. unfold get_by_family_id log_session_revoked in h;
  by_spend_row = λ token db h. unfold get_by_family_id in h;
  by_touch = λ now fid expires_at db h. get-touch_dead f db s h dead now fid expires_at;
  by_create = λ now new db h. get-create f db s h dead now new;
  by_succeed = λ call p t user signed db e fresh h. unfold get_by_family_id in h;
  by_record_login = λ call user ctx claims db fresh h. unfold get_by_family_id record_login in h;
}

module _ (cfg : Settings) (c : Crypto) (f : String) (s : UserSession)
    (dead : s.status ≡ revoked) where
  -- The row of a revoked session, its reason and its instant included, is never written again: no
  -- login, refresh, logout or revocation of any session or account touches it.
  pub dead_row_stays :
      (ops : List Operation) (db : Db)
      → get_by_family_id (some f) db ≡ some s
      → get_by_family_id (some f) (run cfg c ops db) ≡ some s
  dead_row_stays ops db h =
      run_keeps cfg c (IsRow-Keeps c f s dead) ops db (AllAdmit-Anything cfg c ops db) h

  dead_row_refused :
      (call : Call) (token : String) (team : TeamChoice) (t : RefreshToken) (db : Db)
      → get_by_family_id (some f) db ≡ some s
      → t.family_id ≡ some f
      → (rotate_row cfg c call token team t db).0 ≡ none
  unfolding rotate_row rotate_in_session is_usable
  dead_row_refused call token team t db h e =
      let row : get_by_family_id t.family_id db ≡ some s = rw e h in ground (arith, row)

  -- Once a session is revoked, no token of its family yields new tokens, after any further run of
  -- the service: neither a token that was live when it was revoked nor one presented later.
  pub dead_family_refused :
      (ops : List Operation) (db : Db) (call : Call) (token : String) (team : TeamChoice)
      (t : RefreshToken)
      → get_by_family_id (some f) db ≡ some s
      → first (has_hash (c.sha256 token)) (run cfg c ops db).refresh_tokens ≡ some t
      → t.family_id ≡ some f
      → (rotate_refresh_token cfg c call token team (run cfg c ops db)).0 ≡ none
  unfolding rotate_refresh_token
  dead_family_refused ops db call token team t h e of_f =
      rw (e, rotate_refresh_token)
        (dead_row_refused call token team t (run cfg c ops db) (dead_row_stays ops db h) of_f)
