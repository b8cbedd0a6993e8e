-- ===== src/Auth/Keeps.antt =====
-- An invariant of the database is kept by every operation once it is kept by the primitive writes
-- that the operations of app/services/auth_service.py are made of.
use omnibioai_auth.Prelude.{
  ℕ, String, ◌≡◌, true, false, Option, none, some, List, [], ◌∷◌, is_none, leb, ltb, ◌+◌, ◌==◌, ◌≈◌,
  first, length, Option-cases, Bool-cases, inl, inr, select,
}
use omnibioai_auth.Models.{
  Time, Reason, user_logout, user_revoked, concurrent_limit, reuse_detected, RefreshToken,
  UserSession, User, Db,
}
use omnibioai_auth.Session.{
  Settings, NewSession, get_by_family_id, is_usable, check_timeout_policy, revoke, touch, create,
}
use omnibioai_auth.Auth.Claims.{Claims}
use omnibioai_auth.Auth.Refresh.{
  Crypto, Call, TeamChoice, has_hash, spend_row, succeed, family_or_new, revoke_family,
  log_session_revoked, revoke_all_of, revoke_token, revoke_session, revoke_sessions,
  revoke_all_sessions_for_user, exchange, rotate_for_user, rotate_in_session, rotate_row,
  rotate_refresh_token, open_session_of,
}
use omnibioai_auth.Auth.Issue.{
  LoginContext, evict_oldest_sessions_over_limit, record_login, generate_tokens, live_sessions,
}
use omnibioai_auth.Auth.Trace.{
  Operation, login, refresh, logout, end_session, end_all, Admits, AllAdmit, step, run,
}

-- What the successor of a token is added under: the presented row is neither spent nor revoked.
pub record IsExchangeable (c : Crypto) (presented : String) (t : RefreshToken) (db : Db)
    : Type 0 where
  pub found : first (has_hash (c.sha256 presented)) db.refresh_tokens ≡ some t
  pub not_rotated : is_none t.rotated_at ≡ true
  pub not_revoked : t.revoked ≡ false

pub record Keeps {ℓ} (c : Crypto) (Ok : Call → Db → Type 0) (P : Db → Type ℓ) : Type ℓ where
  pub by_revoke_family : (fid : Option String) (db : Db) → P db → P (revoke_family fid db)
  pub by_revoke :
      (now : Time) (fid : Option String) (r : Reason) (db : Db) → P db → P (revoke now fid r db)
  pub by_log :
      (u : ℕ) (fid : Option String) (r : Reason) (actor : Option ℕ) (db : Db)
      → P db
      → P (log_session_revoked u fid r actor db)
  pub by_spend_row : (token : String) (db : Db) → P db → P (spend_row c token db)
  pub by_touch :
      (now : Time) (fid : Option String) (expires_at : Time) (db : Db)
      → P db
      → P (touch now fid expires_at db)
  pub by_create : (now : Time) (new : NewSession) (db : Db) → P db → P (create now new db)
  pub by_succeed :
      (call : Call) (presented : String) (t : RefreshToken) (user : User) (signed : String)
      (db : Db)
      → IsExchangeable c presented t db
      → Ok call db
      → P db
      → P (succeed c call presented (family_or_new t.family_id call.uuid) user signed db)
  pub by_record_login :
      (call : Call) (user : User) (ctx : LoginContext) (claims : Claims) (db : Db)
      → Ok call db
      → P db
      → P (record_login c call user ctx claims db)

module _ {ℓ} (cfg : Settings) (c : Crypto) {Ok : Call → Db → Type 0} {P : Db → Type ℓ}
    (k : Keeps c Ok P) where
  revoke_all_of_keeps :
      (now : Time) (u : ℕ) (fid : Option String) (r : Reason) (actor : Option ℕ) (db : Db)
      → P db
      → P (revoke_all_of now u fid r actor db)
  revoke_all_of_keeps now u fid r actor db h =
      k.by_log u fid r actor _ (k.by_revoke now fid r _ (k.by_revoke_family fid db h))

  revoke_sessions_keeps :
      (now : Time) (u : ℕ) (r : Reason) (actor : Option ℕ) (ss : List UserSession) (db : Db)
      → P db
      → P (revoke_sessions now u r actor ss db)
  unfolding revoke_sessions
  revoke_sessions_keeps now u r actor [] db h = h
  revoke_sessions_keeps now u r actor (x ∷ ss) db h =
      revoke_sessions_keeps now u r actor ss _
        (revoke_all_of_keeps now u (some x.session_id) r actor db h)

  logout_keeps : (now : Time) (token : String) (db : Db) → P db → P (revoke_token c now token db)
  unfolding revoke_token
  logout_keeps now token db h =
      elim (Option-cases (first (has_hash (c.sha256 token)) db.refresh_tokens)) [
        | inl unknown ↦ rw (unknown, revoke_token) h
        | inr (t, e) ↦
            rw (e, revoke_token)
              (k.by_log t.user_id t.family_id user_logout none _
                (k.by_revoke now t.family_id user_logout _ (k.by_spend_row token db h)))
      ]

  exchange_keeps :
      (call : Call) (p : String) (t : RefreshToken) (session : Option UserSession) (m : String)
      (user : User) (claims : Claims) (db : Db)
      → IsExchangeable c p t db
      → Ok call db
      → P db
      → P (exchange c call p t session m user claims db)
  unfolding exchange
  exchange_keeps call p t (some x) m user claims db found fresh h =
      k.by_touch _ _ _ _ (k.by_succeed call p t user (call.refresh_token claims) db found fresh h)
  exchange_keeps call p t none m user claims db found fresh h =
      k.by_create _ _ _ (k.by_succeed call p t user (call.refresh_token claims) db found fresh h)

  rotate_for_user_keeps :
      (call : Call) (p : String) (team : TeamChoice) (t : RefreshToken)
      (session : Option UserSession) (db : Db)
      → IsExchangeable c p t db
      → Ok call db
      → P db
      → P (rotate_for_user c call p team t session db).1
  unfolding rotate_for_user
  rotate_for_user_keeps call p team t session db found fresh h =
      elim (Option-cases (first (λ u. u.id == t.user_id) db.users)) [
        | inl unknown ↦ rw (unknown, rotate_for_user) h
        | inr (user, e) ↦ elim (Bool-cases (user.status ≈ "active")) [
          | inl active ↦
              rw (e, rotate_for_user)
                (rw active (exchange_keeps call p t session _ user _ db found fresh h))
          | inr suspended ↦ rw (e, rotate_for_user) (rw suspended h)
        ]
      ]

  rotate_in_session_keeps :
      (call : Call) (p : String) (team : TeamChoice) (t : RefreshToken) (db : Db)
      → IsExchangeable c p t db
      → Ok call db
      → P db
      → P (rotate_in_session cfg c call p team t db).1
  unfolding rotate_in_session
  rotate_in_session_keeps call p team t db found fresh h =
      elim (Bool-cases (is_usable call.now (get_by_family_id t.family_id db))) [
        | inr unusable ↦ rw (unusable, rotate_in_session) h
        | inl usable ↦
            elim (Option-cases
              (check_timeout_policy cfg call.now (get_by_family_id t.family_id db))) [
                | inl within ↦
                    rw (usable, rotate_in_session)
                      (rw within (rotate_for_user_keeps call p team t _ db found fresh h))
                | inr (reason, e) ↦
                    rw (usable, rotate_in_session)
                      (rw e (revoke_all_of_keeps call.now t.user_id t.family_id reason none db h))
              ]
      ]

  rotate_row_keeps :
      (call : Call) (p : String) (team : TeamChoice) (t : RefreshToken) (db : Db)
      → first (has_hash (c.sha256 p)) db.refresh_tokens ≡ some t
      → Ok call db
      → P db
      → P (rotate_row cfg c call p team t db).1
  unfolding rotate_row
  rotate_row_keeps call p team t db e fresh h = elim (Bool-cases (is_none t.rotated_at)) [
    | inr rotated ↦
        rw (rotated, rotate_row)
          (revoke_all_of_keeps call.now t.user_id t.family_id reuse_detected none db h)
    | inl not_rotated ↦ elim (Bool-cases t.revoked) [
      | inl gone ↦ rw (not_rotated, rotate_row) (rw gone h)
      | inr live ↦ elim (Bool-cases (ltb t.expires_at call.now)) [
        | inl old ↦ rw (not_rotated, rotate_row) (rw live (rw old h))
        | inr current ↦
            rw (not_rotated, rotate_row)
              (rw live (
                rw current (
                  rotate_in_session_keeps call p team t db
                    (record { found = e; not_rotated = not_rotated; not_revoked = live }) fresh h)))
      ]
    ]
  ]

  refresh_keeps :
      (call : Call) (p : String) (team : TeamChoice) (db : Db)
      → Ok call db
      → P db
      → P (rotate_refresh_token cfg c call p team db).1
  unfolding rotate_refresh_token
  refresh_keeps call p team db fresh h =
      elim (Option-cases (first (has_hash (c.sha256 p)) db.refresh_tokens)) [
        | inl unknown ↦ rw (unknown, rotate_refresh_token) h
        | inr (t, e) ↦ rw (e, rotate_refresh_token) (rotate_row_keeps call p team t db e fresh h)
      ]

  login_keeps :
      (call : Call) (user : User) (ctx : LoginContext) (db : Db)
      → Ok call db
      → P db
      → P (generate_tokens cfg c call user ctx db).1
  unfolding generate_tokens
  login_keeps call user ctx db fresh h =
      k.by_create _ _ _ (evict_keeps _ (k.by_record_login call user ctx _ db fresh h))
    where
      evict_keeps : (s : Db) → P s → P (evict_oldest_sessions_over_limit cfg call.now user.id s)
      evict_keeps s hs =
          elim (Bool-cases
            (leb (length (live_sessions cfg call.now user.id s) + 1) cfg.max_concurrent)) [
              | inl room ↦ rw (room, evict_oldest_sessions_over_limit) hs
              | inr full ↦
                  rw (full, evict_oldest_sessions_over_limit)
                    (revoke_sessions_keeps call.now user.id concurrent_limit none _ s hs)
            ]

  end_session_keeps : (now : Time) (sid : String) (db : Db) → P db → P (revoke_session now sid db).1
  unfolding revoke_session
  end_session_keeps now sid db h = elim (Option-cases (get_by_family_id (some sid) db)) [
    | inl unknown ↦ rw (unknown, revoke_session) h
    | inr (s, e) ↦
        rw (e, revoke_session) (revoke_all_of_keeps now s.user_id (some sid) user_revoked none db h)
  ]

  -- The rule: what the primitive writes keep, every operation keeps, on all its branches.
  pub step_keeps : (op : Operation) (db : Db) → Admits Ok op db → P db → P (step cfg c op db)
  unfolding step revoke_all_sessions_for_user
  step_keeps (login call user ctx) db fresh h = login_keeps call user ctx db fresh h
  step_keeps (refresh call token team) db fresh h = refresh_keeps call token team db fresh h
  step_keeps (logout now token) db fresh h = logout_keeps now token db h
  step_keeps (end_session now sid) db fresh h = end_session_keeps now sid db h
  step_keeps (end_all now user_id reason actor) db fresh h =
      revoke_sessions_keeps now user_id reason actor (select (open_session_of user_id) db.sessions)
        db h

  pub run_keeps :
      (ops : List Operation) (db : Db) → AllAdmit cfg c Ok ops db → P db → P (run cfg c ops db)
  unfolding run
  run_keeps [] db fresh h = h
  run_keeps (op ∷ ops) db fresh h =
      run_keeps ops (step cfg c op db) fresh.1 (step_keeps op db fresh.0 h)

-- No condition at all.
abbrev pub Anything : Call → Db → Type 0
Anything call db = Unit

pub AllAdmit-Anything :
    (cfg : Settings) (c : Crypto) (ops : List Operation) (db : Db) → AllAdmit cfg c Anything ops db
AllAdmit-Anything cfg c [] db = tt
AllAdmit-Anything cfg c (login call user ctx ∷ ops) db = (tt, AllAdmit-Anything cfg c ops _)
AllAdmit-Anything cfg c (refresh call token team ∷ ops) db = (tt, AllAdmit-Anything cfg c ops _)
AllAdmit-Anything cfg c (logout now token ∷ ops) db = (tt, AllAdmit-Anything cfg c ops _)
AllAdmit-Anything cfg c (end_session now sid ∷ ops) db = (tt, AllAdmit-Anything cfg c ops _)
AllAdmit-Anything cfg c (end_all now u r a ∷ ops) db = (tt, AllAdmit-Anything cfg c ops _)
