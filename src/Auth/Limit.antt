-- ===== src/Auth/Limit.antt =====
-- The cap on concurrent sessions, and the end of every session of an account.
use native.Mathlib.Nat.{le_trans}
use omnibioai_auth.Auth.Claims.{build_user_claims}
use omnibioai_auth.Prelude.{
  ℕ, ◌+◌, ◌-◌, ◌≤◌, ◌≡◌, ◌∙◌, Bool, true, false, ◌&&◌, Option, none, arith, leb, count, length,
  take, select, sort_by, All, All-zip, All-take, All-select, All-select_fits, All-sort_by, Distinct,
  Distinct-take, Distinct-select, Distinct-sort_by, length-select, length-take-le, count-select,
  count-sort_by, count-append_one-le, Bool-cases, inl, inr,
}
use omnibioai_auth.Models.{Time, Reason, concurrent_limit, UserSession, User, Db}
use omnibioai_auth.Session.{Settings, create}
use omnibioai_auth.Session.Revocation.{kill}
use omnibioai_auth.Auth.Refresh.{
  Crypto, Call, open_session_of, revoke_sessions, revoke_all_sessions_for_user,
}
use omnibioai_auth.Auth.Issue.{
  LoginContext, effectively_active, live_sessions, evict_oldest_sessions_over_limit, record_login,
  generate_tokens,
}
use omnibioai_auth.Auth.Evict.{HasIds, IsStored, id_of, stored, count-revoke_sessions}

-- What the cap counts: the account's sessions that are in effect.
abbrev pub in_effect : Settings → Time → ℕ → UserSession → Bool
in_effect cfg now u s = open_session_of u s && effectively_active cfg now s

both_true : (a b : Bool) → a ≡ true → b ≡ true → (a && b) ≡ true
both_true a b p q = ground arith

module _ (cfg : Settings) (now : Time) (u : ℕ) where
  length-live_sessions :
      (db : Db) → length (live_sessions cfg now u db) ≡ count (in_effect cfg now u) db.sessions
  length-live_sessions db =
      let by_age = λ (s : UserSession). s.created_at in
      let opened = select (open_session_of u) db.sessions in
      length-select (effectively_active cfg now) (sort_by by_age opened)
      ∙ count-sort_by by_age (effectively_active cfg now) opened
      ∙ count-select (effectively_active cfg now) (open_session_of u) db.sessions

  live-Distinct : (db : Db) → HasIds db → Distinct id_of (live_sessions cfg now u db)
  live-Distinct db h = Distinct-select id_of (effectively_active cfg now) _ (
      Distinct-sort_by id_of (λ s. s.created_at) _
        (Distinct-select id_of (open_session_of u) db.sessions h.distinct))

  live-IsStored :
      (db : Db)
      → HasIds db
      → All
          (λ s. IsStored db.sessions s × (in_effect cfg now u s ≡ true))
          (live_sessions cfg now u db)
  live-IsStored db h =
      let by_age = λ (s : UserSession). s.created_at in
      let eff = effectively_active cfg now in
      let opened = select (open_session_of u) db.sessions in
      let Open = λ (s : UserSession). open_session_of u s ≡ true in
      let Both = λ (s : UserSession). IsStored db.sessions s × (open_session_of u s ≡ true) in
      let rows : All Both opened =
        All-zip (IsStored db.sessions) Open Both opened (λ s a b. (a, b))
          (All-select (IsStored db.sessions) (open_session_of u) db.sessions
            (stored db.sessions h.distinct h.named))
          (All-select_fits (open_session_of u) db.sessions) in
      All-zip Both (λ s. eff s ≡ true)
        (λ s. IsStored db.sessions s × (in_effect cfg now u s ≡ true))
        (select eff (sort_by by_age opened))
        (λ s a b. (a.0, both_true (open_session_of u s) (eff s) a.1 b))
        (All-select Both eff (sort_by by_age opened) (All-sort_by by_age Both opened rows))
        (All-select_fits eff (sort_by by_age opened))

  killed_not_in_effect :
      (s : UserSession) → in_effect cfg now u (kill now concurrent_limit s) ≡ false
  killed_not_in_effect s = ground arith

  -- After the eviction there is room for one session more.
  evict_room :
      (db : Db)
      → HasIds db
      → 1 ≤ cfg.max_concurrent
      → count (in_effect cfg now u) (evict_oldest_sessions_over_limit cfg now u db).sessions + 1
        ≤ cfg.max_concurrent
  unfolding evict_oldest_sessions_over_limit
  evict_room db h cap =
      let live = live_sessions cfg now u db in
      let excess = length live + 1 - cfg.max_concurrent in
      let n : length live ≡ count (in_effect cfg now u) db.sessions = length-live_sessions db in
      elim (Bool-cases (leb (length live + 1) cfg.max_concurrent)) [
        | inl room ↦ rw (room, evict_oldest_sessions_over_limit) (ground (arith, n))
        | inr full ↦
            let taken : length (take excess live) ≡ excess =
              length-take-le excess live (ground (arith, full)) in
            let evicted : count (in_effect cfg now u)
                    (revoke_sessions now u concurrent_limit none (take excess live) db).sessions
                  + length (take excess live)
                ≡ count (in_effect cfg now u) db.sessions =
              count-revoke_sessions now u concurrent_limit none (in_effect cfg now u)
                (λ s e. ground arith) killed_not_in_effect (take excess live) db
                (Distinct-take id_of excess live (live-Distinct db h))
                (All-take (λ s. IsStored db.sessions s × (in_effect cfg now u s ≡ true)) excess live
                  (live-IsStored db h)) in
            rw (full, evict_oldest_sessions_over_limit) (ground (arith, n, taken, evicted))
      ]

-- After a login the account has at most `SESSION_MAX_CONCURRENT` sessions in effect, the new one
-- included, however many it had before, for a cap of at least one and a table whose session ids
-- are distinct and not empty.
pub login_respects_cap :
    (cfg : Settings) (c : Crypto) (call : Call) (user : User) (ctx : LoginContext) (db : Db)
    → HasIds db
    → 1 ≤ cfg.max_concurrent
    → count (in_effect cfg call.now user.id) (generate_tokens cfg c call user ctx db).1.sessions
      ≤ cfg.max_concurrent
unfolding generate_tokens create
login_respects_cap cfg c call user ctx db h cap =
    let claims = build_user_claims user ctx.auth_method ctx.idp_org_id none none db in
    let logged = record_login c call user ctx claims db in
    let ids : HasIds logged =
      unfold record_login in record { distinct = h.distinct; named = h.named } in
    le_trans
      (count-append_one-le (in_effect cfg call.now user.id)
        (evict_oldest_sessions_over_limit cfg call.now user.id logged).sessions _)
      (evict_room cfg call.now user.id logged ids cap)

-- The end of every session of an account leaves it no session that is not revoked, and returns how
-- many there were, for a table whose session ids are distinct and not empty.
pub end_all_leaves_none :
    (now : Time) (u : ℕ) (r : Reason) (actor : Option ℕ) (db : Db)
    → HasIds db
    → (count (open_session_of u) (revoke_all_sessions_for_user now u r actor db).1.sessions ≡ 0)
      × ((revoke_all_sessions_for_user now u r actor db).0 ≡ count (open_session_of u) db.sessions)
unfolding revoke_all_sessions_for_user
end_all_leaves_none now u r actor db h =
    let opened = select (open_session_of u) db.sessions in
    let rows : All (λ s. IsStored db.sessions s × (open_session_of u s ≡ true)) opened =
      All-zip (IsStored db.sessions) (λ s. open_session_of u s ≡ true)
        (λ s. IsStored db.sessions s × (open_session_of u s ≡ true)) opened (λ s a b. (a, b))
        (All-select (IsStored db.sessions) (open_session_of u) db.sessions
          (stored db.sessions h.distinct h.named))
        (All-select_fits (open_session_of u) db.sessions) in
    let n : length opened ≡ count (open_session_of u) db.sessions =
      length-select (open_session_of u) db.sessions in
    (
      omega (
        arith,
        n,
        count-revoke_sessions now u r actor (open_session_of u) (λ s e. ground arith)
            (λ s. ground arith) opened db
            (Distinct-select id_of (open_session_of u) db.sessions h.distinct) rows,
      ),
      n,
    )
