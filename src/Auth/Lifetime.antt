-- ===== src/Auth/Lifetime.antt =====
-- However often a session is refreshed, its absolute timeout runs from its creation.
use omnibioai_auth.Prelude.{
  ◌+◌, ◌≤◌, String, ◌≡◌, refl, Bool, true, false, Option, none, some, List, [], ◌∷◌, arith, ≈_iff,
  ◌==◌, first, first-update_first_key, first-append_some, Option-cases, inl, inr,
}
use omnibioai_auth.Models.{Time, seconds, Reason, RefreshToken, UserSession, Db}
use omnibioai_auth.Session.{
  Settings, NewSession, has_id, get_by_family_id, new_row, check_timeout_policy, revoke, touch,
  create,
}
use omnibioai_auth.Session.Revocation.{kill, slide}
use omnibioai_auth.Auth.Refresh.{
  Crypto, Call, TeamChoice, has_hash, revoke_family, log_session_revoked, rotate_refresh_token,
}
use omnibioai_auth.Auth.Issue.{record_login}
use omnibioai_auth.Auth.Trace.{Operation, run}
use omnibioai_auth.Auth.Grant.{rotate_refresh_token-IsGranted}
use omnibioai_auth.Auth.Keeps.{Keeps, Anything, AllAdmit-Anything, run_keeps}

abbrev born_row : Time → Option UserSession → Bool
born_row x none = false
born_row x (some s) = s.created_at == x

-- Session `f` is there, and was created at `x`.
abbrev pub IsBorn : String → Time → Db → Type 0
IsBorn f x db = born_row x (get_by_family_id (some f) db) ≡ true

module _ (f : String) (x : Time) (db : Db) (born : IsBorn f x db) where
  IsBorn-revoke : (now : Time) (fid : Option String) (r : Reason) → IsBorn f x (revoke now fid r db)
  unfolding get_by_family_id revoke
  IsBorn-revoke now none r = born
  IsBorn-revoke now (some i) r = ground (
    arith,
    ≈_iff i f,
    ≈_iff i "",
    ≈_iff f "",
    first-update_first_key (λ s. s.session_id) i f (kill now r) db.sessions (λ s. refl),
  )

  IsBorn-touch :
      (now : Time) (fid : Option String) (expires_at : Time)
      → IsBorn f x (touch now fid expires_at db)
  unfolding get_by_family_id touch
  IsBorn-touch now none expires_at = born
  IsBorn-touch now (some i) expires_at = ground (
    arith,
    ≈_iff i f,
    ≈_iff i "",
    ≈_iff f "",
    first-update_first_key (λ s. s.session_id) i f (slide now expires_at) db.sessions (λ s. refl),
  )

  IsBorn-create : (now : Time) (new : NewSession) → IsBorn f x (create now new db)
  unfolding get_by_family_id create
  IsBorn-create now new = elim (Option-cases (first (has_id f) db.sessions)) [
    | inl missing ↦ ground (arith, ≈_iff f "")
    | inr (s, found) ↦
        ground (
          arith,
          ≈_iff f "",
          first-append_some (has_id f) db.sessions (new_row now new ∷ []) s found,
        )
  ]

IsBorn-Keeps : (c : Crypto) (f : String) (x : Time) → Keeps c Anything (IsBorn f x)
IsBorn-Keeps c f x = record {
  by_revoke_family = λ fid db h. unfold get_by_family_id revoke_family in ground arith;
  by_revoke = λ now fid r db h. IsBorn-revoke f x db h now fid r;
  by_log = λ u fid r actor db h. unfold get_by_family_id log_session_revoked in h;
  by_spend_row = λ token db h. unfold get_by_family_id in h;
  by_touch = λ now fid expires_at db h. IsBorn-touch f x db h now fid expires_at;
  by_create = λ now new db h. IsBorn-create f x db h now new;
  by_succeed = λ call p t user signed db e fresh h. unfold get_by_family_id in h;
  by_record_login = λ call user ctx claims db fresh h. unfold get_by_family_id record_login in h;
}

-- What the timeout policy lets through lies within both limits.
within_limits :
    (cfg : Settings) (now : Time) (s : UserSession)
    → check_timeout_policy cfg now (some s) ≡ none
    → (now ≤ s.created_at + seconds cfg.absolute_timeout_seconds)
      × (now ≤ s.last_activity_at + seconds cfg.idle_timeout_seconds)
unfolding check_timeout_policy
within_limits cfg now s h = ground arith

-- A session that was created at `x` yields no tokens later than its absolute timeout after `x`,
-- whatever logins, refreshes and revocations came between.
pub lifetime_bounded :
    (cfg : Settings) (c : Crypto) (f : String) (x : Time) (ops : List Operation) (db : Db)
    (call : Call) (p : String) (team : TeamChoice) (t : RefreshToken) (issued : String × String)
    → IsBorn f x db
    → first (has_hash (c.sha256 p)) (run cfg c ops db).refresh_tokens ≡ some t
    → t.family_id ≡ some f
    → (rotate_refresh_token cfg c call p team (run cfg c ops db)).0 ≡ some issued
    → call.now ≤ x + seconds cfg.absolute_timeout_seconds
lifetime_bounded cfg c f x ops db call p team t issued h e of_f yields =
    let db' = run cfg c ops db in
    let born : IsBorn f x db' =
      run_keeps cfg c (IsBorn-Keeps c f x) ops db (AllAdmit-Anything cfg c ops db) h in
    let (t', user, g) = rotate_refresh_token-IsGranted cfg c call p team db' issued yields in
    let same : t'.family_id ≡ some f = cc (e, g.known) in
    elim (Option-cases (get_by_family_id (some f) db')) [
      | inl missing ↦ ground arith
      | inr (s, found) ↦
          let here : get_by_family_id t'.family_id db' ≡ some s = rw same found in
          let policy : check_timeout_policy cfg call.now (some s) ≡ none =
            rw (← here) g.within_policy in
          ground (arith, within_limits cfg call.now s policy)
    ]
