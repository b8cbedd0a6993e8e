-- ===== src/Auth/Refresh.antt =====
-- Revocation and rotation of refresh tokens in app/services/auth_service.py.
use omnibioai_auth.Prelude.{
  ℕ, ◌+◌, String, Bool, true, false, not, ◌&&◌, Option, none, some, List, [], ◌∷◌, ◌++◌, is_none,
  ltb, ◌==◌, ◌≈◌, holds, first, select, update_first, update_all, if◌then◌else◌, length,
}
use omnibioai_auth.Models.{
  Time, seconds, RefreshToken, UserSession, Reason, user_logout, user_revoked, reuse_detected, User,
  Value, session_revoked, Db, log_event, reason_text,
}
use omnibioai_auth.Session.{
  Settings, is_active, family, get_by_family_id, is_usable, check_timeout_policy, touch, revoke,
  create,
}
use omnibioai_auth.Auth.Claims.{Claims, build_user_claims}

-- The claims of an old token that a rotation reads.
pub record OldClaims : Type 0 where
  pub auth_method : Option String
  pub idp_org_id : Option ℕ
  pub team_id : Option ℕ

-- What lies outside of the program: hashing, and the verification of a signed token, which is
-- `none` where `decode_token` raises.
pub record Crypto : Type 0 where
  pub sha256 : String → String
  pub decode_token : String → Option OldClaims

-- One request: its clock, the value of `uuid.uuid4()`, and the tokens that are signed in it with
-- their random ids.
pub record Call : Type 0 where
  pub now : Time
  pub uuid : String
  pub access_token : Claims → String
  pub refresh_token : Claims → String

abbrev pub refresh_token_ttl_days : ℕ
refresh_token_ttl_days = 7

-- `timedelta(days=REFRESH_TOKEN_TTL_DAYS)`
abbrev pub refresh_ttl : ℕ
refresh_ttl = seconds 604800

abbrev pub has_hash : String → RefreshToken → Bool
has_hash h t = t.token_hash ≈ h

abbrev pub in_family : String → RefreshToken → Bool
in_family f t = holds t.family_id f

unfoldable pub log_session_revoked : ℕ → Option String → Reason → Option ℕ → Db → Db
unfolding log_event reason_text
log_session_revoked user_id session_id reason actor = log_event (record {
  event_type = session_revoked;
  actor_user_id = elim actor [ none ↦ some user_id | some a ↦ some a ];
  target_user_id = some user_id;
  organization_id = none;
  resource_type = some "session";
  resource_id = elim session_id [ none ↦ Value.null | some s ↦ Value.text s ];
  metadata = ("reason", Value.text (reason_text reason)) ∷ [];
})

-- Every token of the family; NULL and the empty text are no family.
unfoldable pub revoke_family : Option String → Db → Db
revoke_family family_id db = elim (family family_id) [
  | none ↦ db
  | some f ↦ record db {
    refresh_tokens = update_all (in_family f) (λ t. record t { revoked = true }) db.refresh_tokens;
  }
]

-- The three steps of every revocation but logout.
abbrev pub revoke_all_of : Time → ℕ → Option String → Reason → Option ℕ → Db → Db
revoke_all_of now user_id family_id reason actor db =
    log_session_revoked user_id family_id reason actor
      (revoke now family_id reason (revoke_family family_id db))

abbrev pub spend_row : Crypto → String → Db → Db
spend_row c token db = record db {
  refresh_tokens =
      update_first (has_hash (c.sha256 token)) (λ r. record r { revoked = true }) db.refresh_tokens;
}

-- Logout: the presented row alone, and its session.
unfoldable pub revoke_token : Crypto → Time → String → Db → Db
unfolding log_session_revoked
revoke_token c now token db = elim (first (has_hash (c.sha256 token)) db.refresh_tokens) [
  | none ↦ db
  | some t ↦
      log_session_revoked t.user_id t.family_id user_logout none
        (revoke now t.family_id user_logout (spend_row c token db))
]

unfoldable pub get_session_for_refresh_token : Crypto → String → Db → Option UserSession
get_session_for_refresh_token c token db =
    elim (first (has_hash (c.sha256 token)) db.refresh_tokens) [
      | none ↦ none
      | some t ↦ get_by_family_id t.family_id db
    ]

unfoldable pub revoke_session : Time → String → Db → Bool × Db
unfolding log_session_revoked revoke_family
revoke_session now session_id db = elim (get_by_family_id (some session_id) db) [
  | none ↦ (false, db)
  | some s ↦ (true, revoke_all_of now s.user_id (some session_id) user_revoked none db)
]

-- The loop over the sessions that were not revoked when it began.
unfoldable pub revoke_sessions : Time → ℕ → Reason → Option ℕ → List UserSession → Db → Db
unfolding log_session_revoked revoke_family
revoke_sessions now user_id reason actor [] db = db
revoke_sessions now user_id reason actor (s ∷ ss) db =
    revoke_sessions now user_id reason actor ss
      (revoke_all_of now user_id (some s.session_id) reason actor db)

abbrev pub open_session_of : ℕ → UserSession → Bool
open_session_of user_id s = s.user_id == user_id && is_active s.status

-- The number is that of the rounds of the loop.
unfoldable pub revoke_all_sessions_for_user : Time → ℕ → Reason → Option ℕ → Db → ℕ × Db
unfolding revoke_sessions
revoke_all_sessions_for_user now user_id reason actor db =
    let sessions = select (open_session_of user_id) db.sessions in
    (length sessions, revoke_sessions now user_id reason actor sessions db)

-- `team_id` of `rotate_refresh_token`: left out, or given, also as `None`.
pub data TeamChoice : Type 0 where
  unset : TeamChoice
  switch_to : Option ℕ → TeamChoice

abbrev no_claims : OldClaims
no_claims = record { auth_method = none; idp_org_id = none; team_id = none }

-- `old_claims`, empty where the token does not decode.
abbrev pub old_claims : Crypto → String → OldClaims
old_claims c token = elim (c.decode_token token) [ none ↦ no_claims | some claims ↦ claims ]

-- `old_claims.get("auth_method") or "password"`
abbrev pub old_method : OldClaims → String
old_method claims = elim claims.auth_method [
  | none ↦ "password"
  | some m ↦ if m ≈ "" then "password" else m
]

-- `db_token.family_id or str(uuid.uuid4())`
abbrev pub family_or_new : Option String → String → String
family_or_new family_id uuid = elim (family family_id) [ none ↦ uuid | some f ↦ f ]

-- The claims that a rotation signs.
unfoldable pub fresh_claims : Crypto → String → TeamChoice → User → Db → Claims
fresh_claims c presented team user db =
    let old = old_claims c presented in
    let requested : Option ℕ = elim team [ unset ↦ old.team_id | switch_to t ↦ t ] in
    build_user_claims user (old_method old) old.idp_org_id requested none db

-- The presented row, after its exchange.
abbrev pub rotate_out : Time → String → RefreshToken → RefreshToken
rotate_out now family_id t = record t {
  revoked = true;
  rotated_at = some now;
  family_id = some family_id;
}

abbrev pub successor : Crypto → Call → String → User → String → RefreshToken
successor c call family_id user signed = record {
  user_id = user.id;
  token = signed;
  token_hash = c.sha256 signed;
  revoked = false;
  expires_at = call.now + refresh_ttl;
  family_id = some family_id;
  rotated_at = none;
}

-- The presented row is spent, and its successor in the family is added.
abbrev pub succeed : Crypto → Call → String → String → User → String → Db → Db
succeed c call presented family_id user signed db = record db {
  refresh_tokens =
      update_first (has_hash (c.sha256 presented)) (rotate_out call.now family_id) db.refresh_tokens
      ++ successor c call family_id user signed ∷ [];
}

-- What a rotation that has passed its tests writes: the tokens, and the session, which slides on
-- or is created.
unfoldable pub exchange :
    Crypto → Call → String → RefreshToken → Option UserSession → String → User → Claims → Db → Db
exchange c call presented db_token session method user claims db =
    let family_id = family_or_new db_token.family_id call.uuid in
    let expires_at = call.now + refresh_ttl in
    let db' = succeed c call presented family_id user (call.refresh_token claims) db in
    elim session [
      | some _ ↦ touch call.now (some family_id) expires_at db'
      | none ↦
          create call.now
            (record {
              session_id = family_id;
              user_id = user.id;
              organization_id = claims.org_id;
              org_role = claims.org_role;
              auth_method = method;
              mfa_verified = claims.mfa_verified;
              expires_at = expires_at;
              client_ip = none;
              user_agent = none;
              saml_name_id = none;
              saml_session_index = none;
              organization_saml_config_id = none;
            })
            db'
    ]

-- From the lookup of the account on.
unfoldable pub rotate_for_user :
    Crypto
    → Call
    → String
    → TeamChoice
    → RefreshToken
    → Option UserSession
    → Db
    → Option (String × String) × Db
unfolding exchange fresh_claims
rotate_for_user c call presented team db_token session db =
    elim (first (λ u. u.id == db_token.user_id) db.users) [
      | none ↦ (none, db)
      | some user ↦
          if not (user.status ≈ "active")
          then (none, db)
          else (let claims = fresh_claims c presented team user db in
              (
                some (call.access_token claims, call.refresh_token claims),
                exchange c call presented db_token session (old_method (old_claims c presented))
                    user claims db,
              ))
    ]

-- From the lookup of the session on.
unfoldable pub rotate_in_session :
    Settings
    → Crypto
    → Call
    → String
    → TeamChoice
    → RefreshToken
    → Db
    → Option (String × String) × Db
unfolding rotate_for_user revoke_family log_session_revoked
rotate_in_session cfg c call presented team db_token db =
    let session = get_by_family_id db_token.family_id db in
    if not (is_usable call.now session)
    then (none, db)
    else elim (check_timeout_policy cfg call.now session) [
      | some reason ↦
          (none, revoke_all_of call.now db_token.user_id db_token.family_id reason none db)
      | none ↦ rotate_for_user c call presented team db_token session db
    ]

-- From the row of the presented token on.
unfoldable pub rotate_row :
    Settings
    → Crypto
    → Call
    → String
    → TeamChoice
    → RefreshToken
    → Db
    → Option (String × String) × Db
unfolding rotate_in_session revoke_family log_session_revoked
rotate_row cfg c call presented team t db =
    if not (is_none t.rotated_at)
    then (none, revoke_all_of call.now t.user_id t.family_id reuse_detected none db)
    else if t.revoked
    then (none, db)
    else if ltb t.expires_at call.now
    then (none, db)
    else rotate_in_session cfg c call presented team t db

unfoldable pub rotate_refresh_token :
    Settings → Crypto → Call → String → TeamChoice → Db → Option (String × String) × Db
unfolding rotate_row
rotate_refresh_token cfg c call presented team db =
    elim (first (has_hash (c.sha256 presented)) db.refresh_tokens) [
      | none ↦ (none, db)
      | some t ↦ rotate_row cfg c call presented team t db
    ]
