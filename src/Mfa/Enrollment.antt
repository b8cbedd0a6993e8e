-- ===== src/Mfa/Enrollment.antt =====
-- app/services/mfa_enrollment_service.py over its own table mfa_enrollment_sessions, and
-- create_mfa_enrollment_token of app/core/jwt.py. Signing and the random `jti` are parameters.
use omnibioai_auth.Prelude.{
  ℕ, ◌+◌, ◌≤◌, String, Bool, true, ◌&&◌, ◌≡◌, Option, none, some, List, [], ◌∷◌, ◌++◌, arith, ltb,
  ◌==◌, ◌≈◌, is_none, first, first-holds, count, update_all, if◌then◌else◌,
}
use omnibioai_auth.Models.{Time, seconds}

pub record EnrollmentSession : Type 0 where
  pub id : ℕ
  pub user_id : ℕ
  pub token_jti : String
  pub created_at : Time
  pub expires_at : Time
  pub consumed_at : Option Time

pub record EnrollmentPayload : Type 0 where
  pub token_type : String
  pub purpose : String
  pub user_id : ℕ
  pub iat : Time
  pub exp : Time
  pub jti : String

unfoldable pub create_mfa_enrollment_token :
    (EnrollmentPayload → String) → Time → ℕ → String → Option Time → String
create_mfa_enrollment_token sign now user_id token_jti expires_at = sign (record {
  token_type = "mfa_enrollment";
  purpose = "totp_enrollment";
  user_id = user_id;
  iat = now;
  exp = elim expires_at [ none ↦ now + seconds 600 | some t ↦ t ];
  jti = token_jti;
})

-- ENROLLMENT_TOKEN_TTL
abbrev pub enrollment_token_ttl : Time
enrollment_token_ttl = seconds 600

-- The two clock readings, of the row and of the token, are `now` and `signed_at`.
unfoldable pub create_enrollment_token :
    (EnrollmentPayload → String)
    → Time
    → Time
    → ℕ
    → String
    → ℕ
    → List EnrollmentSession
    → String × List EnrollmentSession
unfolding create_mfa_enrollment_token
create_enrollment_token sign now signed_at id token_jti user_id rows = (
  create_mfa_enrollment_token sign signed_at user_id token_jti (some (now + enrollment_token_ttl)),
  rows
      ++ record {
        id = id;
        user_id = user_id;
        token_jti = token_jti;
        created_at = now;
        expires_at = now + enrollment_token_ttl;
        consumed_at = none;
      }
        ∷ [],
)

unfoldable pub get_active_session :
    Time → ℕ → String → List EnrollmentSession → Option EnrollmentSession
get_active_session now user_id token_jti rows =
    first
      (λ s.
        s.user_id == user_id
        && s.token_jti ≈ token_jti
        && ltb now s.expires_at
        && is_none s.consumed_at)
      rows

abbrev pub may_consume : Time → ℕ → EnrollmentSession → Bool
may_consume now session_id s = s.id == session_id && ltb now s.expires_at && is_none s.consumed_at

unfoldable pub consume_session : Time → ℕ → List EnrollmentSession → Bool × List EnrollmentSession
consume_session now session_id rows = (
  count (may_consume now session_id) rows == 1,
  update_all (may_consume now session_id) (λ s. record s { consumed_at = some now }) rows,
)

abbrev pub is_open : ℕ → EnrollmentSession → Bool
is_open session_id s = s.id == session_id && is_none s.consumed_at

-- How many of the consumptions, each with its time and its session, succeed for the session.
abbrev pub consumptions : ℕ → List (Time × ℕ) → List EnrollmentSession → ℕ
consumptions session_id [] rows = 0
consumptions session_id ((now, id) ∷ calls) rows =
    let done = consume_session now id rows in
    let later = consumptions session_id calls done.1 in
    if id == session_id && done.0 then later + 1 else later

consume_session-open :
    (now : Time) (id session_id : ℕ) (rows : List EnrollmentSession)
    → (if id == session_id then count (may_consume now id) rows else 0)
        + count (is_open session_id) (consume_session now id rows).1
      ≡ count (is_open session_id) rows
unfolding consume_session
consume_session-open now id session_id [] = ground arith
consume_session-open now id session_id (s ∷ rows) =
    ground (arith, consume_session-open now id session_id rows)

consume_session-one :
    (now : Time) (id : ℕ) (rows : List EnrollmentSession)
    → (consume_session now id rows).0 ≡ true
    → count (may_consume now id) rows ≡ 1
unfolding consume_session
consume_session-one now id rows h = ground (arith, h)

-- Through every sequence of consumptions a session is consumed at most as often as it has rows
-- that are not consumed, so that one row gives at most one success.
pub consumptions_le :
    (session_id : ℕ) (calls : List (Time × ℕ)) (rows : List EnrollmentSession)
    → consumptions session_id calls rows ≤ count (is_open session_id) rows
consumptions_le session_id [] rows = omega arith
consumptions_le session_id ((now, id) ∷ calls) rows = ground (
  arith,
  consume_session-open now id session_id rows,
  consume_session-one now id rows,
  consumptions_le session_id calls (consume_session now id rows).1,
)

-- A session that is found as active may be consumed at the same time.
get_active_session-may_consume :
    (now : Time) (user_id : ℕ) (token_jti : String) (rows : List EnrollmentSession)
    (s : EnrollmentSession)
    → get_active_session now user_id token_jti rows ≡ some s
    → may_consume now s.id s ≡ true
unfolding get_active_session
get_active_session-may_consume now user_id token_jti rows s found = ground (
  arith,
  first-holds
      (λ s.
        s.user_id == user_id
        && s.token_jti ≈ token_jti
        && ltb now s.expires_at
        && is_none s.consumed_at)
      rows s found,
)
