-- ===== src/Mfa/Challenge/Once.antt =====
-- How often a challenge of app/services/mfa_service.py is completed.
use omnibioai_auth.Prelude.{
  ℕ, suc, ◌≤◌, String, ◌≡◌, refl, Bool, true, false, ◌&&◌, Option, none, some, List, [], ◌∷◌, arith,
  ◌≈◌, contains, contains-append, if◌then◌else◌, Option-cases, inl, inr, ≈_refl, holds, holds_iff,
}
use omnibioai_auth.Models.{Db}
use omnibioai_auth.RateLimit.Commands.{Redis}
use omnibioai_auth.RateLimit.{Limiter}
use omnibioai_auth.Mfa.Token.{ChallengePayload}
use omnibioai_auth.Mfa.Challenge.{Service, Reply, verify_for_user, verify_mfa_challenge}
use omnibioai_auth.Mfa.Challenge.Records.{with_jti, is_ok, verify_for_user-Records}

-- The token carries the given `jti`.
carries : Service → String → String → Bool
carries env token jti = elim (env.email_crypto.decode_token token) [
  | none ↦ false
  | some payload ↦ holds payload.jti jti
]

module _ (r : Redis) (env : Service) (ip method : Option String) (code : String) where
  module _ (token jti : String) (l : Limiter r) (db : Db) (named : (jti ≈ "") ≡ false) where
    abbrev reply : Reply r env ip method code
    reply = verify_mfa_challenge r env ip method code token (l, db)

    abbrev completed : Bool
    completed = is_ok reply.0 && carries env token jti

    kept :
        (payload : ChallengePayload)
        → contains jti db.revoked_tokens ≡ true
        → contains jti (with_jti payload.jti db.revoked_tokens) ≡ true
    unfolding with_jti
    kept payload used = elim (Option-cases payload.jti) [
      | inl e ↦ rw (e, with_jti) used
      | inr (other, e) ↦ ground (arith, e, used, contains-append jti db.revoked_tokens (other ∷ []))
    ]

    consumed :
        (payload : ChallengePayload)
        → holds payload.jti jti ≡ true
        → contains jti (with_jti payload.jti db.revoked_tokens) ≡ true
    unfolding with_jti
    consumed payload held = ground (
      arith,
      holds_iff payload.jti jti held,
      ≈_refl jti,
      contains-append jti db.revoked_tokens (jti ∷ []),
    )

    refuses :
        (payload : ChallengePayload) (user_id : ℕ)
        → contains jti db.revoked_tokens ≡ true
        → payload.jti ≡ some jti
        → is_ok (verify_for_user r env ip method code payload user_id (l, db)).0 ≡ false
    unfolding verify_for_user is_ok
    refuses payload user_id used held = ground (arith, held, named, used)

    reply-keeps :
        contains jti db.revoked_tokens ≡ true → contains jti reply.1.1.revoked_tokens ≡ true
    unfolding verify_mfa_challenge with_jti is_ok
    reply-keeps used = elim (Option-cases (env.email_crypto.decode_token token)) [
      | inl e ↦ ground (arith, e)
      | inr (payload, e) ↦ elim (Option-cases payload.user_id) [
        | inl nobody ↦ ground (arith, e, nobody)
        | inr (user_id, k) ↦ ground (
          arith,
          e,
          k,
          kept payload used,
          verify_for_user-Records r env ip method code payload user_id l db,
        )
      ]
    ]

    completed-consumes : completed ≡ true → contains jti reply.1.1.revoked_tokens ≡ true
    unfolding verify_mfa_challenge with_jti carries is_ok
    completed-consumes done = elim (Option-cases (env.email_crypto.decode_token token)) [
      | inl e ↦ ground (arith, e)
      | inr (payload, e) ↦ elim (Option-cases payload.user_id) [
        | inl nobody ↦ ground (arith, e, nobody)
        | inr (user_id, k) ↦ ground (
          arith,
          e,
          k,
          consumed payload,
          verify_for_user-Records r env ip method code payload user_id l db,
        )
      ]
    ]

    completed-unused : contains jti db.revoked_tokens ≡ true → completed ≡ false
    unfolding verify_mfa_challenge verify_for_user carries is_ok
    completed-unused used = elim (Option-cases (env.email_crypto.decode_token token)) [
      | inl e ↦ ground (arith, e)
      | inr (payload, e) ↦ elim (Option-cases payload.user_id) [
        | inl nobody ↦ ground (arith, e, nobody)
        | inr (user_id, k) ↦
            ground (arith, e, k, holds_iff payload.jti jti, refuses payload user_id used)
      ]
    ]

-- An answer to a challenge, with the configuration and the calls of its request.
pub record Answer : Type 0 where
  pub env : Service
  pub ip : Option String
  pub method : Option String
  pub code : String
  pub token : String

module _ (r : Redis) (jti : String) where
  -- How many of the answers complete a challenge with the `jti`.
  pub completions : List Answer → Limiter r × Db → ℕ
  unfolding is_ok carries
  completions [] s = 0
  completions (a ∷ answers) s =
      let (result, after) = verify_mfa_challenge r a.env a.ip a.method a.code a.token s in
      let rest = completions answers after in
      if is_ok result && carries a.env a.token jti then suc rest else rest

  module _ (named : (jti ≈ "") ≡ false) where
    completions-used :
        (answers : List Answer) (l : Limiter r) (db : Db)
        → contains jti db.revoked_tokens ≡ true
        → completions answers (l, db) ≡ 0
    unfolding completions
    completions-used [] l db used = refl
    completions-used (a ∷ answers) l db used =
        let after = (verify_mfa_challenge r a.env a.ip a.method a.code a.token (l, db)).1 in
        ground (
          arith,
          completed-unused r a.env a.ip a.method a.code a.token jti l db named used,
          completions-used answers after.0 after.1
              (reply-keeps r a.env a.ip a.method a.code a.token jti l db named used),
        )

    -- However often a challenge token with a `jti` is answered, with whatever codes, factors and
    -- settings, and between whatever other answers, at most one of the answers succeeds.
    pub completions_le :
        (answers : List Answer) (l : Limiter r) (db : Db) → completions answers (l, db) ≤ 1
    unfolding completions
    completions_le [] l db = omega arith
    completions_le (a ∷ answers) l db =
        let after = (verify_mfa_challenge r a.env a.ip a.method a.code a.token (l, db)).1 in
        ground (
          arith,
          completed-consumes r a.env a.ip a.method a.code a.token jti l db named,
          completions-used answers after.0 after.1,
          completions_le answers after.0 after.1,
        )
