-- ===== src/Auth/Exchanged.antt =====
-- What an exchange of a refresh token leaves in the table, in app/services/auth_service.py.
use omnibioai_auth.Prelude.{
  ◌+◌, String, ◌≡◌, ◌∙◌, refl, ap, true, false, none, some, [], ◌∷◌, ◌++◌, arith, ≈_iff, ≈_refl,
  first, update_first, first-append, first-append_some, first-update_first_self,
  first-update_first_key, Option-cases, inl, inr,
}
use omnibioai_auth.Models.{RefreshToken, User, Db}
use omnibioai_auth.Session.{Settings, touch, create}
use omnibioai_auth.Auth.Claims.{Claims}
use omnibioai_auth.Auth.Refresh.{
  Crypto, Call, TeamChoice, refresh_ttl, has_hash, family_or_new, old_method, old_claims,
  fresh_claims, rotate_out, successor, exchange, rotate_refresh_token,
}
use omnibioai_auth.Auth.Grant.{IsGranted, session_of, rotate_granted}

module _ (cfg : Settings) (c : Crypto) (call : Call) (p : String) (team : TeamChoice) (db : Db)
    (t : RefreshToken) (user : User) where
  abbrev claims : Claims
  claims = fresh_claims c p team user db

  -- The row of the presented token is spent, and that of the issued one is live in its family.
  pub record IsExchanged (issued : String × String) (db' : Db) : Type 0 where
    pub old_row : RefreshToken
    pub new_row : RefreshToken
    pub access : issued.0 ≡ call.access_token (fresh_claims c p team user db)
    pub old_found : first (has_hash (c.sha256 p)) db'.refresh_tokens ≡ some old_row
    pub old_revoked : old_row.revoked ≡ true
    pub old_stamped : old_row.rotated_at ≡ some call.now
    pub new_found : first (has_hash (c.sha256 issued.1)) db'.refresh_tokens ≡ some new_row
    pub new_live : new_row.revoked ≡ false
    pub new_unrotated : new_row.rotated_at ≡ none
    pub new_expiry : new_row.expires_at ≡ call.now + refresh_ttl
    pub new_owner : new_row.user_id ≡ user.id
    pub one_family : new_row.family_id ≡ old_row.family_id

  exchange-refresh_tokens :
      (exchange c call p t
        (session_of cfg c call p team db t)
        (old_method (old_claims c p))
        user
        claims
        db).refresh_tokens
      ≡ update_first
          (has_hash (c.sha256 p))
          (rotate_out call.now (family_or_new t.family_id call.uuid))
          db.refresh_tokens
        ++ successor c call (family_or_new t.family_id call.uuid) user (call.refresh_token claims)
          ∷ []
  unfolding exchange touch create
  exchange-refresh_tokens = elim (Option-cases (session_of cfg c call p team db t)) [
    | inl missing ↦ ground (arith, missing)
    | inr (s, found) ↦ ground (arith, found)
  ]

  -- The exchange, if it is granted and no row has the hash of the token that it signs: it returns
  -- tokens with fresh claims; the row of the presented token is revoked and stamped with the time;
  -- the row of the new refresh token is found under its hash, neither revoked nor exchanged, of the
  -- same account and family, and lives for seven days.
  pub rotate_refresh_token-IsExchanged :
      IsGranted cfg c call p team db t user
      → first
          (has_hash (c.sha256 (call.refresh_token (fresh_claims c p team user db))))
          db.refresh_tokens
        ≡ none
      → (issued : String × String) × (db' : Db) × (rotate_refresh_token cfg c call p team db
          ≡ (some issued, db'))
        × IsExchanged issued db'
  rotate_refresh_token-IsExchanged g fresh =
      let fid = family_or_new t.family_id call.uuid in
      let out = rotate_out call.now fid in
      let new = successor c call fid user (call.refresh_token claims) in
      let kept = update_first (has_hash (c.sha256 p)) out db.refresh_tokens in
      let rows = exchange-refresh_tokens in
      let spent : first (has_hash (c.sha256 p)) kept ≡ some (out t) = ground (
        arith,
        g.known,
        first-update_first_self (has_hash (c.sha256 p)) out db.refresh_tokens (λ x. refl),
      ) in
      let still : first (has_hash (c.sha256 (call.refresh_token claims))) kept ≡ none = ground (
        arith,
        g.known,
        fresh,
        ≈_iff (c.sha256 p) (c.sha256 (call.refresh_token claims)),
        first-update_first_key (λ x. x.token_hash) (c.sha256 p)
            (c.sha256 (call.refresh_token claims)) out db.refresh_tokens (λ x. refl),
      ) in
      (
        (call.access_token claims, call.refresh_token claims),
        exchange c call p t (session_of cfg c call p team db t) (old_method (old_claims c p)) user
            claims db,
        rotate_granted cfg c call p team db t user g,
        record {
          old_row = out t;
          new_row = new;
          access = refl;
          old_found =
              ap (first (has_hash (c.sha256 p))) rows
              ∙ first-append_some (has_hash (c.sha256 p)) kept (new ∷ []) (out t) spent;
          old_revoked = refl;
          old_stamped = refl;
          new_found =
              ap (first (has_hash (c.sha256 (call.refresh_token claims)))) rows
              ∙ ground (
                arith,
                ≈_refl (c.sha256 (call.refresh_token claims)),
                first-append (has_hash (c.sha256 (call.refresh_token claims))) kept new still,
              );
          new_live = refl;
          new_unrotated = refl;
          new_expiry = refl;
          new_owner = refl;
          one_family = refl;
        },
      )
