-- ===== src/ApiKey/Exchange.antt =====
-- What a key is exchanged for in app/services/apikey_service.py.
use omnibioai_auth.Prelude.{
  ℕ, String, ◌≡◌, refl, Bool, true, false, ◌&&◌, some, arith, ◌==◌, ◌≈◌, contains,
  contains-sorted_set, contains-select, first, select, Option-cases, inl, inr, ◌∙◌, subst,
}
use omnibioai_auth.Models.{Time, User, OrganizationMembership, ApiKey, Db}
use omnibioai_auth.Org.{get_membership, permissions_for_membership}
use omnibioai_auth.ApiKey.{
  KeyGrant, verify_api_key, is_expired, active_or_unset, effective_permissions, grant_key,
  exchange_for_user, exchange_api_key,
}

module _ (sha256 : String → String) (expire_minutes : ℕ) (now : Time) (full_key : String)
    (db : Db) where
  own_ids :
      (key : ApiKey) (user : User) (m : OrganizationMembership)
      → ((grant_key sha256 expire_minutes now full_key key user m).user_id ≡ user.id)
        × ((grant_key sha256 expire_minutes now full_key key user m).organization_id
            ≡ key.organization_id)
  unfolding grant_key
  own_ids key user m = (refl, refl)

  contains-grant :
      (s : String) (key : ApiKey) (user : User) (m : OrganizationMembership)
      → contains s (grant_key sha256 expire_minutes now full_key key user m).permissions
        ≡ (contains s key.scopes && contains s (permissions_for_membership m))
  unfolding grant_key effective_permissions
  contains-grant s key user m =
      let permitted : String → Bool = λ t. contains t (permissions_for_membership m) in
      contains-sorted_set s (select permitted key.scopes) ∙ contains-select s permitted key.scopes

  -- The rows behind a grant.
  pub record IsEntitled (grant : KeyGrant) : Type 0 where
    pub key : ApiKey
    pub user : User
    pub membership : OrganizationMembership
    pub stored : first (λ k. k.key_hash ≈ sha256 full_key) db.api_keys ≡ some key
    pub key_active : (key.status ≈ "active") ≡ true
    pub in_time : is_expired now key.expires_at ≡ false
    pub creator : first (λ u. u.id == key.created_by_user_id) db.users ≡ some user
    pub creator_active : active_or_unset user.status ≡ true
    pub member : get_membership key.organization_id user.id db ≡ some membership
    pub member_active : active_or_unset membership.status ≡ true
    pub own : (grant.user_id ≡ user.id) × (grant.organization_id ≡ key.organization_id)
    pub bounded :
        (s : String)
        → contains s grant.permissions
          ≡ (contains s key.scopes && contains s (permissions_for_membership membership))

  -- A key is exchanged for a token only if it is stored, active and in time, its creator is active
  -- and an active member of its organization; and the token has exactly those of the scopes of the
  -- key that the membership of the creator permits now.
  pub exchange_api_key-IsEntitled :
      (grant : KeyGrant)
      → (exchange_api_key sha256 expire_minutes now full_key db).0 ≡ some grant
      → IsEntitled grant
  unfolding exchange_api_key verify_api_key exchange_for_user
  exchange_api_key-IsEntitled grant e =
      elim (Option-cases (first (λ k. k.key_hash ≈ sha256 full_key) db.api_keys)) [
        | inl unknown ↦ ground arith
        | inr (key, ek) ↦
            elim (Option-cases (first (λ u. u.id == key.created_by_user_id) db.users)) [
              | inl missing ↦ ground arith
              | inr (user, eu) ↦
                  elim (Option-cases (get_membership key.organization_id user.id db)) [
                    | inl stranger ↦ ground arith
                    | inr (m, em) ↦
                        let issued : grant_key sha256 expire_minutes now full_key key user m
                            ≡ grant =
                          ground arith in
                        record {
                          key = key;
                          user = user;
                          membership = m;
                          stored = ek;
                          key_active = ground arith;
                          in_time = ground arith;
                          creator = eu;
                          creator_active = ground arith;
                          member = em;
                          member_active = ground arith;
                          own = (
                            ground (arith, own_ids key user m),
                            ground (arith, own_ids key user m),
                          );
                          bounded = λ s.
                              subst
                                (λ g. contains s g.permissions ≡ (
                                  contains s key.scopes
                                  && contains s (permissions_for_membership m)))
                                issued (contains-grant s key user m);
                        }
                  ]
            ]
      ]
