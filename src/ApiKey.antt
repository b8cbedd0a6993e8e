-- ===== src/ApiKey.antt =====
-- app/services/apikey_service.py. The random key, the digest, the key of a new row and signing are
-- parameters; a time is given without a zone.
pub mod Exchange
use omnibioai_auth.Prelude.{
  ℕ, ◌+◌, ◌-◌, ◌*◌, String, Bool, true, false, not, ◌&&◌, ◌||◌, Option, none, some, List, [], ◌∷◌,
  ◌++◌, ltb, leb, ◌==◌, ◌≈◌, is_none, contains, sorted_set, stripped, first, select, update_first,
  if◌then◌else◌, Result, ok, err,
}
use omnibioai_auth.Models.{
  Time, seconds, User, OrganizationMembership, ApiKey, Db, AuditEvent, AuditEventType, Value,
  log_event, api_key_created, api_key_revoked, api_key_renamed,
}
use omnibioai_auth.Session.{prefix}
use omnibioai_auth.Org.{get_membership, permissions_for_membership}

pub data ApiKeyError : Type 0 where
  ungrantable : List String → ApiKeyError
  expiry_past empty_name : ApiKeyError

-- `_LIVE_PREFIX` and `_TEST_PREFIX` have this length; four more characters are stored.
abbrev pub prefix_len : ℕ
prefix_len = 13

unfoldable pub is_test_key : ApiKey → Bool
is_test_key key = prefix prefix_len key.key_prefix ≈ "omni_sk_test_"

abbrev key_event : AuditEventType → Option ℕ → ApiKey → List (String × Value) → AuditEvent
key_event event_type actor_user_id key metadata = record {
  event_type = event_type;
  actor_user_id = actor_user_id;
  target_user_id = none;
  organization_id = some key.organization_id;
  resource_type = some "api_key";
  resource_id = Value.number key.id;
  metadata = metadata;
}

-- `set(scopes) - caller_permissions`, in order.
abbrev pub ungranted : List String → List String → List String
ungranted scopes caller_permissions =
    sorted_set (select (λ s. not (contains s caller_permissions)) scopes)

abbrev is_past : Time → Option Time → Bool
is_past now none = false
is_past now (some t) = leb t now

abbrev pub new_key :
    (String → String) → Time → ℕ → String → ℕ → ℕ → String → List String → Option Time → ApiKey
new_key sha256 now id full_key organization_id creator_user_id name scopes expires_at = record {
  id = id;
  organization_id = organization_id;
  created_by_user_id = creator_user_id;
  name = name;
  key_prefix = prefix (prefix_len + 4) full_key;
  key_hash = sha256 full_key;
  scopes = scopes;
  status = "active";
  expires_at = expires_at;
  last_used_at = none;
  created_at = now;
  revoked_at = none;
  revoked_reason = none;
}

-- `full_key` is what `_generate_key` drew, with the prefix of its mode.
unfoldable pub create_api_key :
    (String → String)
    → Time
    → ℕ
    → String
    → ℕ
    → ℕ
    → String
    → List String
    → List String
    → Option Time
    → Db
    → Result ApiKeyError ((ApiKey × String) × Db)
unfolding log_event
create_api_key sha256 now id full_key organization_id creator_user_id name scopes caller_permissions
      expires_at db =
    elim (ungranted scopes caller_permissions) [
      | s ∷ more ↦ err (ungrantable (s ∷ more))
      | [] ↦
          if is_past now expires_at
          then err expiry_past
          else (let key =
                new_key sha256 now id full_key organization_id creator_user_id name scopes
                  expires_at in
              ok (
                (key, full_key),
                log_event
                    (key_event api_key_created (some creator_user_id) key
                      (("api_key_name", Value.text name) ∷ ("scopes", Value.texts scopes) ∷ []))
                    (record db { api_keys = db.api_keys ++ key ∷ [] }),
              ))
    ]

unfoldable pub list_api_keys : ℕ → Db → List ApiKey
list_api_keys organization_id db = select (λ k. k.organization_id == organization_id) db.api_keys

unfoldable pub get_api_key : ℕ → ℕ → Db → Option ApiKey
get_api_key organization_id key_id db =
    first (λ k. k.id == key_id && k.organization_id == organization_id) db.api_keys

abbrev reason_of : Option String → Value
reason_of none = Value.null
reason_of (some reason) = Value.text reason

abbrev pub write_key : ℕ → (ApiKey → ApiKey) → Db → Db
write_key id f db = record db { api_keys = update_first (λ k. k.id == id) f db.api_keys }

unfoldable pub revoke_api_key : Time → ApiKey → Option String → Option ℕ → Db → Db
unfolding log_event
revoke_api_key now key reason actor_user_id db =
    log_event
      (key_event api_key_revoked actor_user_id key (
        ("api_key_name", Value.text key.name)
        ∷ ("scopes", Value.texts key.scopes)
        ∷ ("reason", reason_of reason)
        ∷ []))
      (write_key key.id
        (λ k. record k { status = "revoked"; revoked_at = some now; revoked_reason = reason }) db)

unfoldable pub rename_api_key : ApiKey → String → Option ℕ → Db → Result ApiKeyError Db
unfolding stripped log_event
rename_api_key key new_name actor_user_id db =
    if stripped new_name ≈ ""
    then err empty_name
    else ok (
        log_event
          (key_event api_key_renamed actor_user_id key
            (("old_name", Value.text key.name) ∷ ("new_name", Value.text new_name) ∷ []))
          (write_key key.id (λ k. record k { name = new_name }) db))

abbrev pub is_expired : Time → Option Time → Bool
is_expired now none = false
is_expired now (some t) = ltb t now

unfoldable pub verify_api_key : (String → String) → Time → String → Db → Option ApiKey
verify_api_key sha256 now full_key db =
    elim (first (λ k. k.key_hash ≈ sha256 full_key) db.api_keys) [
      | none ↦ none
      | some key ↦
          if not (key.status ≈ "active") || is_expired now key.expires_at then none else some key
    ]

-- The claims that set the token of a key apart; the others are empty.
pub record KeyGrant : Type 0 where
  pub user_id : ℕ
  pub email : String
  pub organization_id : ℕ
  pub api_key_id : ℕ
  pub permissions : List String
  pub exp : Time
  pub test_mode : Bool

-- `(status or "active") == "active"`
abbrev pub active_or_unset : String → Bool
active_or_unset status = status ≈ "" || status ≈ "active"

-- What the key may do now.
unfoldable pub effective_permissions : ApiKey → OrganizationMembership → List String
unfolding permissions_for_membership
effective_permissions key m =
    sorted_set (select (λ s. contains s (permissions_for_membership m)) key.scopes)

-- The time of use is written at most once in 60 seconds.
unfoldable pub touch_key : Time → ApiKey → Db → Db
touch_key now key db =
    let used = write_key key.id (λ k. record k { last_used_at = some now }) db in
    elim key.last_used_at [ none ↦ used | some t ↦ if leb (seconds 60) (now - t) then used else db ]

module _ (sha256 : String → String) (expire_minutes : ℕ) (now : Time) (full_key : String) where
  unfoldable pub grant_key : ApiKey → User → OrganizationMembership → KeyGrant
  unfolding effective_permissions is_test_key
  grant_key key user m = record {
    user_id = user.id;
    email = user.email;
    organization_id = key.organization_id;
    api_key_id = key.id;
    permissions = effective_permissions key m;
    exp = now + seconds (expire_minutes * 60);
    test_mode = is_test_key key;
  }

  unfoldable pub exchange_for_user : ApiKey → User → Db → Option KeyGrant × Db
  unfolding get_membership grant_key touch_key
  exchange_for_user key user db = elim (get_membership key.organization_id user.id db) [
    | none ↦ (none, db)
    | some m ↦
        if active_or_unset m.status
        then (some (grant_key key user m), touch_key now key db)
        else (none, db)
  ]

  unfoldable pub exchange_api_key : Db → Option KeyGrant × Db
  unfolding verify_api_key exchange_for_user
  exchange_api_key db =
      if prefix 8 full_key ≈ "omni_sk_"
      then elim (verify_api_key sha256 now full_key db) [
        | none ↦ (none, db)
        | some key ↦ elim (first (λ u. u.id == key.created_by_user_id) db.users) [
          | none ↦ (none, db)
          | some user ↦
              if active_or_unset user.status then exchange_for_user key user db else (none, db)
        ]
      ]
      else (none, db)
