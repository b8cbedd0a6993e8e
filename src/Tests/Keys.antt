-- ===== src/Tests/Keys.antt =====
-- Runs of the exchange of an API key, and of the assignment of a role.
use omnibioai_auth.Prelude.{◌≡◌, refl, false, none, some, [], ◌∷◌, ◌≈◌, sorted_set}
use omnibioai_auth.Models.{seconds, ApiKey, Db}
use omnibioai_auth.Session.{prefix}
use omnibioai_auth.Org.{get_membership, permissions_for_roles, permissions_for_membership}
use omnibioai_auth.ApiKey.{
  KeyGrant, is_test_key, verify_api_key, effective_permissions, grant_key, exchange_for_user,
  exchange_api_key,
}
use omnibioai_auth.ApiKey.Exchange.{IsEntitled, exchange_api_key-IsEntitled}
use omnibioai_auth.Prelude.{ok, All}
use omnibioai_auth.Org.Registry.{registry, global_scope_permissions}
use omnibioai_auth.Org.Roles.{get_role_in_scope, offending, resolve_roles_for_org}
use omnibioai_auth.Org.Roles.Scope.{IsAssignable, resolve_roles_for_org-IsAssignable}
use omnibioai_auth.Tests.{db, org_admin}

-- A key of Bob's, with a scope that he does not have.
abbrev key : ApiKey
key = record {
  id = 3;
  organization_id = 10;
  created_by_user_id = 2;
  name = "pipeline";
  key_prefix = "omni_sk_live_abcd";
  key_hash = "omni_sk_live_abcdefgh";
  scopes = "read_org" ∷ "delete_org" ∷ [];
  status = "active";
  expires_at = some (seconds 1000);
  last_used_at = none;
  created_at = 0;
  revoked_at = none;
  revoked_reason = none;
}

abbrev stored : Db
stored = record db { api_keys = key ∷ [] }

abbrev grant : KeyGrant
grant = record {
  user_id = 2;
  email = "bob@lab";
  organization_id = 10;
  api_key_id = 3;
  permissions = "read_org" ∷ [];
  exp = seconds 1000;
  test_mode = false;
}

granted : (exchange_api_key (λ s. s) 15 (seconds 100) "omni_sk_live_abcdefgh" stored).0 ≡ some grant
unfolding exchange_api_key verify_api_key exchange_for_user get_membership grant_key
    effective_permissions permissions_for_membership permissions_for_roles is_test_key sorted_set
    prefix ◌≈◌
granted = refl

exchange_api_key-IsEntitled_example :
    IsEntitled (λ s. s) 15 (seconds 100) "omni_sk_live_abcdefgh" stored grant
exchange_api_key-IsEntitled_example =
    exchange_api_key-IsEntitled (λ s. s) 15 (seconds 100) "omni_sk_live_abcdefgh" stored grant
      granted

resolved :
    (resolve_roles_for_org 10 false (some 2) none ("org_admin" ∷ []) db).0 ≡ ok (org_admin ∷ [])
unfolding resolve_roles_for_org get_role_in_scope offending global_scope_permissions registry
    sorted_set ◌≈◌
resolved = refl

resolve_roles_for_org-IsAssignable_example : All (IsAssignable 10) (org_admin ∷ [])
resolve_roles_for_org-IsAssignable_example =
    resolve_roles_for_org-IsAssignable 10 (some 2) none ("org_admin" ∷ []) db (org_admin ∷ [])
      resolved
