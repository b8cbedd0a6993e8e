-- ===== src/Tests/Access.antt =====
-- Runs of app/rbac.py and app/core/token_revocation.py, on a Redis that is a function of the keys.
use omnibioai_auth.Prelude.{
  ℕ, ◌≡◌, ◌⊎◌, refl, sym, ap, not, ◌-◌, ◌≤◌, ◌==◌, if◌then◌else◌, Bool, true, Option, none, some,
  List, [], ◌∷◌, String, arith, ◌≈◌, ok, err,
}
use omnibioai_auth.Org.{permissions_for_roles, get_role_by_name}
use omnibioai_auth.Team.{get_team}
use omnibioai_auth.TokenRevocation.{
  Payload, Blacklist, service_token_required, blacklist_access_token, assert_token_usable, Later,
}
use omnibioai_auth.Rbac.{
  get_current_user, require_service_scope, require_service_identity, claims_hold,
  require_permission_or_service_scope, require_org_permission_or_platform_admin,
  require_team_manage_permission,
}
use omnibioai_auth.Rbac.Identity.{
  IsUser, get_current_user-IsUser, user_is_no_service, mixed_check_sound, IsLiveService,
}
use omnibioai_auth.Rbac.Organizations.{
  IsMember, IsPlatformAdmin, IsTeamAdmin, org_permission_sound, team_permission_sound,
}
use omnibioai_auth.Tests.{db, membership, org_admin, genomics}

-- The seconds that each key has left.
abbrev Keys : Type 0
Keys = String → ℕ

exists : String → Keys → Option Bool
exists key s = some (not (s key == 0))

setex : String → ℕ → Keys → Option Keys
setex key ttl s = some (λ j. if key ≈ j then ttl else s j)

setex_sets :
    (k j : String) (ttl : ℕ) (s s' : Keys)
    → 1 ≤ ttl
    → setex k ttl s ≡ some s'
    → s' j ≡ (if k ≈ j then ttl else s j)
unfolding setex
setex_sets k j ttl s s' long e =
    let same : (λ i. if k ≈ i then ttl else s i) ≡ s' = cc in sym (ap (λ f. f j) same)

exists_reads : (j : String) (s : Keys) (b : Bool) → exists j s ≡ some b → b ≡ not (s j == 0)
unfolding exists
exists_reads j s b e = ground (arith, e)

abbrev redis : Blacklist
redis = record {
  Store = Keys;
  exists = exists;
  setex = setex;
  elapse = λ n s j. s j - n;
  ttl_of = λ j s. s j;
  ttl_of-setex = setex_sets;
  ttl_of-elapse = λ j n s. refl;
  exists-ttl_of = exists_reads;
}

abbrev no_keys : Keys
no_keys key = 0

-- The token of the account `sub`, of which the permissions are given.
abbrev user_token : ℕ → List String → Payload
user_token sub permissions = record {
  jti = some "jti";
  sub = some sub;
  exp = 900;
  auth_method = some "password";
  token_type = none;
  client_id = none;
  roles = none;
  permissions = some permissions;
  scopes = none;
}

abbrev service_token : Payload
service_token = record {
  jti = some "service";
  sub = none;
  exp = 900;
  auth_method = some "client_credentials";
  token_type = none;
  client_id = some "pipeline";
  roles = none;
  permissions = none;
  scopes = some ("jobs" ∷ []);
}

-- 100 seconds into its life the token of alice is logged out, and a service's 40 seconds later.
abbrev after_logout : Keys
after_logout key = if "blacklist:jti:jti" ≈ key then 800 else 0

logged_out : blacklist_access_token redis 100 (some (user_token 1 [])) no_keys ≡ ok after_logout
unfolding blacklist_access_token setex ◌≈◌
logged_out = refl

abbrev later : Later
later = record { seconds_passed = 40; logged_out = service_token }

bob_enters : get_current_user redis (some (user_token 2 [])) no_keys db ≡ ok (user_token 2 [])
unfolding get_current_user assert_token_usable exists ◌≈◌
bob_enters = refl

get_current_user-IsUser_example : IsUser (some (user_token 2 [])) (user_token 2 []) db
get_current_user-IsUser_example =
    get_current_user-IsUser redis (some (user_token 2 [])) no_keys db (user_token 2 []) bob_enters

user_is_no_service_example :
    (require_service_scope "jobs" (some (user_token 2 [])) ≡ err service_token_required)
    × (require_service_identity (some (user_token 2 [])) ≡ err service_token_required)
user_is_no_service_example =
    user_is_no_service redis (some (user_token 2 [])) no_keys db (user_token 2 []) "jobs" bob_enters

mixed_check_sound_example :
    (IsUser (some service_token) service_token db
      × (claims_hold "read_org" service_token.permissions ≡ true))
    ⊎ IsLiveService "jobs" 5 (some service_token) service_token db
unfolding require_permission_or_service_scope assert_token_usable exists ◌≈◌
mixed_check_sound_example =
    mixed_check_sound redis "read_org" "jobs" 5 (some service_token) no_keys db service_token refl

-- Bob holds org_admin in the organization, alice only as a platform administrator.
org_permission_sound_example :
    IsMember "read_org" 10 db (user_token 2 []) ⊎ IsPlatformAdmin "read_org" 10 db (user_token 2 [])
unfolding require_org_permission_or_platform_admin permissions_for_roles ◌≈◌
org_permission_sound_example =
    org_permission_sound "read_org" 10 db (user_token 2 []) (membership 2 2 (org_admin ∷ [])) refl

team_permission_sound_example :
    (get_team 10 5 db ≡ some genomics)
    × ((IsMember "manage_teams" 10 db (user_token 1 ("manage_all_orgs" ∷ []))
          ⊎ IsPlatformAdmin "manage_teams" 10 db (user_token 1 ("manage_all_orgs" ∷ [])))
        ⊎ IsTeamAdmin "manage_teams" 10 db (user_token 1 ("manage_all_orgs" ∷ [])) 5)
unfolding require_team_manage_permission get_role_by_name get_team permissions_for_roles ◌≈◌
team_permission_sound_example =
    team_permission_sound "manage_teams" 10 db (user_token 1 ("manage_all_orgs" ∷ [])) 5 genomics
      refl
