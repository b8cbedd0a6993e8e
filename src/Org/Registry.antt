-- ===== src/Org/Registry.antt =====
-- The permission registry of app/core/permission_names.py: the registered names in the order of the
-- file, in parts, each with the scope that decides who may hold it. Categories and descriptions are
-- left out.
use omnibioai_auth.Prelude.{String, Bool, true, false, List, [], ◌∷◌, ◌++◌, map, select, contains}

pub data PermissionScope : Type 0 where
  global_scope org_scope both_scopes : PermissionScope

pub record PermissionDef : Type 0 where
  pub name : String
  pub resource : String
  pub action : String
  pub scope : PermissionScope
  pub legacy : Bool

abbrev entry : String → String → String → PermissionScope → Bool → PermissionDef
entry name resource action scope legacy = record {
  name = name;
  resource = resource;
  action = action;
  scope = scope;
  legacy = legacy;
}

abbrev first_entries : List PermissionDef
first_entries =
    entry "toolserver.delegate" "toolserver" "delegate" both_scopes false
    ∷ entry "toolserver.register" "toolserver" "register" both_scopes false
    ∷ entry "storage_ledger.write" "storage_ledger" "write" global_scope false
    ∷ entry "manage_roles" "roles" "manage" global_scope true
    ∷ entry "manage_licenses" "licenses" "manage" global_scope true
    ∷ entry "manage_config" "config" "manage" global_scope true
    ∷ entry "override_sso_enforcement" "sso_enforcement" "override" global_scope true
    ∷ entry "manage_all_orgs" "all_orgs" "manage" global_scope true
    ∷ entry "license.issue" "license" "issue" global_scope false
    ∷ entry "service_token.mint" "service_token" "mint" global_scope false
    ∷ []

abbrev second_entries : List PermissionDef
second_entries =
    entry "service_token.mint_privileged" "service_token" "mint_privileged" global_scope false
    ∷ entry "platform.manage_infra" "platform" "manage_infra" global_scope true
    ∷ entry "platform.manage_cron" "platform" "manage_cron" global_scope true
    ∷ entry "platform.manage_content" "platform" "manage_content" global_scope true
    ∷ entry "manage_org" "org" "manage" org_scope true
    ∷ entry "manage_teams" "teams" "manage" org_scope true
    ∷ entry "manage_api_keys" "api_keys" "manage" org_scope true
    ∷ entry "manage_billing" "billing" "manage" org_scope true
    ∷ entry "manage_oauth_clients" "oauth_clients" "manage" org_scope true
    ∷ entry "manage_sso" "sso" "manage" org_scope true
    ∷ []

abbrev third_entries : List PermissionDef
third_entries =
    entry "workflow.execute" "workflow" "execute" both_scopes false
    ∷ entry "workflow.read" "workflow" "read" both_scopes false
    ∷ entry "workflow.publish" "workflow" "publish" both_scopes false
    ∷ entry "workflow.manage" "workflow" "manage" both_scopes false
    ∷ entry "runs.read" "runs" "read" both_scopes false
    ∷ entry "model.use" "model" "use" both_scopes false
    ∷ entry "model.read" "model" "read" both_scopes false
    ∷ []

abbrev fourth_entries : List PermissionDef
fourth_entries =
    entry "model.resolve_ownership" "model" "resolve_ownership" both_scopes false
    ∷ entry "dataset.read" "dataset" "read" both_scopes false
    ∷ entry "dataset.write" "dataset" "write" both_scopes false
    ∷ entry "usage.read" "usage" "read" both_scopes false
    ∷ entry "provider_keys.manage" "provider_keys" "manage" both_scopes false
    ∷ entry "billing.read" "billing" "read" both_scopes false
    ∷ entry "billing.manage" "billing" "manage" both_scopes false
    ∷ entry "subscription.manage" "subscription" "manage" both_scopes false
    ∷ entry "marketplace.install" "marketplace" "install" both_scopes false
    ∷ []

abbrev fifth_entries : List PermissionDef
fifth_entries = entry "workspace.launch" "workspace" "launch" both_scopes false ∷ []

unfoldable pub registry : List PermissionDef
registry = first_entries ++ second_entries ++ third_entries ++ fourth_entries ++ fifth_entries

abbrev is_global : PermissionScope → Bool
is_global global_scope = true
is_global org_scope = false
is_global both_scopes = false

-- `GLOBAL_SCOPE_PERMISSIONS` of role_service.py.
unfoldable pub global_scope_permissions : List String
unfolding registry
global_scope_permissions = map (λ p. p.name) (select (λ p. is_global p.scope) registry)

unfoldable pub is_known_permission : String → Bool
unfolding registry
is_known_permission name = contains name (map (λ p. p.name) registry)
