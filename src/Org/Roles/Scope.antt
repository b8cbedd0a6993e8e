-- ===== src/Org/Roles/Scope.antt =====
-- Which roles app/services/role_service.py lets an organization assign.
use omnibioai_auth.Prelude.{
  ℕ, String, ◌≡◌, refl, sym, ◌∙◌, ap, subst, ◌⊎◌, Bool, true, false, ◌&&◌, Option, some, List, [],
  ◌∷◌, arith, ◌≈◌, contains, contains-sorted_set, contains-select, select, first-holds, All, ok,
  Option-cases, Result-cases, inl, inr,
}
use omnibioai_auth.Models.{Role, Db}
use omnibioai_auth.Org.Registry.{global_scope_permissions}
use omnibioai_auth.Org.Roles.{in_scope, offending, get_role_in_scope, resolve_roles_for_org}

contains-offending :
    (p : String) (names : List String)
    → contains p (offending names) ≡ (contains p names && contains p global_scope_permissions)
unfolding offending
contains-offending p names =
    let platform_wide : String → Bool = λ n. contains n global_scope_permissions in
    contains-sorted_set p (select platform_wide names) ∙ contains-select p platform_wide names

none-offending :
    (p : String) (names : List String)
    → offending names ≡ []
    → (contains p names && contains p global_scope_permissions) ≡ false
none-offending p names e = sym (contains-offending p names) ∙ ap (contains p) e

pub texts_cases :
    (xs : List String) → (xs ≡ []) ⊎ ((x : String) × (ys : List String) × (xs ≡ x ∷ ys))
texts_cases [] = inl refl
texts_cases (x ∷ xs) = inr (x, xs, refl)

-- The role is visible to the organization, and no permission of it is platform-wide.
pub record IsAssignable (organization_id : ℕ) (r : Role) : Type 0 where
  pub visible : in_scope organization_id r ≡ true
  pub ordinary :
      (p : String) → (contains p r.permissions && contains p global_scope_permissions) ≡ false

get_role_in_scope-visible :
    (name : String) (organization_id : ℕ) (db : Db) (role : Role)
    → get_role_in_scope name organization_id db ≡ some role
    → in_scope organization_id role ≡ true
unfolding get_role_in_scope
get_role_in_scope-visible name o db role found =
    ground (arith, first-holds (λ r. r.name ≈ name && in_scope o r) db.roles role found)

-- The roles that are resolved within an organization for one who is no platform administrator are
-- visible to the organization, and none has a permission that the registry makes platform-wide.
pub resolve_roles_for_org-IsAssignable :
    (organization_id : ℕ) (actor target : Option ℕ) (names : List String) (db : Db)
    (roles : List Role)
    → (resolve_roles_for_org organization_id false actor target names db).0 ≡ ok roles
    → All (IsAssignable organization_id) roles
unfolding resolve_roles_for_org
resolve_roles_for_org-IsAssignable o actor target [] db roles e =
    let nothing : [] ≡ roles = ground (arith, e) in subst (All (IsAssignable o)) nothing tt
resolve_roles_for_org-IsAssignable o actor target (name ∷ names) db roles e =
    elim (Option-cases (get_role_in_scope name o db)) [
      | inl unknown ↦ ground (arith, e)
      | inr (role, found) ↦ elim (texts_cases (offending role.permissions)) [
        | inr (n, ns, bad) ↦ ground (arith, e)
        | inl fine ↦ elim (Result-cases (resolve_roles_for_org o false actor target names db).0) [
          | inr (error, failed) ↦ ground (arith, e)
          | inl (rest, known) ↦
              let these : role ∷ rest ≡ roles = ground (arith, e) in
              subst (All (IsAssignable o)) these (
                record {
                  visible = get_role_in_scope-visible name o db role found;
                  ordinary = λ p. none-offending p role.permissions fine;
                },
                resolve_roles_for_org-IsAssignable o actor target names db rest known,
              )
        ]
      ]
    ]
