-- ===== src/Org.antt =====
-- app/services/org_service.py and role_service.py: the lookups that token claims and
-- authorization rest on.
pub mod Registry
pub mod Roles
pub mod Members
pub mod Catalogue
use omnibioai_auth.Prelude.{
  ℕ, String, Bool, ◌&&◌, Option, none, some, List, [], ◌∷◌, ◌++◌, is_none, ◌==◌, ◌≈◌, first, select,
  sort_by,
}
use omnibioai_auth.Models.{Role, OrganizationMembership, Db}

-- The union of the permissions of the roles, repetitions kept: only membership is asked of it.
unfoldable pub permissions_for_roles : List Role → List String
permissions_for_roles [] = []
permissions_for_roles (role ∷ roles) = role.permissions ++ permissions_for_roles roles

unfoldable pub permissions_for_membership : OrganizationMembership → List String
unfolding permissions_for_roles
permissions_for_membership membership = permissions_for_roles membership.roles

unfoldable pub get_membership : ℕ → ℕ → Db → Option OrganizationMembership
get_membership org_id user_id db =
    first (λ m. m.organization_id == org_id && m.user_id == user_id) db.memberships

-- `get_role_by_name(db, name)`: a platform-wide role only.
unfoldable pub get_role_by_name : String → Db → Option Role
get_role_by_name name db = first (λ r. r.name ≈ name && is_none r.organization_id) db.roles

abbrev pub active_member : ℕ → OrganizationMembership → Bool
active_member user_id m = m.user_id == user_id && m.status ≈ "active"

-- The Default Organization's membership, else the earliest.
prefer_default : List OrganizationMembership → Option OrganizationMembership
prefer_default [] = none
prefer_default (m ∷ ms) = elim (first (λ x. x.organization.slug ≈ "default") (m ∷ ms)) [
  | none ↦ some m
  | some x ↦ some x
]

unfoldable pub resolve_primary_membership : ℕ → Db → Option OrganizationMembership
unfolding prefer_default
resolve_primary_membership user_id db =
    prefer_default (sort_by (λ m. m.id) (select (active_member user_id) db.memberships))
