-- ===== src/Team.antt =====
-- app/services/team_service.py. A team and its members are found by their keys; an operation on a
-- `TeamMember` acts on the row with that member's key.
pub mod Admins
pub mod Replace
use omnibioai_auth.Prelude.{
  ℕ, ◌≤◌, String, Bool, true, false, not, ◌&&◌, ◌||◌, Option, none, some, List, [], ◌∷◌, ◌++◌,
  is_none, leb, ◌==◌, ◌≈◌, first, select, count, update_first, delete_first, contains, Result, ok,
  err, map, if◌then◌else◌,
}
use omnibioai_auth.Models.{Team, TeamMember, User, OrganizationMembership, Db}
use omnibioai_auth.Org.{get_membership}

-- The `ValueError`s, by their messages.
pub data TeamError : Type 0 where
  invalid_role not_members last_admin_demoted last_admin_removed last_admin_leaves : TeamError

abbrev pub Outcome : Type 0 → Type 0
Outcome A = Result TeamError A

abbrev pub team_roles : List String
team_roles = "admin" ∷ "member" ∷ "viewer" ∷ []

abbrev pub default_team_role : String
default_team_role = "member"

unfoldable pub create_team : ℕ → ℕ → String → Option String → Option ℕ → Db → Team × Db
create_team fresh_id organization_id name description created_by db =
    let team : Team = record {
      id = fresh_id;
      organization_id = organization_id;
      name = name;
      description = description;
      created_by_user_id = created_by;
    } in
    (team, record db { teams = db.teams ++ team ∷ [] })

abbrev pub or_kept {ℓ} : {A : Type ℓ} → Option A → A → A
or_kept none old = old
or_kept (some new) old = new

unfoldable pub update_team : Team → Option String → Option String → Db → Db
update_team team name description db = record db {
  teams =
      update_first (λ t. t.id == team.id)
        (λ t. record t {
          name = or_kept name t.name;
          description = elim description [ none ↦ t.description | some d ↦ some d ];
        })
        db.teams;
}

unfoldable pub list_teams : ℕ → Db → List Team
list_teams organization_id db = select (λ t. t.organization_id == organization_id) db.teams

unfoldable pub get_team : ℕ → ℕ → Db → Option Team
get_team organization_id team_id db =
    first (λ t. t.id == team_id && t.organization_id == organization_id) db.teams

abbrev pub has_key : ℕ → ℕ → TeamMember → Bool
has_key team_id user_id m = m.team_id == team_id && m.user_id == user_id

-- The association rows of the team go with it, as the ORM deletes those of `Team.members`.
unfoldable pub delete_team : Team → Db → Db
delete_team team db = record db {
  teams = delete_first (λ t. t.id == team.id) db.teams;
  team_members = select (λ m. not (m.team_id == team.id)) db.team_members;
}

abbrev pub contains_id : ℕ → List ℕ → Bool
contains_id n [] = false
contains_id n (x ∷ xs) = n == x || contains_id n xs

-- `invalid` is empty.
all_members : ℕ → List ℕ → Db → Bool
all_members organization_id [] db = true
all_members organization_id (u ∷ us) db =
    not (is_none (get_membership organization_id u db)) && all_members organization_id us db

-- The rows that the assignment to `team.members` inserts: one for each listed account that has
-- none yet, with the column's default role.
pub added_members : ℕ → List ℕ → List TeamMember → List User → List TeamMember
added_members team_id user_ids rows [] = []
added_members team_id user_ids rows (u ∷ us) =
    let rest = added_members team_id user_ids rows us in
    if contains_id u.id user_ids && is_none (first (has_key team_id u.id) rows)
    then record {
      team_id = team_id;
      user_id = u.id;
      role = default_team_role;
      invited_by_user_id = none;
    }
      ∷ rest
    else rest

abbrev pub kept_members : ℕ → List ℕ → List TeamMember → List TeamMember
kept_members team_id user_ids =
    select (λ m. not (m.team_id == team_id) || contains_id m.user_id user_ids)

-- The assignment to `team.members` deletes the rows of the accounts that are not listed, and
-- inserts rows for those that are new.
abbrev pub replaced : Team → List ℕ → Db → Db
replaced team user_ids db = record db {
  team_members =
      kept_members team.id user_ids db.team_members
      ++ added_members team.id user_ids db.team_members db.users;
}

unfoldable pub set_team_members : Team → ℕ → List ℕ → Db → Outcome Db
unfolding all_members added_members get_membership
set_team_members team organization_id user_ids db =
    if all_members organization_id user_ids db
    then ok (replaced team user_ids db)
    else err not_members

unfoldable pub get_team_member : ℕ → ℕ → Db → Option TeamMember
get_team_member team_id user_id db = first (has_key team_id user_id) db.team_members

abbrev pub is_admin_of : ℕ → TeamMember → Bool
is_admin_of team_id m = m.team_id == team_id && m.role ≈ "admin"

abbrev pub admin_count : ℕ → Db → ℕ
admin_count team_id db = count (is_admin_of team_id) db.team_members

abbrev pub is_last_admin : TeamMember → Db → Bool
is_last_admin member db = member.role ≈ "admin" && leb (admin_count member.team_id db) 1

-- The new member of a successful invitation is added last.
unfoldable pub invite_to_team :
    Team → ℕ → String → ℕ → String → Db → Outcome (Option TeamMember) × Db
unfolding get_team_member get_membership
invite_to_team team organization_id email invited_by role db =
    if not (contains role team_roles)
    then (err invalid_role, db)
    else elim (first (λ u. u.email ≈ email) db.users) [
      | none ↦ (ok none, db)
      | some invitee ↦ elim (get_membership organization_id invitee.id db) [
        | none ↦ (err not_members, db)
        | some _ ↦ elim (get_team_member team.id invitee.id db) [
          | some existing ↦ (ok (some existing), db)
          | none ↦
              let member : TeamMember = record {
                team_id = team.id;
                user_id = invitee.id;
                role = role;
                invited_by_user_id = some invited_by;
              } in
              (ok (some member), record db { team_members = db.team_members ++ member ∷ [] })
        ]
      ]
    ]

unfoldable pub set_member_role : TeamMember → String → Db → Outcome TeamMember × Db
set_member_role member new_role db =
    if not (contains new_role team_roles)
    then (err invalid_role, db)
    else if not (new_role ≈ "admin") && is_last_admin member db
    then (err last_admin_demoted, db)
    else (
      ok (record member { role = new_role }),
      record db {
        team_members =
            update_first (has_key member.team_id member.user_id) (λ m. record m { role = new_role })
              db.team_members;
      },
    )

delete_member : TeamMember → Db → Db
delete_member member db = record db {
  team_members = delete_first (has_key member.team_id member.user_id) db.team_members;
}

unfoldable pub remove_member : TeamMember → Db → Outcome (Unit {0}) × Db
unfolding delete_member
remove_member member db =
    if is_last_admin member db
    then (err last_admin_removed, db)
    else (ok tt, delete_member member db)

unfoldable pub leave_team : TeamMember → Db → Outcome (Unit {0}) × Db
unfolding delete_member
leave_team member db =
    if is_last_admin member db
    then (err last_admin_leaves, db)
    else (ok tt, delete_member member db)

unfoldable pub resolve_team_claim : Option ℕ → Option ℕ → ℕ → Db → Option ℕ × Option String
unfolding get_team_member
resolve_team_claim (some org_id) (some team_id) user_id db =
    elim (first (λ t. t.id == team_id) db.teams) [
      | none ↦ (none, none)
      | some team ↦
          if not (team.organization_id == org_id)
          then (none, none)
          else elim (get_team_member team_id user_id db) [
            | none ↦ (none, none)
            | some member ↦ (some team_id, some member.role)
          ]
    ]
resolve_team_claim org_id team_id user_id db = (none, none)
