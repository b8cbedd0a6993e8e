-- ===== src/Team/Replace.antt =====
-- `set_team_members` of app/services/team_service.py: the bulk replacement of a team's members.
use mathlib.Core.Bool.{◌||◌}
use omnibioai_auth.Prelude.{
  ℕ, ◌≡◌, refl, true, false, not, ◌&&◌, List, [], ◌∷◌, arith, ◌==◌, ◌≈◌, select, count,
  count-append, All, All-append, is_none, ok, subst, Bool-cases, inl, inr,
}
use omnibioai_auth.Models.{Team, TeamMember, User, Db}
use omnibioai_auth.Org.{get_membership}
use omnibioai_auth.Team.{
  contains_id, kept_members, replaced, all_members, added_members, set_team_members, is_admin_of,
  admin_count,
}

-- A row of the team belongs to an account that is a member of the organization.
abbrev pub IsInside : ℕ → ℕ → Db → TeamMember → Type 0
IsInside team_id organization_id db m =
    m.team_id ≡ team_id → is_none (get_membership organization_id m.user_id db) ≡ false

all_members-contains_id :
    (org u : ℕ) (us : List ℕ) (db : Db)
    → all_members org us db ≡ true
    → contains_id u us ≡ true
    → is_none (get_membership org u db) ≡ false
unfolding all_members
all_members-contains_id org u [] db h c = cc
all_members-contains_id org u (x ∷ us) db h c = ground (arith, all_members-contains_id org u us db)

module _ (team_id org : ℕ) (ids : List ℕ) (db : Db) (valid : all_members org ids db ≡ true) where
  kept-IsInside :
      (rows : List TeamMember)
      → All
          (IsInside team_id org db)
          (select (λ m. not (m.team_id == team_id) || contains_id m.user_id ids) rows)
  kept-IsInside [] = tt
  kept-IsInside (m ∷ rows) =
      ground (arith, kept-IsInside rows, all_members-contains_id org m.user_id ids db valid)

  added-IsInside :
      (rows : List TeamMember) (users : List User)
      → All (IsInside team_id org db) (added_members team_id ids rows users)
  unfolding added_members
  added-IsInside rows [] = tt
  added-IsInside rows (u ∷ us) =
      ground (arith, added-IsInside rows us, all_members-contains_id org u.id ids db valid)

-- A bulk replacement that succeeds leaves in the team only accounts that are members of the
-- organization that the request names.
pub set_team_members-IsInside :
    (team : Team) (org : ℕ) (ids : List ℕ) (db db' : Db)
    → set_team_members team org ids db ≡ ok db'
    → All (IsInside team.id org db) db'.team_members
unfolding set_team_members
set_team_members-IsInside team org ids db db' h = elim (Bool-cases (all_members org ids db)) [
  | inr some_outside ↦ ground arith
  | inl valid ↦
      let written : replaced team ids db ≡ db' = ground arith in
      subst (λ d. All (IsInside team.id org db) d.team_members) written
        (All-append (IsInside team.id org db) _ _
          (kept-IsInside team.id org ids db valid db.team_members)
          (added-IsInside team.id org ids db valid db.team_members db.users))
]

added_no_admin :
    (t t' : ℕ) (ids : List ℕ) (rows : List TeamMember) (users : List User)
    → count (is_admin_of t') (added_members t ids rows users) ≡ 0
unfolding added_members ◌≈◌
added_no_admin t t' ids rows [] = refl
added_no_admin t t' ids rows (u ∷ us) = ground (arith, added_no_admin t t' ids rows us)

kept_admins :
    (t : ℕ) (ids : List ℕ) (rows : List TeamMember)
    → count (is_admin_of t) (kept_members t ids rows)
      ≡ count (λ m. is_admin_of t m && contains_id m.user_id ids) rows
kept_admins t ids [] = refl
kept_admins t ids (m ∷ rows) = ground (arith, kept_admins t ids rows)

-- The last-admin guard of the per-member operations is not in this path: after a replacement that
-- succeeds the team has exactly as many admins as it had among the listed accounts, none when the
-- list names no admin.
pub admin_count-set_team_members :
    (team : Team) (org : ℕ) (ids : List ℕ) (db db' : Db)
    → set_team_members team org ids db ≡ ok db'
    → admin_count team.id db'
      ≡ count (λ m. is_admin_of team.id m && contains_id m.user_id ids) db.team_members
unfolding set_team_members
admin_count-set_team_members team org ids db db' h = elim (Bool-cases (all_members org ids db)) [
  | inr some_outside ↦ ground arith
  | inl valid ↦
      let written : replaced team ids db ≡ db' = ground arith in
      subst
        (λ d.
          admin_count team.id d
          ≡ count (λ m. is_admin_of team.id m && contains_id m.user_id ids) db.team_members)
        written
        (omega (
          arith,
          count-append (is_admin_of team.id) (kept_members team.id ids db.team_members)
              (added_members team.id ids db.team_members db.users),
          kept_admins team.id ids db.team_members,
          added_no_admin team.id team.id ids db.team_members db.users,
        ))
]
