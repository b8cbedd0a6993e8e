-- ===== src/Team/Admins.antt =====
-- The last-admin guard of app/services/team_service.py.
use omnibioai_auth.Prelude.{
  ℕ, Option, ◌≤◌, ◌≡◌, String, none, some, List, [], ◌∷◌, arith, ≈_iff, count-append,
  count-delete_first, count-update_first, first-holds, Option-cases, inl, inr,
}
use omnibioai_auth.Models.{Team, TeamMember, Db}
use omnibioai_auth.Team.{
  has_key, is_admin_of, admin_count, get_team_member, invite_to_team, set_member_role,
  remove_member, leave_team,
}

-- A request of the per-member routes: the member of a request is looked up by its key first, and
-- a request for a member who is not there does nothing.
pub data Request : Type 0 where
  invite : Team → ℕ → String → ℕ → String → Request
  change_role : ℕ → ℕ → String → Request
  remove : ℕ → ℕ → Request
  leave : ℕ → ℕ → Request

with_member : (TeamMember → Db → Db) → Option TeamMember → Db → Db
with_member op none db = db
with_member op (some m) db = op m db

pub handle : Request → Db → Db
unfolding with_member
handle (invite team org email by role) db = (invite_to_team team org email by role db).1
handle (change_role t u role) db =
    with_member (λ m s. (set_member_role m role s).1) (get_team_member t u db) db
handle (remove t u) db = with_member (λ m s. (remove_member m s).1) (get_team_member t u db) db
handle (leave t u) db = with_member (λ m s. (leave_team m s).1) (get_team_member t u db) db

pub serve : List Request → Db → Db
serve [] db = db
serve (r ∷ rs) db = serve rs (handle r db)

module _ (t : ℕ) (db : Db) where
  invite_keeps :
      (team : Team) (org : ℕ) (email : String) (by : ℕ) (role : String)
      → admin_count t db ≤ admin_count t (invite_to_team team org email by role db).1
  unfolding invite_to_team
  invite_keeps team org email by role = grind (arith, count-append)

  module _ (m : TeamMember) (found : get_team_member m.team_id m.user_id db ≡ some m)
      (some_admin : 1 ≤ admin_count t db) where
    set_role_keeps : (role : String) → 1 ≤ admin_count t (set_member_role m role db).1
    unfolding set_member_role get_team_member
    set_role_keeps role = ground (
      arith,
      ≈_iff role "admin",
      count-update_first (is_admin_of t) (has_key m.team_id m.user_id)
          (λ x. record x { role = role }) db.team_members m found,
    )

    remove_keeps : 1 ≤ admin_count t (remove_member m db).1
    unfolding remove_member get_team_member
    remove_keeps = ground (
      arith,
      count-delete_first (is_admin_of t) (has_key m.team_id m.user_id) db.team_members m found,
    )

    leave_keeps : 1 ≤ admin_count t (leave_team m db).1
    unfolding leave_team get_team_member
    leave_keeps = ground (
      arith,
      count-delete_first (is_admin_of t) (has_key m.team_id m.user_id) db.team_members m found,
    )

get_team_member_at :
    {t u t' u' : ℕ} (db : Db) {m : TeamMember}
    → t' ≡ t
    → u' ≡ u
    → get_team_member t u db ≡ some m
    → get_team_member t' u' db ≡ some m
get_team_member_at db et eu e = rw (et, eu) e

-- The row that a key finds has that key.
found_by_key :
    (t u : ℕ) (db : Db) (m : TeamMember)
    → get_team_member t u db ≡ some m
    → get_team_member m.team_id m.user_id db ≡ some m
found_by_key t u db m e =
    let keys : (m.team_id ≡ t) × (m.user_id ≡ u) =
      unfold get_team_member in ground (arith, first-holds (has_key t u) db.team_members m e) in
    get_team_member_at db keys.0 keys.1 e

handle_keeps :
    (t : ℕ) (r : Request) (db : Db) → 1 ≤ admin_count t db → 1 ≤ admin_count t (handle r db)
unfolding handle
handle_keeps t (invite team org email by role) db h =
    omega (arith, invite_keeps t db team org email by role)
handle_keeps t (change_role t' u role) db h = elim (Option-cases (get_team_member t' u db)) [
  | inl missing ↦ rw missing h
  | inr (m, e) ↦ rw e (set_role_keeps t db m (found_by_key t' u db m e) h role)
]
handle_keeps t (remove t' u) db h = elim (Option-cases (get_team_member t' u db)) [
  | inl missing ↦ rw missing h
  | inr (m, e) ↦ rw e (remove_keeps t db m (found_by_key t' u db m e) h)
]
handle_keeps t (leave t' u) db h = elim (Option-cases (get_team_member t' u db)) [
  | inl missing ↦ rw missing h
  | inr (m, e) ↦ rw e (leave_keeps t db m (found_by_key t' u db m e) h)
]

-- A team that has an admin keeps one, through every sequence of invitations, role changes,
-- removals and departures, whatever teams and members they name and whether or not they fail.
pub admin_remains :
    (t : ℕ) (requests : List Request) (db : Db)
    → 1 ≤ admin_count t db
    → 1 ≤ admin_count t (serve requests db)
unfolding serve
admin_remains t [] db h = h
admin_remains t (r ∷ rs) db h = admin_remains t rs (handle r db) (handle_keeps t r db h)
