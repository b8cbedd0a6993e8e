-- ===== src/Tests/Teams.antt =====
-- Runs of app/services/team_service.py.
use omnibioai_auth.Prelude.{◌≤◌, ◌≡◌, ◌&&◌, refl, List, [], ◌∷◌, arith, ◌≈◌, count, All, ok}
use omnibioai_auth.Team.{admin_count, is_admin_of, contains_id, set_team_members, replaced}
use omnibioai_auth.Team.Admins.{Request, change_role, remove, leave, serve, admin_remains}
use omnibioai_auth.Team.Replace.{IsInside, set_team_members-IsInside, admin_count-set_team_members}
use omnibioai_auth.Tests.{db, genomics}

-- The one admin may neither be demoted nor leave until another is there.
abbrev requests : List Request
requests =
    change_role 5 1 "viewer" ∷ leave 5 1 ∷ change_role 5 2 "admin" ∷ remove 5 1 ∷ remove 5 2 ∷ []

admin_remains_example : 1 ≤ admin_count 5 (serve requests db)
unfolding ◌≈◌
admin_remains_example = admin_remains 5 requests db (omega arith)

-- The replacement lists bob alone, who is no admin.
replacement : set_team_members genomics 10 (2 ∷ []) db ≡ ok (replaced genomics (2 ∷ []) db)
unfolding set_team_members ◌≈◌
replacement = refl

set_team_members-IsInside_example :
    All (IsInside 5 10 db) (replaced genomics (2 ∷ []) db).team_members
set_team_members-IsInside_example =
    set_team_members-IsInside genomics 10 (2 ∷ []) db (replaced genomics (2 ∷ []) db) replacement

admin_count-set_team_members_example :
    admin_count 5 (replaced genomics (2 ∷ []) db)
    ≡ count (λ m. is_admin_of 5 m && contains_id m.user_id (2 ∷ [])) db.team_members
admin_count-set_team_members_example =
    admin_count-set_team_members genomics 10 (2 ∷ []) db (replaced genomics (2 ∷ []) db) replacement
