-- ===== src/Tests/Sessions.antt =====
-- Runs of app/services/session_service.py, and of the operations on all sessions of an account.
use omnibioai_auth.Prelude.{
  ◌≤◌, String, ◌≡◌, ◌≢◌, ◌↔◌, ◌||◌, refl, true, false, none, some, arith, ◌≈◌, ≈_refl, contains,
  count, All,
}
use omnibioai_auth.Models.{seconds, active, user_revoked}
use omnibioai_auth.Session.{
  is_usable, check_timeout_policy, effective_status, status_active, find_active_by_saml_identity,
}
use omnibioai_auth.Session.Timeouts.{
  effective_status-is_usable, IsMatch, find_active_by_saml_identity-IsMatch,
}
use omnibioai_auth.Auth.Claims.{
  build_user_claims, claims_permission, granted_by, granted_in, claimed_membership,
}
use omnibioai_auth.Auth.Refresh.{open_session_of, revoke_all_sessions_for_user}
use omnibioai_auth.Auth.Issue.{generate_tokens}
use omnibioai_auth.Auth.Evict.{HasIds}
use omnibioai_auth.Auth.Limit.{in_effect, login_respects_cap, end_all_leaves_none}
use omnibioai_auth.Tests.{short_sessions, plain, request, session, db, alice, password_login}

-- Texts that the program tells apart differ.
differ : (a b : String) → (a ≈ b) ≡ false → a ≢ b
differ a b e same = ground (arith, ≈_refl b)

ids : HasIds db
unfolding ◌≈◌
ids = record {
  distinct = (
    (differ "f1" "f2" refl, (differ "f1" "f3" refl, tt)),
    ((differ "f2" "f3" refl, tt), (tt, tt)),
  );
  named = (refl, (refl, (refl, tt)));
}

login_respects_cap_example :
    count
      (in_effect short_sessions (seconds 10) 1)
      (generate_tokens short_sessions plain
        (request (seconds 10) "u1" "t4")
        alice
        password_login
        db).1.sessions
    ≤ 2
login_respects_cap_example =
    login_respects_cap short_sessions plain (request (seconds 10) "u1" "t4") alice password_login db
      ids (omega arith)

end_all_leaves_none_example :
    (count
        (open_session_of 1)
        (revoke_all_sessions_for_user (seconds 10) 1 user_revoked (some 2) db).1.sessions
      ≡ 0)
    × ((revoke_all_sessions_for_user (seconds 10) 1 user_revoked (some 2) db).0
        ≡ count (open_session_of 1) db.sessions)
end_all_leaves_none_example = end_all_leaves_none (seconds 10) 1 user_revoked (some 2) db ids

claims_permission_example :
    contains "read_org" (build_user_claims alice "password" none none none db).permissions ≡ (
      granted_by "read_org" alice.roles || granted_in "read_org" (claimed_membership alice none db))
claims_permission_example = claims_permission alice "password" none none none db "read_org"

effective_status-is_usable_example :
    (effective_status short_sessions (seconds 10) (session "f1" active 0) ≡ status_active) ↔ (
      (is_usable (seconds 10) (some (session "f1" active 0)) ≡ true)
      × (check_timeout_policy short_sessions (seconds 10) (some (session "f1" active 0)) ≡ none))
effective_status-is_usable_example =
    effective_status-is_usable short_sessions (session "f1" active 0) (seconds 10)

find_active_by_saml_identity-IsMatch_example :
    All
      (IsMatch 3 "alice" (some "index"))
      (find_active_by_saml_identity 3 "alice" (some "index") db)
find_active_by_saml_identity-IsMatch_example =
    find_active_by_saml_identity-IsMatch 3 "alice" (some "index") db
