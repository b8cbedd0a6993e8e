-- ===== src/Tests/Tokens.antt =====
-- Runs of the rotation of refresh tokens in app/services/auth_service.py.
use omnibioai_auth.Prelude.{
  String, ◌≡◌, ◌≤◌, ◌+◌, refl, true, none, some, List, [], ◌∷◌, arith, ◌≈◌,
}
use omnibioai_auth.Models.{seconds, revoked, reuse_detected, RefreshToken, User, Db}
use omnibioai_auth.Session.{
  get_by_family_id, create, effective_status, revoke, is_usable, check_timeout_policy,
}
use omnibioai_auth.Auth.Refresh.{Call, unset, revoke_token, revoke_sessions, rotate_refresh_token}
use omnibioai_auth.Auth.Trace.{Operation, login, refresh, logout, step, run, AllAdmit}
use omnibioai_auth.Auth.Issue.{generate_tokens}
use omnibioai_auth.Auth.Grant.{IsGranted, rotate_refresh_token-IsGranted}
use omnibioai_auth.Auth.Exchanged.{IsExchanged, rotate_refresh_token-IsExchanged}
use omnibioai_auth.Auth.Reuse.{exchanged_once}
use omnibioai_auth.Auth.Kill.{IsKilled, reuse_kills_family}
use omnibioai_auth.Auth.Dead.{dead_row_stays, dead_family_refused}
use omnibioai_auth.Auth.Families.{IsFresh, IsSingleLive, run-IsSingleLive}
use omnibioai_auth.Auth.Lifetime.{lifetime_bounded}
use omnibioai_auth.Tests.{short_sessions, plain, request, token, session, db, alice, password_login}

abbrev first_call : Call
first_call = request (seconds 10) "u1" "t4"

abbrev second_call : Call
second_call = request (seconds 20) "u2" "t5"

abbrev logout_t2 : List Operation
logout_t2 = logout (seconds 15) "t2" ∷ []

exchange_t1 :
    (rotate_refresh_token short_sessions plain first_call "t1" unset db).0 ≡ some ("access", "t4")
unfolding rotate_refresh_token is_usable get_by_family_id check_timeout_policy ◌≈◌
exchange_t1 = refl

exchanged_once_example :
    (rotate_refresh_token short_sessions plain second_call "t1" unset (
      run short_sessions plain logout_t2
        (rotate_refresh_token short_sessions plain first_call "t1" unset db).1)).0
    ≡ none
exchanged_once_example =
    exchanged_once short_sessions plain first_call second_call "t1" unset unset logout_t2 db
      ("access", "t4") exchange_t1

-- The token t1 was exchanged for t4.
abbrev old_t1 : RefreshToken
old_t1 = record (token "t1" "f1") { revoked = true; rotated_at = some 0 }

abbrev rotated_db : Db
rotated_db = record db { refresh_tokens = old_t1 ∷ token "t4" "f1" ∷ [] }

reuse_kills_family_example :
    ((rotate_refresh_token short_sessions plain first_call "t1" unset rotated_db).0 ≡ none)
    × IsKilled
        (seconds 10)
        "f1"
        reuse_detected
        rotated_db
        (rotate_refresh_token short_sessions plain first_call "t1" unset rotated_db).1
unfolding ◌≈◌
reuse_kills_family_example =
    reuse_kills_family short_sessions plain first_call "t1" unset rotated_db old_t1 "f1" refl refl
      refl refl

has_f3 : get_by_family_id (some "f3") db ≡ some (session "f3" revoked 0)
unfolding get_by_family_id ◌≈◌
has_f3 = refl

dead_row_stays_example :
    get_by_family_id (some "f3") (run short_sessions plain logout_t2 db)
    ≡ some (session "f3" revoked 0)
dead_row_stays_example =
    dead_row_stays short_sessions plain "f3" (session "f3" revoked 0) refl logout_t2 db has_f3

dead_family_refused_example :
    (rotate_refresh_token short_sessions plain first_call "t3" unset
      (run short_sessions plain logout_t2 db)).0
    ≡ none
unfolding run step revoke_token revoke ◌≈◌
dead_family_refused_example =
    dead_family_refused short_sessions plain "f3" (session "f3" revoked 0) refl logout_t2 db
      first_call "t3" unset (token "t3" "f3") has_f3 refl refl

rotate_refresh_token-IsGranted_example :
    (t : RefreshToken) × (user : User) × IsGranted short_sessions plain first_call "t1" unset db t
      user
rotate_refresh_token-IsGranted_example =
    rotate_refresh_token-IsGranted short_sessions plain first_call "t1" unset db ("access", "t4")
      exchange_t1

t1-IsGranted : IsGranted short_sessions plain first_call "t1" unset db (token "t1" "f1") alice
unfolding get_by_family_id is_usable check_timeout_policy ◌≈◌
t1-IsGranted = record {
  known = refl;
  not_rotated = refl;
  not_revoked = refl;
  not_expired = refl;
  session_usable = refl;
  within_policy = refl;
  account = refl;
  account_active = refl;
}

rotate_refresh_token-IsExchanged_example :
    (issued : String × String) × (db' : Db) × (rotate_refresh_token short_sessions plain first_call
        "t1" unset db
      ≡ (some issued, db'))
    × IsExchanged short_sessions plain first_call "t1" unset db (token "t1" "f1") alice issued db'
unfolding ◌≈◌
rotate_refresh_token-IsExchanged_example =
    rotate_refresh_token-IsExchanged short_sessions plain first_call "t1" unset db (token "t1" "f1")
      alice t1-IsGranted refl

lifetime_bounded_example : seconds 10 ≤ 0 + seconds 100
unfolding get_by_family_id run ◌≈◌
lifetime_bounded_example =
    lifetime_bounded short_sessions plain "f1" 0 [] db first_call "t1" unset (token "t1" "f1")
      ("access", "t4") refl refl refl exchange_t1

-- A login and a refresh, from an empty table of tokens.
abbrev login_refresh : List Operation
login_refresh =
    login first_call alice password_login ∷ refresh (request (seconds 20) "u2" "t5") "t4" unset ∷ []

abbrev no_tokens : Db
no_tokens = record db { refresh_tokens = [] }

uuids-IsFresh : AllAdmit short_sessions plain IsFresh login_refresh no_tokens
unfolding step generate_tokens create effective_status revoke_sessions revoke ◌≈◌
uuids-IsFresh = (refl, (refl, tt))

none_live : IsSingleLive no_tokens
none_live f = omega arith

run-IsSingleLive_example : IsSingleLive (run short_sessions plain login_refresh no_tokens)
run-IsSingleLive_example =
    run-IsSingleLive short_sessions plain login_refresh no_tokens uuids-IsFresh none_live
