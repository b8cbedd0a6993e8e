-- ===== src/Lib.antt =====
-- The authentication service: tokens, sessions, teams and authorization.
--
-- The service signs a user in, hands out a short-lived access token and a refresh token, exchanges
-- refresh tokens, and authorizes each request. The parts that carry this, and the files that model
-- them:
--   * app/db/models.py: Models.antt, the rows as records and the database `Db` as a record of
--     tables; Models/Events.antt, the audit trail that app/services/audit_service.py appends to.
--   * app/services/session_service.py: Session.antt, a function for each function, with
--     Session/Revocation.antt and Session/Timeouts.antt on what they do.
--   * app/services/auth_service.py: Auth/Claims.antt (build_user_claims), Auth/Refresh.antt
--     (rotate_refresh_token and the revocations), Auth/Issue.antt (generate_tokens and the cap on
--     sessions), Auth/Trace.antt (a run of the service as a list of operations), Auth/Keeps.antt (an
--     invariant that the primitive writes keep is kept by every operation), Auth/Authenticate.antt
--     (authenticate_user). The other files of Auth/ are named for what they prove.
--   * app/services/team_service.py: Team.antt, Team/Admins.antt, Team/Replace.antt.
--   * app/services/org_service.py and role_service.py: Org.antt for what claims and authorization
--     read, Org/Roles.antt (the catalogue of roles and their assignment, with Org/Roles/Scope.antt), Org/Members.antt
--     (memberships, and set_user_status of app/services/user_admin_service.py), Org/Registry.antt
--     (the registry of app/core/permission_names.py), Org/Catalogue.antt (the creation of an
--     organization, replaced permissions, and the roles topped up at startup).
--   * app/services/mfa_service.py: Mfa/Totp.antt (codes), Mfa/Devices.antt (enrolment),
--     Mfa/RecoveryCodes.antt, Mfa/Policy.antt (the policy of an organization), Mfa/Steps.antt (the
--     steps that are claimed), Mfa/Challenge.antt (verify_mfa_challenge), with the token of a challenge from
--     app/core/jwt.py in Mfa/Token.antt; app/services/email_mfa_service.py: Mfa/Email.antt
--     with Mfa/Email/ on the guesses at a code;
--     generate_tokens_or_mfa_challenge of auth_service.py: Mfa/Decision.antt;
--     app/services/mfa_enrollment_service.py: Mfa/Enrollment.antt, over a table of its own.
--   * app/services/org_invitation_service.py: Invitation.antt (creation, listing, revocation) and
--     Invitation/Accept.antt; Invitation/Lifecycle.antt has the life of an invitation as a relation,
--     which Invitation/Follows.antt, Invitation/Creation.antt and Invitation/Runs.antt prove of each
--     operation.
--   * app/services/apikey_service.py: ApiKey.antt, ApiKey/Exchange.antt.
--   * app/core/password_policy.py, compromised_password.py and common_passwords.py: Password.antt,
--     Password/Accepted.antt (for texts in ASCII).
--   * app/core/token_revocation.py: TokenRevocation.antt, over an interface `Blacklist` to Redis.
--   * app/core/rate_limit.py: RateLimit.antt with RateLimit/InProcess.antt (the fallback), over an
--     interface to Redis in RateLimit/Commands.antt; RateLimit/Window.antt and RateLimit/Locks.antt
--     on what it does.
--   * app/services/login_throttle_service.py and mfa_throttle_service.py: Throttle.antt for what
--     they share, Throttle/Login.antt and Throttle/Mfa.antt for their keys and audit events.
--   * app/rbac.py: Rbac.antt, Rbac/Identity.antt, Rbac/Organizations.antt.
-- Prelude.antt and its children hold the operations on tables and texts; Tests.antt and its
-- children run the definitions on concrete data.
--
-- How the code corresponds to the model. A function that writes takes the database and returns it;
-- `rotate_refresh_token` splits at its lookups into `rotate_row`, `rotate_in_session`,
-- `rotate_for_user` and `exchange`. A table is the list of its rows in the order of insertion; the
-- first row that a filter matches stands for `.first()`. Times are whole microseconds, and the
-- clock is read once for each request (`Call.now`); Redis counts in seconds, the fallback in
-- milliseconds. Numbers are unbounded as in Python. `lower`, `upper`
-- and `int` of a text are those of ASCII. All functions are total and none needs fuel: the loops run over lists. A `ValueError` or an
-- `HTTPException` is an `err` of `Result`.
--
-- Parameters: SHA-256 and the verification of a signed token (`Crypto`), the hashing
-- of passwords (`Passwords`), the normal form and digest of an e-mail (`Hashing`), the tokens that are signed
-- in a request and `uuid.uuid4()` (`Call`), Redis (`Blacklist`, `Redis`), the settings (`Settings`),
-- HMAC (`Hmac`), encryption of secrets (`MfaCrypto`), the keyed digest, decoding and delivery of
-- mailed codes (`EmailCrypto`), SHA-1 and the lines that the breach API answers, and for each request its random values and the keys of its new rows.
-- Hypotheses on them are written at each theorem.
--
-- Not modelled: the overlap of requests and transactions (each function's writes are durable when it
-- returns, and a function that raises leaves what was committed), columns that no modelled function
-- reads or writes, the states before and after and the integrity fields of audit events, the
-- provisioning of tenants in another thread, the routes of enrolment in MFA during a login, SAML and OIDC sign-on,
-- service clients and delegated grants, licences, the HTTP routes and the
-- migrations.
pub mod Prelude
pub mod Models
pub mod Session
pub mod Org
pub mod Team
pub mod Auth
pub mod TokenRevocation
pub mod Rbac
pub mod RateLimit
pub mod Throttle
pub mod Mfa
pub mod Invitation
pub mod ApiKey
pub mod Password
pub mod Tests
