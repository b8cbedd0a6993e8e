-- ===== src/Invitation/Accept.antt =====
-- Acceptance in app/services/org_invitation_service.py, by a new account and by one that exists.
-- Hashing and checking of passwords, the password policy, secrets and the keys of new rows are
-- parameters. The retries after a conflict of two transactions are not modelled.
use omnibioai_auth.Prelude.{
  ℕ, suc, String, Bool, true, false, not, ◌&&◌, ◌||◌, Option, none, some, List, [], ◌∷◌, ◌++◌, leb,
  ◌==◌, ◌≈◌, is_none, first, update_first, if◌then◌else◌, Result, ok, err,
}
use omnibioai_auth.Models.{
  Time, Role, User, Organization, OrganizationMembership, OrganizationInvitation, InvitationStatus,
  Db, Value, log_event, org_invitation_accepted, org_invitation_denied, org_membership_changed,
  mfa_device_added, mfa_enabled,
}
use omnibioai_auth.Mfa.Totp.{verify_totp_code}
use omnibioai_auth.Mfa.Devices.{MfaCrypto, unix, own_event}
use omnibioai_auth.Mfa.Steps.{verify_user_totp_step_up}
use omnibioai_auth.Org.Roles.{assign_default_role, resolve_roles_for_org}
use omnibioai_auth.Invitation.{
  InvitationError, mfa_not_required, mfa_unavailable, undecryptable, membership_exists,
  existing_account, password_policy, mfa_setup_required, mfa_invalid, identity_mismatch,
  enrollment_required, refused_roles, longer_than, has_token, policy_requires_mfa, invitation_event,
  write_invitation, organization_of, pending_invitation, normalized, after_refusal,
}

-- The functions of a request, and the keys of the rows that it may add.
pub record Acceptance : Type 0 where
  pub sha256 : String → String
  pub mfa : MfaCrypto
  pub mfa_configured : Bool
  pub hash_password : String → String
  pub verify_password : String → Option String → Bool
  pub password_allowed : String → String → Bool
  pub max_accept_attempts : ℕ
  pub now : Time
  pub new_secret : String
  pub user_id : ℕ
  pub device_id : ℕ
  pub role_id : ℕ
  pub membership_id : ℕ

abbrev is_accepted : InvitationStatus → Bool
is_accepted InvitationStatus.pending = false
is_accepted InvitationStatus.accepted = true
is_accepted InvitationStatus.revoked = false
is_accepted InvitationStatus.expired = false

-- The user and the organization of an accepted invitation.
abbrev pub Accepted : Type 0
Accepted = ℕ × ℕ

-- The secret of an enrolment that goes with the invitation: drawn once, and shown again.
unfoldable pub start_invitation_mfa : Acceptance → String → Db → Result InvitationError String × Db
unfolding pending_invitation policy_requires_mfa
start_invitation_mfa a token db =
    let (found, db') = pending_invitation a.sha256 a.now token db in
    elim found [
      | err e ↦ (err e, db')
      | ok i ↦
          if not (policy_requires_mfa i.organization_id db')
          then (err mfa_not_required, db')
          else if not a.mfa_configured
          then (err mfa_unavailable, db')
          else elim i.mfa_secret_encrypted [
            | none ↦ (
              ok a.new_secret,
              write_invitation (has_token (a.sha256 token))
                  (λ x. record x { mfa_secret_encrypted = some (a.mfa.encrypt a.new_secret) }) db',
            )
            | some encrypted ↦ elim (a.mfa.decrypt encrypted) [
              | none ↦ (err undecryptable, db')
              | some secret ↦ (ok secret, db')
            ]
          ]
    ]

abbrev pub asked_roles : List String → List String
asked_roles [] = "org_member" ∷ []
asked_roles (r ∷ rs) = r ∷ rs

abbrev member_row : ℕ → ℕ → OrganizationMembership → Bool
member_row organization_id user_id m = m.organization_id == organization_id && m.user_id == user_id

module _ (a : Acceptance) (i : OrganizationInvitation) (user : User) where
  abbrev pub mine : OrganizationMembership → Bool
  mine = member_row i.organization_id user.id

  abbrev new_membership : Organization → List Role → OrganizationMembership
  new_membership o roles = record {
    id = a.membership_id;
    organization_id = i.organization_id;
    organization = o;
    user_id = user.id;
    status = "active";
    roles = roles;
  }

  -- A membership that is not active is taken up again.
  unfoldable pub write_member : List Role → Db → Db
  write_member roles db = elim (first mine db.memberships) [
    | some m ↦ record db {
      memberships =
          update_first mine (λ x. record x { status = "active"; roles = roles }) db.memberships;
    }
    | none ↦ elim (organization_of i db) [
      | none ↦ db
      | some o ↦ record db { memberships = db.memberships ++ new_membership o roles ∷ [] }
    ]
  ]

  abbrev pub is_active_member : Option OrganizationMembership → Bool
  is_active_member none = false
  is_active_member (some m) = m.status ≈ "active"

  -- `db` is what was committed, to which a failure falls back.
  unfoldable pub activate_membership : Db → Db → Result InvitationError (Unit {0}) × Db
  unfolding resolve_roles_for_org write_member
  activate_membership db pending_writes =
      if is_active_member (first mine pending_writes.memberships)
      then (err membership_exists, db)
      else (let (resolved, db') =
            resolve_roles_for_org i.organization_id i.inviter_is_platform_admin
              (some i.invited_by_user_id) (some user.id) (asked_roles i.role_names)
              pending_writes in
          elim resolved [
            | err e ↦ (err (refused_roles e), after_refusal e db' db)
            | ok roles ↦ (ok tt, write_member roles db')
          ])

  abbrev pub accept_row : OrganizationInvitation → OrganizationInvitation
  accept_row x = record x {
    status = InvitationStatus.accepted;
    active_key = none;
    accepted_at = some a.now;
    accepted_user_id = some user.id;
    mfa_secret_encrypted = none;
  }

  -- The membership, the invitation and their events are written together.
  unfoldable pub activate_invitation : String → Db → Db → Result InvitationError Accepted × Db
  unfolding activate_membership log_event
  activate_invitation token db pending_writes =
      let (activated, db') = activate_membership db pending_writes in
      elim activated [
        | err e ↦ (err e, db')
        | ok _ ↦ (
          ok (user.id, i.organization_id),
          log_event
              (invitation_event org_membership_changed i (some user.id) (some user.id)
                (("reason", Value.text "invitation_accepted") ∷ []))
              (log_event
                (invitation_event org_invitation_accepted i (some user.id) (some user.id) [])
                (write_invitation (has_token (a.sha256 token)) accept_row db')),
        )
      ]

-- A wrong code of MFA counts, and the last that is allowed revokes the invitation.
abbrev pub failed_attempt : Acceptance → OrganizationInvitation → OrganizationInvitation
failed_attempt a i =
    if leb a.max_accept_attempts (suc i.mfa_attempts)
    then record i {
      mfa_attempts = suc i.mfa_attempts;
      status = InvitationStatus.revoked;
      active_key = none;
      revoked_at = some a.now;
    }
    else record i { mfa_attempts = suc i.mfa_attempts }

unfoldable pub deny : Acceptance → String → OrganizationInvitation → Option ℕ → String → Db → Db
unfolding log_event
deny a token i actor reason db =
    log_event
      (invitation_event org_invitation_denied i actor none (("reason", Value.text reason) ∷ []))
      (write_invitation (has_token (a.sha256 token)) (failed_attempt a) db)

abbrev pub shown_code : Option String → String
shown_code none = ""
shown_code (some code) = code

abbrev pub new_user : Acceptance → OrganizationInvitation → String → User
new_user a i password = record {
  id = a.user_id;
  email = i.invited_email;
  hashed_password = some (a.hash_password password);
  status = "active";
  roles = [];
  last_login_at = none;
  authentication_method = none;
  mfa_enabled = false;
  mfa_status = "disabled";
  mfa_primary_method = none;
  mfa_enabled_at = none;
  mfa_last_verified_at = none;
  status_changed_at = none;
  status_changed_reason = none;
  status_changed_by_user_id = none;
}

abbrev enrolled : Acceptance → User → User
enrolled a u = record u {
  mfa_enabled = true;
  mfa_status = "enabled";
  mfa_primary_method = some "totp";
  mfa_enabled_at = some a.now;
  mfa_last_verified_at = some a.now;
}

-- The account with its default role, and with the device of the invitation if there is a secret.
unfoldable pub add_account : Acceptance → User → Option String → Db → Db
unfolding assign_default_role log_event
add_account a user encrypted db =
    let added = assign_default_role a.role_id user (record db { users = db.users ++ user ∷ [] }) in
    elim encrypted [
      | none ↦ added
      | some secret ↦ log_event (own_event mfa_enabled user.id "user" user.id []) (
          log_event (own_event mfa_device_added user.id "mfa_device" a.device_id []) (record added {
            users = update_first (λ u. u.id == user.id) (enrolled a) added.users;
            mfa_devices =
                added.mfa_devices
                ++ (record {
                  id = a.device_id;
                  user_id = user.id;
                  device_type = "totp";
                  encrypted_secret = secret;
                  created_at = a.now;
                  verified_at = some a.now;
                  last_used_at = none;
                  disabled_at = none;
                })
                  ∷ [];
          }))
    ]

unfoldable pub create_and_accept :
    Acceptance
    → String
    → String
    → OrganizationInvitation
    → Option String
    → Db
    → Result InvitationError Accepted × Db
unfolding add_account activate_invitation
create_and_accept a token password i encrypted db =
    let user = new_user a i password in
    activate_invitation a i user token db (add_account a user encrypted db)

-- The retry of an accepted token, by the password of its account.
unfoldable pub accepted_new_user_retry : Acceptance → String → String → Db → Option Accepted
accepted_new_user_retry a token password db =
    elim (first (λ i. has_token (a.sha256 token) i && is_accepted i.status) db.invitations) [
      | none ↦ none
      | some i ↦ elim i.accepted_user_id [
        | none ↦ none
        | some user_id ↦ elim (first (λ u. u.id == user_id) db.users) [
          | none ↦ none
          | some u ↦
              if a.verify_password password u.hashed_password
              then some (user_id, i.organization_id)
              else none
        ]
      ]
    ]

-- With the policy of the organization, the code must fit the secret of the invitation.
unfoldable pub accept_with_mfa :
    Acceptance
    → String
    → String
    → String
    → OrganizationInvitation
    → Db
    → Result InvitationError Accepted × Db
unfolding verify_totp_code deny create_and_accept
accept_with_mfa a token password code i db = elim i.mfa_secret_encrypted [
  | none ↦ (err mfa_setup_required, db)
  | some encrypted ↦
      if code ≈ "" then (err mfa_setup_required, db) else elim (a.mfa.decrypt encrypted) [
        | none ↦ (err undecryptable, db)
        | some secret ↦
            if verify_totp_code a.mfa.mac secret code (unix a.now)
            then create_and_accept a token password i (some encrypted) db
            else (err mfa_invalid, deny a token i none "mfa_verification_failed" db)
      ]
]

unfoldable pub accept_new_user :
    Acceptance → String → String → Option String → Db → Result InvitationError Accepted × Db
unfolding pending_invitation policy_requires_mfa accepted_new_user_retry create_and_accept
    accept_with_mfa
accept_new_user a token password totp_code db =
    elim (if token ≈ "" || longer_than 256 token
      then none
      else accepted_new_user_retry a token password db) [
        | some done ↦ (ok done, db)
        | none ↦
            let (found, db') = pending_invitation a.sha256 a.now token db in
            elim found [
              | err e ↦ (err e, db')
              | ok i ↦
                  if not (is_none (first (λ u. u.email ≈ i.invited_email) db'.users))
                  then (err existing_account, db')
                  else if not (a.password_allowed password i.invited_email)
                  then (err password_policy, db')
                  else if policy_requires_mfa i.organization_id db'
                  then accept_with_mfa a token password (shown_code totp_code) i db'
                  else create_and_accept a token password i none db'
            ]
      ]

abbrev same_id : Option ℕ → ℕ → Bool
same_id none id = false
same_id (some n) id = n == id

-- The retry of the account that accepted.
unfoldable pub accepted_by : Acceptance → String → User → Db → Option Accepted
accepted_by a token user db =
    elim (first
      (λ i.
        has_token (a.sha256 token) i
        && (is_accepted i.status
            && (same_id i.accepted_user_id user.id && i.invited_email ≈ normalized user.email)))
      db.invitations) [ none ↦ none | some i ↦ some (user.id, i.organization_id) ]

-- The step is claimed durably, and the invitation is read again after it.
unfoldable pub accept_stepped_up :
    Acceptance
    → String
    → User
    → String
    → OrganizationInvitation
    → Db
    → Result InvitationError Accepted × Db
unfolding verify_user_totp_step_up deny pending_invitation activate_invitation
accept_stepped_up a token user code i db =
    if not user.mfa_enabled
    then (err enrollment_required, db)
    else (let (verified, db') = verify_user_totp_step_up a.mfa a.now code user.id db in
        if not verified
        then (err mfa_invalid, deny a token i (some user.id) "mfa_step_up_failed" db')
        else (let (found, db'') = pending_invitation a.sha256 a.now token db' in
            elim found [
              | err e ↦ (err e, db'')
              | ok again ↦ activate_invitation a again user token db'' db''
            ]))

unfoldable pub accept_existing_user :
    Acceptance → String → User → Option String → Db → Result InvitationError Accepted × Db
unfolding accepted_by pending_invitation policy_requires_mfa accept_stepped_up activate_invitation
    log_event
accept_existing_user a token user totp_code db =
    elim (if token ≈ "" || longer_than 256 token then none else accepted_by a token user db) [
      | some done ↦ (ok done, db)
      | none ↦
          let (found, db') = pending_invitation a.sha256 a.now token db in
          elim found [
            | err e ↦ (err e, db')
            | ok i ↦
                if not (user.status ≈ "active" && normalized user.email ≈ i.invited_email)
                then (
                  err identity_mismatch,
                  log_event
                      (invitation_event org_invitation_denied i (some user.id) none
                        (("reason", Value.text "identity_mismatch") ∷ []))
                      db',
                )
                else if policy_requires_mfa i.organization_id db'
                then accept_stepped_up a token user (shown_code totp_code) i db'
                else activate_invitation a i user token db' db'
          ]
    ]
