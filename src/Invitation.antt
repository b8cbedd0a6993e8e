-- ===== src/Invitation.antt =====
-- app/services/org_invitation_service.py: invitations to an organization. Digests, random values,
-- keys of new rows, the delivery of a mail and what `_valid_accept_url` says of the address are
-- parameters.
pub mod Accept
pub mod Lifecycle
pub mod Follows
pub mod Creation
pub mod Runs
use Prim.Native.Char.{Char, code as code_point}
use Prim.Native.String.{[] as no_text, ◌∷◌ as cons_text}
use omnibioai_auth.Prelude.{
  ℕ, zero, suc, ◌+◌, String, Bool, true, false, not, ◌&&◌, ◌||◌, Option, none, some, List, [], ◌∷◌,
  ◌++◌, map, ltb, leb, ◌==◌, ◌≈◌, is_none, holds, contains, stripped, lower, take, length, first,
  select, sort_by, update_first, update_all, if◌then◌else◌, Result, ok, err,
}
use omnibioai_auth.Models.{
  Time, seconds, Role, User, Organization, OrganizationMembership, OrganizationInvitation,
  InvitationStatus, Db, AuditEvent, AuditEventType, Value, log_event, org_invitation_created,
  org_invitation_expired, org_invitation_revoked,
}
use omnibioai_auth.Mfa.Policy.{get_org_mfa_policy}
use omnibioai_auth.Mfa.Decision.{demands}
use omnibioai_auth.Org.Roles.{RoleError, get_or_create_role, resolve_roles_for_org}

pub data InvitationError : Type 0 where
  invalid gone timed_out organization_unavailable disabled misconfigured invalid_email :
      InvitationError
  already_member invalid_roles exists delivery_failed not_pending mfa_not_required : InvitationError
  mfa_unavailable membership_exists existing_account password_policy mfa_setup_required :
      InvitationError
  mfa_invalid identity_mismatch enrollment_required undecryptable : InvitationError
  refused_roles : RoleError → InvitationError

pub record InvitationSettings : Type 0 where
  pub enabled : Bool
  pub accept_url : String
  pub accept_url_valid : Bool
  pub ttl_seconds : ℕ
  pub max_accept_attempts : ℕ

abbrev pub longer_than : ℕ → String → Bool
longer_than n no_text = false
longer_than zero (cons_text c s) = true
longer_than (suc n) (cons_text c s) = longer_than n s

abbrev has_char : ℕ → String → Bool
has_char n no_text = false
has_char n (cons_text c s) = code_point c == n || has_char n s

abbrev pub is_pending : InvitationStatus → Bool
is_pending InvitationStatus.pending = true
is_pending InvitationStatus.accepted = false
is_pending InvitationStatus.revoked = false
is_pending InvitationStatus.expired = false

abbrev pub has_token : String → OrganizationInvitation → Bool
has_token digest i = i.token_hash ≈ digest

-- `_policy_requires_mfa`
unfoldable pub policy_requires_mfa : ℕ → Db → Bool
unfolding get_org_mfa_policy
policy_requires_mfa organization_id db = demands (get_org_mfa_policy organization_id db)

abbrev pub invitation_event :
    AuditEventType
    → OrganizationInvitation
    → Option ℕ
    → Option ℕ
    → List (String × Value)
    → AuditEvent
invitation_event event_type i actor target metadata = record {
  event_type = event_type;
  actor_user_id = actor;
  target_user_id = target;
  organization_id = some i.organization_id;
  resource_type = some "organization_invitation";
  resource_id = Value.number i.id;
  metadata = metadata;
}

abbrev pub expire : OrganizationInvitation → OrganizationInvitation
expire i = record i { status = InvitationStatus.expired; active_key = none }

-- Assignment to the row that a query with `p` found.
abbrev pub write_invitation :
    (OrganizationInvitation → Bool) → (OrganizationInvitation → OrganizationInvitation) → Db → Db
write_invitation p f db = record db { invitations = update_first p f db.invitations }

-- `_set_expired` of the row `i`, which the query found.
unfoldable pub set_expired :
    (OrganizationInvitation → Bool) → OrganizationInvitation → Option ℕ → Db → Db
unfolding log_event
set_expired p i actor db =
    if is_pending i.status
    then log_event (invitation_event org_invitation_expired i actor none [])
        (write_invitation p expire db)
    else db

-- `invitation.organization`
abbrev pub organization_of : OrganizationInvitation → Db → Option Organization
organization_of i db = first (λ o. o.id == i.organization_id) db.organizations

abbrev pub is_open : Option Organization → Bool
is_open none = false
is_open (some o) = o.status ≈ "active"

-- `_pending`: the row of a token that can be answered. One that is out of time is expired by it.
unfoldable pub pending_invitation :
    (String → String) → Time → String → Db → Result InvitationError OrganizationInvitation × Db
unfolding set_expired
pending_invitation sha256 now token db =
    if token ≈ "" || longer_than 256 token
    then (err invalid, db)
    else elim (first (has_token (sha256 token)) db.invitations) [
      | none ↦ (err invalid, db)
      | some i ↦
          if not (is_pending i.status)
          then (err gone, db)
          else if leb i.expires_at now
          then (err timed_out, set_expired (has_token (sha256 token)) i none db)
          else if is_open (organization_of i db)
          then (ok i, db)
          else (err organization_unavailable, db)
    ]

-- `email.strip().lower()`
abbrev pub normalized : String → String
normalized email = lower (stripped email)

abbrev pub bad_email : String → Bool
bad_email email =
    not (has_char 64 email) || (longer_than 255 email || (has_char 10 email || has_char 13 email))

abbrev pub is_member : ℕ → Option User → Db → Bool
is_member organization_id none db = false
is_member organization_id (some u) db = not (
    is_none (
      first
        (λ m. m.organization_id == organization_id && (m.user_id == u.id && m.status ≈ "active"))
        db.memberships))

abbrev pub repeats : List String → Bool
repeats [] = false
repeats (x ∷ xs) = contains x xs || repeats xs

abbrev pub asked_roles : List String → List String
asked_roles [] = "org_member" ∷ []
asked_roles (r ∷ rs) = r ∷ rs

-- A refusal of a role that grants platform-wide permissions commits its event, and with it all that
-- is pending.
abbrev pub after_refusal : RoleError → Db → Db → Db
after_refusal (RoleError.global_role role names) pending_writes db = pending_writes
after_refusal (RoleError.unknown_role name) pending_writes db = db
after_refusal (RoleError.unknown_permission name) pending_writes db = db
after_refusal (RoleError.name_taken name) pending_writes db = db

abbrev pub open_key : String → OrganizationInvitation → Bool
open_key key i = holds i.active_key key && is_pending i.status

-- The parameters of one creation: the token drawn, the keys of the rows, and whether the mail went.
pub record Draw : Type 0 where
  pub token : String
  pub id : ℕ
  pub role_id : ℕ
  pub delivered : Bool

module _ (cfg : InvitationSettings) (sha256 : String → String) (active_key_of : ℕ → String → String)
    (now : Time) (draw : Draw) (organization : Organization) (actor : User)
    (platform_admin : Bool) where
  abbrev pub new_invitation : String → List Role → OrganizationInvitation
  new_invitation email roles = record {
    id = draw.id;
    organization_id = organization.id;
    invited_by_user_id = actor.id;
    inviter_is_platform_admin = platform_admin;
    invited_email = email;
    role_names = map (λ r. r.name) roles;
    token_hash = sha256 draw.token;
    active_key = some (active_key_of organization.id email);
    status = InvitationStatus.pending;
    created_at = now;
    expires_at = now + seconds cfg.ttl_seconds;
    accepted_at = none;
    accepted_user_id = none;
    revoked_at = none;
    revoked_by_user_id = none;
    mfa_secret_encrypted = none;
    mfa_attempts = 0;
  }

  -- The row and its event, once the mail is delivered; else nothing is kept.
  unfoldable pub deliver :
      OrganizationInvitation → Db → Db → Result InvitationError OrganizationInvitation × Db
  unfolding log_event
  deliver i pending_writes db =
      if draw.delivered
      then (
        ok i,
        log_event (invitation_event org_invitation_created i (some actor.id) none [])
            (record pending_writes { invitations = pending_writes.invitations ++ i ∷ [] }),
      )
      else (err delivery_failed, db)

  -- An earlier invitation under the same key stands in the way until it is out of time.
  unfoldable pub replace_expired :
      String → List Role → Db → Db → Result InvitationError OrganizationInvitation × Db
  unfolding set_expired deliver
  replace_expired email roles pending_writes db =
      let key = active_key_of organization.id email in
      elim (first (open_key key) pending_writes.invitations) [
        | none ↦ deliver (new_invitation email roles) pending_writes db
        | some i ↦
            if ltb now i.expires_at
            then (err exists, db)
            else deliver (new_invitation email roles)
                (set_expired (open_key key) i (some actor.id) pending_writes) db
      ]

  unfoldable pub invite_with_roles :
      String → List String → Db → Result InvitationError OrganizationInvitation × Db
  unfolding get_or_create_role resolve_roles_for_org replace_expired
  invite_with_roles email role_names db =
      let based = (get_or_create_role draw.role_id "org_member" [] db).1 in
      if leb 9 (length role_names) || repeats role_names
      then (err invalid_roles, db)
      else (let (resolved, db') =
            resolve_roles_for_org organization.id platform_admin (some actor.id) none role_names
              based in
          elim resolved [
            | err e ↦ (err invalid_roles, after_refusal e db' db)
            | ok roles ↦ replace_expired email roles db' db
          ])

  unfoldable pub create_invitation :
      String → List String → Db → Result InvitationError OrganizationInvitation × Db
  unfolding invite_with_roles
  create_invitation email role_names db =
      if not cfg.enabled || cfg.accept_url ≈ ""
      then (err disabled, db)
      else if not cfg.accept_url_valid
      then (err misconfigured, db)
      else if bad_email (normalized email)
      then (err invalid_email, db)
      else if not (leb 60 cfg.ttl_seconds && leb cfg.ttl_seconds 2592000)
      then (err misconfigured, db)
      else if is_member organization.id (first (λ u. u.email ≈ normalized email) db.users) db
      then (err already_member, db)
      else invite_with_roles (normalized email) (asked_roles role_names) db

abbrev pub overdue : Time → ℕ → OrganizationInvitation → Bool
overdue now organization_id i =
    i.organization_id == organization_id && (is_pending i.status && leb i.expires_at now)

abbrev pub expiry_events : ℕ → List OrganizationInvitation → List AuditEvent
expiry_events actor [] = []
expiry_events actor (i ∷ is) =
    invitation_event org_invitation_expired i (some actor) none [] ∷ expiry_events actor is

abbrev reversed : List OrganizationInvitation → List OrganizationInvitation
reversed [] = []
reversed (i ∷ is) = reversed is ++ i ∷ []

-- The newest 100 of the organization, after those out of time are expired.
unfoldable pub list_invitations : Time → ℕ → ℕ → Db → List OrganizationInvitation × Db
list_invitations now organization_id actor db =
    let late = overdue now organization_id in
    let swept = record db {
      invitations = update_all late expire db.invitations;
      audit_events = db.audit_events ++ expiry_events actor (select late db.invitations);
    } in
    (
      take 100 (
          reversed (
            sort_by (λ i. i.created_at)
              (select (λ i. i.organization_id == organization_id) swept.invitations))),
      swept,
    )

abbrev pub revoke_row : Time → Option ℕ → OrganizationInvitation → OrganizationInvitation
revoke_row now actor i = record i {
  status = InvitationStatus.revoked;
  active_key = none;
  revoked_at = some now;
  revoked_by_user_id = actor;
}

-- The row is the one that the query `p` found.
unfoldable pub revoke_invitation :
    Time
    → (OrganizationInvitation → Bool)
    → OrganizationInvitation
    → ℕ
    → Db
    → Result InvitationError (Unit {0}) × Db
unfolding log_event
revoke_invitation now p i actor db =
    if is_pending i.status
    then (
      ok tt,
      log_event (invitation_event org_invitation_revoked i (some actor) none [])
          (write_invitation p (revoke_row now (some actor)) db),
    )
    else (err not_pending, db)
