-- ===== src/Invitation/Runs.antt =====
-- The operations of app/services/org_invitation_service.py, and any sequence of them, refine the life
-- of an invitation.
use omnibioai_auth.Prelude.{
  ℕ, String, ◌≡◌, refl, ap, ◌∙◌, Bool, not, ◌&&◌, ◌||◌, is_none, Option, none, some, List, [], ◌∷◌,
  arith, ◌==◌, ◌≈◌, first, if◌then◌else◌,
}
use omnibioai_auth.Models.{
  Time, User, Organization, OrganizationInvitation, InvitationStatus, Db, log_event,
}
use omnibioai_auth.Mfa.Steps.{verify_user_totp_step_up}
use omnibioai_auth.Mfa.Devices.{unix}
use omnibioai_auth.Mfa.Totp.{verify_totp_code}
use omnibioai_auth.Invitation.{
  normalized, policy_requires_mfa, revoke_row, longer_than, InvitationSettings, Draw, is_pending,
  has_token, overdue, expire, pending_invitation, create_invitation, list_invitations,
  revoke_invitation,
}
use omnibioai_auth.Invitation.Accept.{
  Acceptance, new_user, shown_code, accepted_by, accepted_new_user_retry, start_invitation_mfa,
  add_account, create_and_accept, accept_with_mfa, accept_new_user, accept_stepped_up,
  accept_existing_user,
}
use omnibioai_auth.Invitation.Lifecycle.{
  Step, Reach, here, Reach-trans, look, Reach-update_first, Reach-step, Reach-update_all,
  pending_is,
}
use omnibioai_auth.Invitation.Creation.{create-Ends}
use omnibioai_auth.Invitation.Follows.{
  same-step_up, same-add_account, Follows, Ends, ends, ended, Follows-refl, Follows-same, unchanged,
  if-Ends, query-Ends, call-Ends, pending-Ends, Ends-trans, IsFound, write-Follows, pending-IsFound,
  deny-Follows, activate-Ends,
}

module _ (h : String) where
  start_mfa-Ends :
      (a : Acceptance) (token : String) (db : Db) → Ends h db (start_invitation_mfa a token db)
  unfolding start_invitation_mfa
  start_mfa-Ends a token db =
      let after = pending_invitation a.sha256 a.now token db in
      Ends-trans h db after.1 (start_invitation_mfa a token db)
        (ended h db after (pending-Ends h a.sha256 a.now token db))
        (call-Ends h after.1 after.0 _ _ (λ error failed. unchanged h after.1 _)
          (λ i known.
            if-Ends h after.1 (not (policy_requires_mfa i.organization_id after.1)) _ _
              (λ free. unchanged h after.1 _)
              (λ asked.
                if-Ends h after.1 (not a.mfa_configured) _ _ (λ off. unchanged h after.1 _)
                  (λ on.
                    query-Ends h after.1 i.mfa_secret_encrypted _ _
                      (λ unset. ends h after.1 _ (
                        write-Follows h (a.sha256 token) i
                          (λ x. record x {
                            mfa_secret_encrypted = some (a.mfa.encrypt a.new_secret);
                          })
                          after.1 _ (pending-IsFound h a.sha256 a.now token db i known) (λ x. refl)
                          here refl))
                      (λ encrypted set.
                        query-Ends h after.1 (a.mfa.decrypt encrypted) _ _
                          (λ bad. unchanged h after.1 _) (λ secret good. unchanged h after.1 _))))))

  create_and_accept-Ends :
      (a : Acceptance) (token password : String) (i : OrganizationInvitation)
      (encrypted : Option String) (db : Db)
      → IsFound h (a.sha256 token) i db
      → Ends h db (create_and_accept a token password i encrypted db)
  unfolding create_and_accept
  create_and_accept-Ends a token password i encrypted db found =
      let user = new_user a i password in
      activate-Ends h a i user token db (add_account a user encrypted db) found
        (same-add_account a user encrypted db)

  accept_with_mfa-Ends :
      (a : Acceptance) (token password code : String) (i : OrganizationInvitation) (db : Db)
      → IsFound h (a.sha256 token) i db
      → Ends h db (accept_with_mfa a token password code i db)
  unfolding accept_with_mfa
  accept_with_mfa-Ends a token password code i db found =
      query-Ends h db i.mfa_secret_encrypted _ _ (λ unset. unchanged h db _)
        (λ encrypted set.
          if-Ends h db (code ≈ "") _ _ (λ empty. unchanged h db _)
            (λ given.
              query-Ends h db (a.mfa.decrypt encrypted) _ _ (λ bad. unchanged h db _)
                (λ secret good.
                  if-Ends h db (verify_totp_code a.mfa.mac secret code (unix a.now)) _ _
                    (λ right. create_and_accept-Ends a token password i (some encrypted) db found)
                    (λ wrong.
                      ends h db _
                        (deny-Follows h a token i none "mfa_verification_failed" db found)))))

  accept_new_user-Ends :
      (a : Acceptance) (token password : String) (code : Option String) (db : Db)
      → Ends h db (accept_new_user a token password code db)
  unfolding accept_new_user
  accept_new_user-Ends a token password code db =
      let after = pending_invitation a.sha256 a.now token db in
      query-Ends h db
        (if token ≈ "" || longer_than 256 token
          then none
          else accepted_new_user_retry a token password db)
        _ _
        (λ fresh.
          Ends-trans h db after.1 _ (ended h db after (pending-Ends h a.sha256 a.now token db)) (
            call-Ends h after.1 after.0 _ _ (λ error failed. unchanged h after.1 _)
              (λ i known.
                let found = pending-IsFound h a.sha256 a.now token db i known in
                if-Ends h after.1
                  (not (is_none (first (λ u. u.email ≈ i.invited_email) after.1.users))) _ _
                  (λ there. unchanged h after.1 _)
                  (λ missing.
                    if-Ends h after.1 (not (a.password_allowed password i.invited_email)) _ _
                      (λ weak. unchanged h after.1 _)
                      (λ strong.
                        if-Ends h after.1 (policy_requires_mfa i.organization_id after.1) _ _
                          (λ asked.
                            accept_with_mfa-Ends a token password (shown_code code) i after.1 found)
                          (λ free.
                            create_and_accept-Ends a token password i none after.1 found))))))
        (λ done retried. unchanged h db _)

  stepped_up-Ends :
      (a : Acceptance) (token : String) (user : User) (code : String) (i : OrganizationInvitation)
      (db : Db)
      → IsFound h (a.sha256 token) i db
      → Ends h db (accept_stepped_up a token user code i db)
  unfolding accept_stepped_up
  stepped_up-Ends a token user code i db found =
      let up = verify_user_totp_step_up a.mfa a.now code user.id db in
      let kept = same-step_up a.mfa a.now code user.id db in
      let after = pending_invitation a.sha256 a.now token up.1 in
      let moved : IsFound h (a.sha256 token) i up.1 =
        (ap (first (has_token (a.sha256 token))) kept ∙ found.0, found.1) in
      if-Ends h db (not user.mfa_enabled) _ _ (λ bare. unchanged h db _)
        (λ enrolled_already. Ends-trans h db up.1 _ (Follows-same h db up.1 kept) (
          if-Ends h up.1 (not up.0) _ _
            (λ wrong.
              ends h up.1 _
                (deny-Follows h a token i (some user.id) "mfa_step_up_failed" up.1 moved))
            (λ right.
              Ends-trans h up.1 after.1 _
                (ended h up.1 after (pending-Ends h a.sha256 a.now token up.1))
                (call-Ends h after.1 after.0 _ _ (λ error failed. unchanged h after.1 _)
                  (λ again known.
                    activate-Ends h a again user token after.1 after.1
                      (pending-IsFound h a.sha256 a.now token up.1 again known) refl)))))

  accept_existing_user-Ends :
      (a : Acceptance) (token : String) (user : User) (code : Option String) (db : Db)
      → Ends h db (accept_existing_user a token user code db)
  unfolding accept_existing_user log_event
  accept_existing_user-Ends a token user code db =
      let after = pending_invitation a.sha256 a.now token db in
      query-Ends h db
        (if token ≈ "" || longer_than 256 token then none else accepted_by a token user db) _ _
        (λ fresh.
          Ends-trans h db after.1 _ (ended h db after (pending-Ends h a.sha256 a.now token db)) (
            call-Ends h after.1 after.0 _ _ (λ error failed. unchanged h after.1 _)
              (λ i known.
                let found = pending-IsFound h a.sha256 a.now token db i known in
                if-Ends h after.1
                  (not (user.status ≈ "active" && normalized user.email ≈ i.invited_email)) _ _
                  (λ other. ends h after.1 _ (Follows-same h after.1 _ refl))
                  (λ same.
                    if-Ends h after.1 (policy_requires_mfa i.organization_id after.1) _ _
                      (λ asked. stepped_up-Ends a token user (shown_code code) i after.1 found)
                      (λ free. activate-Ends h a i user token after.1 after.1 found refl)))))
        (λ done retried. unchanged h db _)

  list-Follows :
      (now : Time) (organization_id actor : ℕ) (db : Db)
      → Follows h db (list_invitations now organization_id actor db).1
  unfolding list_invitations Follows
  list-Follows now organization_id actor db =
      Reach-update_all h (overdue now organization_id) expire InvitationStatus.expired
        db.invitations (λ x. refl) (λ x. refl)
        (λ x late. pending_is x.status (ground (arith, late))) Step.expire

  revoke-Ends :
      (now : Time) (p : OrganizationInvitation → Bool) (i : OrganizationInvitation) (actor : ℕ)
      (db : Db)
      → first p db.invitations ≡ some i
      → Ends h db (revoke_invitation now p i actor db)
  unfolding revoke_invitation log_event Follows
  revoke-Ends now p i actor db found =
      if-Ends h db (is_pending i.status) _ _
        (λ still. ends h db _ (
          Reach-update_first h p (revoke_row now (some actor)) db.invitations i found (λ x. refl)
            (Reach-step i.status InvitationStatus.revoked still Step.revoke)))
        (λ closed. unchanged h db _)

-- A request on invitations. One to revoke names the row, as the route looks it up.
pub data InvitationCall : Type 0 where
  create :
      InvitationSettings
      → (String → String)
      → (ℕ → String → String)
      → Time
      → Draw
      → Organization
      → User
      → Bool
      → String
      → List String
      → InvitationCall
  list : Time → ℕ → ℕ → InvitationCall
  revoke : Time → ℕ → ℕ → InvitationCall
  preview : (String → String) → Time → String → InvitationCall
  start_mfa : Acceptance → String → InvitationCall
  accept_new : Acceptance → String → String → Option String → InvitationCall
  accept_existing : Acceptance → String → User → Option String → InvitationCall

abbrev pub invitation_call : InvitationCall → Db → Db
invitation_call (create cfg sha256 key now draw o actor admin email names) db =
    (create_invitation cfg sha256 key now draw o actor admin email names db).1
invitation_call (list now o actor) db = (list_invitations now o actor db).1
invitation_call (revoke now id actor) db = elim (first (λ i. i.id == id) db.invitations) [
  | none ↦ db
  | some i ↦ (revoke_invitation now (λ x. x.id == id) i actor db).1
]
invitation_call (preview sha256 now token) db = (pending_invitation sha256 now token db).1
invitation_call (start_mfa a token) db = (start_invitation_mfa a token db).1
invitation_call (accept_new a token password code) db = (accept_new_user a token password code db).1
invitation_call (accept_existing a token user code) db =
    (accept_existing_user a token user code db).1

abbrev pub invitation_calls : List InvitationCall → Db → Db
invitation_calls [] db = db
invitation_calls (call ∷ calls) db = invitation_calls calls (invitation_call call db)

module _ (h : String) where
  query-Follows :
      (db : Db) (o : Option OrganizationInvitation) (x : Db) (y : OrganizationInvitation → Db)
      → (o ≡ none → Follows h db x)
      → ((i : OrganizationInvitation) → o ≡ some i → Follows h db (y i))
      → Follows h db (elim o as (λ _. Db) [ none ↦ x | some i ↦ y i ])
  query-Follows db none x y hx hy = hx refl
  query-Follows db (some i) x y hx hy = hy i refl

  revoke-Follows :
      (now : Time) (id actor : ℕ) (db : Db)
      → Follows h db (invitation_call (InvitationCall.revoke now id actor) db)
  revoke-Follows now id actor db =
      query-Follows db (first (λ i. i.id == id) db.invitations) db _ (λ missing. Follows-refl h db)
        (λ i found. ended h db _ (revoke-Ends h now (λ x. x.id == id) i actor db found))

  call-Follows : (call : InvitationCall) (db : Db) → Follows h db (invitation_call call db)
  call-Follows (create cfg sha256 key now draw o actor admin email names) db =
      ended h db _ (create-Ends h cfg sha256 key now draw o actor admin email names db)
  call-Follows (list now o actor) db = list-Follows h now o actor db
  call-Follows (revoke now id actor) db = revoke-Follows now id actor db
  call-Follows (preview sha256 now token) db = ended h db _ (pending-Ends h sha256 now token db)
  call-Follows (start_mfa a token) db = ended h db _ (start_mfa-Ends h a token db)
  call-Follows (accept_new a token password code) db =
      ended h db _ (accept_new_user-Ends h a token password code db)
  call-Follows (accept_existing a token user code) db =
      ended h db _ (accept_existing_user-Ends h a token user code db)

  -- Any sequence of requests refines the life of an invitation: from what the table says of a token
  -- before to what it says after there is a path of steps, each from no invitation to a pending one,
  -- or from a pending one to an accepted, a revoked or an expired one.
  pub invitation_calls-Reach :
      (calls : List InvitationCall) (db : Db)
      → Reach (look h db.invitations) (look h (invitation_calls calls db).invitations)
  unfolding Follows
  invitation_calls-Reach [] db = here
  invitation_calls-Reach (call ∷ calls) db =
      Reach-trans (call-Follows call db) (invitation_calls-Reach calls (invitation_call call db))
