-- ===== src/Invitation/Follows.antt =====
-- Each operation of app/services/org_invitation_service.py follows the life of an invitation.
use omnibioai_auth.Prelude.{
  ℕ, String, ◌≡◌, refl, sym, subst, ap, ◌∙◌, Bool, true, false, not, ◌||◌, Option, none, some, List,
  [], ◌∷◌, arith, leb, suc, ◌≈◌, first, update_first, if◌then◌else◌, Result, ok, err, Option-cases,
  Result-cases, inl, inr,
}
use omnibioai_auth.Models.{
  Time, MfaDevice, Role, User, OrganizationInvitation, InvitationStatus, Db, log_event,
}
use omnibioai_auth.Mfa.Steps.{
  try_claim_totp_step, try_device, match_devices, totp_devices, verify_user_totp_step_up,
}
use omnibioai_auth.Mfa.Devices.{MfaCrypto}
use omnibioai_auth.Org.Roles.{
  RoleError, get_or_create_role, assign_default_role, resolve_roles_for_org,
}
use omnibioai_auth.Invitation.{
  longer_than, is_open, organization_of, is_pending, has_token, expire, set_expired,
  pending_invitation, after_refusal, write_invitation,
}
use omnibioai_auth.Invitation.Accept.{
  Acceptance, write_member, asked_roles, activate_membership, accept_row, activate_invitation,
  failed_attempt, deny, add_account,
}
use omnibioai_auth.Invitation.Lifecycle.{
  Step, Reach, here, Reach-trans, Reach-same, look, Reach-update_first, Reach-step,
}

-- What the other services leave of the table.
same-match_devices :
    (c : MfaCrypto) (now : Time) (code : String) (ds : List MfaDevice) (db : Db)
    → (match_devices c now code ds db).1.invitations ≡ db.invitations
unfolding match_devices try_device try_claim_totp_step
same-match_devices c now code [] db = refl
same-match_devices c now code (d ∷ ds) db =
    ground (arith, same-match_devices c now code ds (try_device c now code d db).1)

pub same-step_up :
    (c : MfaCrypto) (now : Time) (code : String) (user_id : ℕ) (db : Db)
    → (verify_user_totp_step_up c now code user_id db).1.invitations ≡ db.invitations
unfolding verify_user_totp_step_up
same-step_up c now code user_id db =
    ground (arith, same-match_devices c now code (totp_devices user_id db) db)

pub same-resolve_roles_for_org :
    (o : ℕ) (admin : Bool) (actor target : Option ℕ) (names : List String) (db : Db)
    → (resolve_roles_for_org o admin actor target names db).1.invitations ≡ db.invitations
unfolding resolve_roles_for_org log_event
same-resolve_roles_for_org o admin actor target [] db = refl
same-resolve_roles_for_org o admin actor target (name ∷ names) db =
    ground (arith, same-resolve_roles_for_org o admin actor target names db)

pub same-get_or_create_role :
    (id : ℕ) (name : String) (permissions : List String) (db : Db)
    → (get_or_create_role id name permissions db).1.invitations ≡ db.invitations
unfolding get_or_create_role
same-get_or_create_role id name permissions db = ground arith

pub same-add_account :
    (a : Acceptance) (user : User) (encrypted : Option String) (db : Db)
    → (add_account a user encrypted db).invitations ≡ db.invitations
unfolding add_account assign_default_role get_or_create_role log_event
same-add_account a user encrypted db = ground arith

pub same-after_refusal :
    (e : RoleError) (p db : Db)
    → p.invitations ≡ db.invitations
    → (after_refusal e p db).invitations ≡ db.invitations
same-after_refusal e p db h = ground (arith, h)

module _ (h : String) where
  -- The status goes from the one to the other as the life of an invitation allows.
  unfoldable pub Follows : Db → Db → Type 0
  Follows db db' = Reach (look h db.invitations) (look h db'.invitations)

  -- So does a call with this reply.
  pub Ends {κ} : {R : Type κ} → Db → R × Db → Type 0
  unfolding Follows
  Ends db r = Follows db r.1

  pub ends {κ} : {R : Type κ} (db : Db) (r : R × Db) → Follows db r.1 → Ends db r
  unfolding Ends
  ends db r f = f

  pub ended {κ} : {R : Type κ} (db : Db) (r : R × Db) → Ends db r → Follows db r.1
  unfolding Ends
  ended db r f = f

  pub Follows-refl : (db : Db) → Follows db db
  unfolding Follows
  Follows-refl db = here

  pub Follows-trans : (db db' db'' : Db) → Follows db db' → Follows db' db'' → Follows db db''
  unfolding Follows
  Follows-trans db db' db'' f g = Reach-trans f g

  pub Follows-same : (db db' : Db) → db'.invitations ≡ db.invitations → Follows db db'
  unfolding Follows
  Follows-same db db' e = Reach-same (ap (look h) e)

  pub unchanged {κ} : {R : Type κ} (db : Db) (r : R) → Ends db (r, db)
  unfolding Ends Follows
  unchanged db r = here

  pub if-Follows :
      (b : Bool) (db x y : Db)
      → (b ≡ true → Follows db x)
      → (b ≡ false → Follows db y)
      → Follows db (if b then x else y)
  if-Follows true db x y hx hy = hx refl
  if-Follows false db x y hx hy = hy refl

  pub if-Ends {κ} :
      {R : Type κ} (db : Db) (b : Bool) (x y : R × Db)
      → (b ≡ true → Ends db x)
      → (b ≡ false → Ends db y)
      → Ends db (if b then x else y)
  if-Ends db true x y hx hy = hx refl
  if-Ends db false x y hx hy = hy refl

  pub query-Ends {ℓ κ} :
      {A : Type ℓ} {R : Type κ} (db : Db) (o : Option A) (x : R × Db) (y : A → R × Db)
      → (o ≡ none → Ends db x)
      → ((a : A) → o ≡ some a → Ends db (y a))
      → Ends db (elim o as (λ _. R × Db) [ none ↦ x | some a ↦ y a ])
  query-Ends db none x y hx hy = hx refl
  query-Ends db (some a) x y hx hy = hy a refl

  pub call-Ends {ℓ κ} :
      {E A : Type ℓ} {R : Type κ} (db : Db) (o : Result E A) (x : E → R × Db) (y : A → R × Db)
      → ((e : E) → o ≡ err e → Ends db (x e))
      → ((a : A) → o ≡ ok a → Ends db (y a))
      → Ends db (elim o as (λ _. R × Db) [ err e ↦ x e | ok a ↦ y a ])
  call-Ends db (err e) x y hx hy = hx e refl
  call-Ends db (ok a) x y hx hy = hy a refl

  pub set_expired-Follows :
      (p : OrganizationInvitation → Bool) (i : OrganizationInvitation) (actor : Option ℕ) (db : Db)
      → first p db.invitations ≡ some i
      → Follows db (set_expired p i actor db)
  unfolding set_expired log_event Follows
  set_expired-Follows p i actor db e =
      if-Follows (is_pending i.status) db _ db
        (λ still.
          Reach-update_first h p expire db.invitations i e (λ x. refl)
            (Reach-step i.status InvitationStatus.expired still Step.expire))
        (λ closed. here)

  pub pending-Ends :
      (sha256 : String → String) (now : Time) (token : String) (db : Db)
      → Ends db (pending_invitation sha256 now token db)
  unfolding pending_invitation
  pending-Ends sha256 now token db =
      if-Ends db (token ≈ "" || longer_than 256 token) _ _ (λ bad. unchanged db _)
        (λ good.
          query-Ends db (first (has_token (sha256 token)) db.invitations) _ _
            (λ unknown. unchanged db _)
            (λ i found.
              if-Ends db (not (is_pending i.status)) _ _ (λ closed. unchanged db _)
                (λ still.
                  if-Ends db (leb i.expires_at now) _ _
                    (λ late.
                      ends db _ (set_expired-Follows (has_token (sha256 token)) i none db found))
                    (λ early.
                      if-Ends db (is_open (organization_of i db)) _ _ (λ yes. unchanged db _)
                        (λ other. unchanged db _)))))

  pub Ends-trans {κ} :
      {R : Type κ} (db db' : Db) (r : R × Db) → Follows db db' → Ends db' r → Ends db r
  unfolding Ends
  Ends-trans db db' r f e = Follows-trans db db' r.1 f e

  -- The row of a digest is `i`, and pending.
  abbrev pub IsFound : String → OrganizationInvitation → Db → Type 0
  IsFound digest i db =
      (first (has_token digest) db.invitations ≡ some i) × (is_pending i.status ≡ true)

  pub write-Follows :
      (digest : String) (i : OrganizationInvitation)
      (f : OrganizationInvitation → OrganizationInvitation) (db db' : Db)
      → IsFound digest i db
      → ((x : OrganizationInvitation) → (f x).token_hash ≡ x.token_hash)
      → Reach (some i.status) (some (f i).status)
      → db'.invitations ≡ (write_invitation (has_token digest) f db).invitations
      → Follows db db'
  unfolding Follows
  write-Follows digest i f db db' found keep moves e =
      subst (λ is. Reach (look h db.invitations) (look h is)) (sym e)
        (Reach-update_first h (has_token digest) f db.invitations i found.0 keep moves)

  pub pending-IsFound :
      (sha256 : String → String) (now : Time) (token : String) (db : Db)
      (i : OrganizationInvitation)
      → (pending_invitation sha256 now token db).0 ≡ ok i
      → IsFound (sha256 token) i (pending_invitation sha256 now token db).1
  unfolding pending_invitation
  pending-IsFound sha256 now token db i e =
      elim (Option-cases (first (has_token (sha256 token)) db.invitations)) [
        | inl unknown ↦ ground arith
        | inr (r, found) ↦ (ground arith, ground arith)
      ]

  moves-if :
      (b : Bool) (s : InvitationStatus) (x y : OrganizationInvitation)
      → Reach (some s) (some x.status)
      → Reach (some s) (some y.status)
      → Reach (some s) (some (if b then x else y).status)
  moves-if true s x y hx hy = hx
  moves-if false s x y hx hy = hy

  pub deny-Follows :
      (a : Acceptance) (token : String) (i : OrganizationInvitation) (actor : Option ℕ)
      (reason : String) (db : Db)
      → IsFound (a.sha256 token) i db
      → Follows db (deny a token i actor reason db)
  unfolding deny log_event
  deny-Follows a token i actor reason db found =
      write-Follows (a.sha256 token) i (failed_attempt a) db (deny a token i actor reason db) found
        (λ x. ground arith)
        (moves-if (leb a.max_accept_attempts (suc i.mfa_attempts)) i.status _ _
          (Reach-step i.status InvitationStatus.revoked found.1 Step.revoke) here)
        refl

  same-write_member :
      (a : Acceptance) (i : OrganizationInvitation) (user : User) (roles : List Role) (db : Db)
      → (write_member a i user roles db).invitations ≡ db.invitations
  unfolding write_member
  same-write_member a i user roles db = ground arith

  same-activate_membership :
      (a : Acceptance) (i : OrganizationInvitation) (user : User) (db p : Db)
      → p.invitations ≡ db.invitations
      → (activate_membership a i user db p).1.invitations ≡ db.invitations
  unfolding activate_membership
  same-activate_membership a i user db p e =
      let resolved =
        resolve_roles_for_org i.organization_id i.inviter_is_platform_admin
          (some i.invited_by_user_id) (some user.id) (asked_roles i.role_names) p in
      let kept =
        same-resolve_roles_for_org i.organization_id i.inviter_is_platform_admin
          (some i.invited_by_user_id) (some user.id) (asked_roles i.role_names) p in
      elim (Result-cases resolved.0) [
        | inl (roles, ok_roles) ↦
            ground (arith, e, kept, ok_roles, same-write_member a i user roles resolved.1)
        | inr (error, refused) ↦
            ground (arith, e, kept, refused, same-after_refusal error resolved.1 db (kept ∙ e))
      ]

  pub activate-Ends :
      (a : Acceptance) (i : OrganizationInvitation) (user : User) (token : String) (db p : Db)
      → IsFound (a.sha256 token) i db
      → p.invitations ≡ db.invitations
      → Ends db (activate_invitation a i user token db p)
  unfolding activate_invitation log_event
  activate-Ends a i user token db p found e =
      let kept = same-activate_membership a i user db p e in
      call-Ends db (activate_membership a i user db p).0 _ _
        (λ error refused. ends db _ (Follows-same db (activate_membership a i user db p).1 kept))
        (λ done activated. ends db _ (
          write-Follows (a.sha256 token) i (accept_row a i user) db _ found (λ x. refl)
            (Reach-step i.status InvitationStatus.accepted found.1 Step.accept)
            (ap (update_first (has_token (a.sha256 token)) (accept_row a i user)) kept)))
