-- ===== src/Invitation/Lifecycle.antt =====
-- The life of an invitation of app/services/org_invitation_service.py, as a relation on its status,
-- and the writes of the table that follow it. An invitation is known by the digest of its token.
use omnibioai_auth.Prelude.{
  String, ◌≡◌, ◌⊎◌, refl, sym, subst, Bool, true, Option, none, some, List, [], ◌∷◌, ◌++◌, arith,
  first, update_first, update_all, Option-cases, Bool-cases, inl, inr, first-append,
  first-append_some,
}
use omnibioai_auth.Models.{OrganizationInvitation, InvitationStatus}
use omnibioai_auth.Invitation.{is_pending, has_token}

-- One step; `none` is an invitation that is not there.
pub data Step : Option InvitationStatus → Option InvitationStatus → Type 0 where
  issue : Step none (some InvitationStatus.pending)
  accept : Step (some InvitationStatus.pending) (some InvitationStatus.accepted)
  revoke : Step (some InvitationStatus.pending) (some InvitationStatus.revoked)
  expire : Step (some InvitationStatus.pending) (some InvitationStatus.expired)

pub data Reach (s : Option InvitationStatus) : Option InvitationStatus → Type 0 where
  here : Reach s s
  next : {t u : Option InvitationStatus} → Reach s t → Step t u → Reach s u

pub Reach-trans : {s t u : Option InvitationStatus} → Reach s t → Reach t u → Reach s u
Reach-trans r here = r
Reach-trans r (next q k) = next (Reach-trans r q) k

pub Reach-same : {s t : Option InvitationStatus} → t ≡ s → Reach s t
Reach-same {s} e = subst (Reach s) (sym e) here

-- A status that is reached from one other than pending is that status.
pub data IsFinal : Option InvitationStatus → Type 0 where
  was_accepted : IsFinal (some InvitationStatus.accepted)
  was_revoked : IsFinal (some InvitationStatus.revoked)
  was_expired : IsFinal (some InvitationStatus.expired)

abbrev pub status_of : Option OrganizationInvitation → Option InvitationStatus
status_of none = none
status_of (some i) = some i.status

-- The status of the invitation with the digest.
pub look : String → List OrganizationInvitation → Option InvitationStatus
look h is = status_of (first (has_token h) is)

update_first-cases :
    (h : String) (q : OrganizationInvitation → Bool)
    (f : OrganizationInvitation → OrganizationInvitation) (is : List OrganizationInvitation)
    (r : OrganizationInvitation)
    → first q is ≡ some r
    → ((x : OrganizationInvitation) → (f x).token_hash ≡ x.token_hash)
    → (look h (update_first q f is) ≡ look h is)
      ⊎ ((look h is ≡ some r.status) × (look h (update_first q f is) ≡ some (f r).status))
unfolding look
update_first-cases h q f [] r e keep = cc
update_first-cases h q f (x ∷ is) r e keep = ground (arith, keep x, update_first-cases h q f is r)

Reach-moved :
    {s t : Option InvitationStatus} (a b : Option InvitationStatus)
    → (t ≡ s) ⊎ ((s ≡ a) × (t ≡ b))
    → Reach a b
    → Reach s t
Reach-moved a b (inl e) k = Reach-same e
Reach-moved {s} {t} a b (inr (p, q)) k = subst (λ x. Reach x t) (sym p) (subst (Reach a) (sym q) k)

-- A write to the row that a query found, as the life of the row allows.
pub Reach-update_first :
    (h : String) (q : OrganizationInvitation → Bool)
    (f : OrganizationInvitation → OrganizationInvitation) (is : List OrganizationInvitation)
    (r : OrganizationInvitation)
    → first q is ≡ some r
    → ((x : OrganizationInvitation) → (f x).token_hash ≡ x.token_hash)
    → Reach (some r.status) (some (f r).status)
    → Reach (look h is) (look h (update_first q f is))
Reach-update_first h q f is r e keep k =
    Reach-moved (some r.status) (some (f r).status) (update_first-cases h q f is r e keep) k

pub pending_is : (s : InvitationStatus) → is_pending s ≡ true → s ≡ InvitationStatus.pending
pending_is InvitationStatus.pending h = refl
pending_is InvitationStatus.accepted h = cc
pending_is InvitationStatus.revoked h = cc
pending_is InvitationStatus.expired h = cc

-- From a pending row one step is allowed.
pub Reach-step :
    (s : InvitationStatus) (t : InvitationStatus)
    → is_pending s ≡ true
    → Step (some InvitationStatus.pending) (some t)
    → Reach (some s) (some t)
Reach-step s t h k = subst (λ x. Reach (some x) (some t)) (sym (pending_is s h)) (next here k)

-- A new row.
pub Reach-append :
    (h : String) (is : List OrganizationInvitation) (i : OrganizationInvitation)
    → i.status ≡ InvitationStatus.pending
    → Reach (look h is) (look h (is ++ i ∷ []))
unfolding look
Reach-append h is i e = elim (Option-cases (first (has_token h) is)) [
  | inr (r, found) ↦ Reach-same (ground (arith, first-append_some (has_token h) is (i ∷ []) r))
  | inl missing ↦ elim (Bool-cases (has_token h i)) [
    | inr other ↦ Reach-same (ground (arith, first-append (has_token h) is i missing))
    | inl same ↦
        Reach-moved none (some InvitationStatus.pending)
          (inr (ground arith, ground (arith, first-append (has_token h) is i missing)))
          (next here issue)
  ]
]

update_all-cases :
    (h : String) (q : OrganizationInvitation → Bool)
    (f : OrganizationInvitation → OrganizationInvitation) (t : InvitationStatus)
    (is : List OrganizationInvitation)
    → ((x : OrganizationInvitation) → (f x).token_hash ≡ x.token_hash)
    → ((x : OrganizationInvitation) → (f x).status ≡ t)
    → ((x : OrganizationInvitation) → q x ≡ true → x.status ≡ InvitationStatus.pending)
    → (look h (update_all q f is) ≡ look h is)
      ⊎ ((look h is ≡ some InvitationStatus.pending) × (look h (update_all q f is) ≡ some t))
unfolding look
update_all-cases h q f t [] keep to fits = inl refl
update_all-cases h q f t (x ∷ is) keep to fits =
    ground (arith, keep x, to x, fits x, update_all-cases h q f t is keep to fits)

pub Reach-update_all :
    (h : String) (q : OrganizationInvitation → Bool)
    (f : OrganizationInvitation → OrganizationInvitation) (t : InvitationStatus)
    (is : List OrganizationInvitation)
    → ((x : OrganizationInvitation) → (f x).token_hash ≡ x.token_hash)
    → ((x : OrganizationInvitation) → (f x).status ≡ t)
    → ((x : OrganizationInvitation) → q x ≡ true → x.status ≡ InvitationStatus.pending)
    → Step (some InvitationStatus.pending) (some t)
    → Reach (look h is) (look h (update_all q f is))
Reach-update_all h q f t is keep to fits k =
    Reach-moved (some InvitationStatus.pending) (some t) (update_all-cases h q f t is keep to fits)
      (next here k)
