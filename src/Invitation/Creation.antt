-- ===== src/Invitation/Creation.antt =====
-- `create_invitation` of app/services/org_invitation_service.py follows the life of an invitation.
use omnibioai_auth.Prelude.{ltb, length}
use omnibioai_auth.Prelude.{
  ℕ, String, ◌≡◌, refl, ◌∙◌, Bool, not, ◌&&◌, ◌||◌, none, some, List, [], leb, ◌≈◌, first,
}
use omnibioai_auth.Models.{
  Time, Role, User, Organization, OrganizationInvitation, InvitationStatus, Db, log_event,
}
use omnibioai_auth.Org.Roles.{get_or_create_role, resolve_roles_for_org}
use omnibioai_auth.Invitation.{
  normalized, repeats, bad_email, is_member, asked_roles, InvitationSettings, Draw, open_key,
  set_expired, after_refusal, new_invitation, deliver, replace_expired, invite_with_roles,
  create_invitation,
}
use omnibioai_auth.Invitation.Lifecycle.{Reach-trans, Reach-append}
use omnibioai_auth.Invitation.Follows.{
  same-resolve_roles_for_org, same-get_or_create_role, same-after_refusal, Follows, Ends, ends,
  Follows-trans, Follows-same, unchanged, if-Ends, query-Ends, call-Ends, set_expired-Follows,
}

module _ (h : String) where
  -- The parts of a creation. `p` has what is pending, on top of `db`.
  module _ (cfg : InvitationSettings) (sha256 : String → String)
      (active_key_of : ℕ → String → String) (now : Time) (draw : Draw) (organization : Organization)
      (actor : User) (platform_admin : Bool) where
    deliver-Ends :
        (i : OrganizationInvitation) (p db : Db)
        → i.status ≡ InvitationStatus.pending
        → Follows h db p
        → Ends h db
            (deliver cfg sha256 active_key_of now draw organization actor platform_admin i p db)
    unfolding deliver log_event Follows
    deliver-Ends i p db new f =
        if-Ends h db draw.delivered _ _
          (λ sent. ends h db _ (Reach-trans f (Reach-append h p.invitations i new)))
          (λ lost. unchanged h db _)

    replace_expired-Ends :
        (email : String) (roles : List Role) (p db : Db)
        → Follows h db p
        → Ends h db (
            replace_expired cfg sha256 active_key_of now draw organization actor platform_admin
              email roles p db)
    unfolding replace_expired
    replace_expired-Ends email roles p db f =
        let key = active_key_of organization.id email in
        let new =
          new_invitation cfg sha256 active_key_of now draw organization actor platform_admin email
            roles in
        query-Ends h db (first (open_key key) p.invitations) _ _
          (λ alone. deliver-Ends new p db refl f)
          (λ i there.
            if-Ends h db (ltb now i.expires_at) _ _ (λ early. unchanged h db _)
              (λ late. deliver-Ends new (set_expired (open_key key) i (some actor.id) p) db refl (
                Follows-trans h db p (set_expired (open_key key) i (some actor.id) p) f
                  (set_expired-Follows h (open_key key) i (some actor.id) p there))))

    invite_with_roles-Ends :
        (email : String) (names : List String) (db : Db)
        → Ends h db (
            invite_with_roles cfg sha256 active_key_of now draw organization actor platform_admin
              email names db)
    unfolding invite_with_roles
    invite_with_roles-Ends email names db =
        let based = get_or_create_role draw.role_id "org_member" [] db in
        let resolved =
          resolve_roles_for_org organization.id platform_admin (some actor.id) none names based.1 in
        let kept =
          same-resolve_roles_for_org organization.id platform_admin (some actor.id) none names
            based.1
          ∙ same-get_or_create_role draw.role_id "org_member" [] db in
        if-Ends h db (leb 9 (length names) || repeats names) _ _ (λ bad. unchanged h db _)
          (λ good.
            call-Ends h db resolved.0 _ _
              (λ error refused. ends h db _ (
                Follows-same h db (after_refusal error resolved.1 db)
                  (same-after_refusal error resolved.1 db kept)))
              (λ roles known.
                replace_expired-Ends email roles resolved.1 db (Follows-same h db resolved.1 kept)))

    pub create-Ends :
        (email : String) (names : List String) (db : Db)
        → Ends h db (
            create_invitation cfg sha256 active_key_of now draw organization actor platform_admin
              email names db)
    unfolding create_invitation
    create-Ends email names db =
        if-Ends h db (not cfg.enabled || cfg.accept_url ≈ "") _ _ (λ off. unchanged h db _)
          (λ on.
            if-Ends h db (not cfg.accept_url_valid) _ _ (λ bad_url. unchanged h db _)
              (λ good_url.
                if-Ends h db (bad_email (normalized email)) _ _ (λ bad. unchanged h db _)
                  (λ good.
                    if-Ends h db (not (leb 60 cfg.ttl_seconds && leb cfg.ttl_seconds 2592000)) _ _
                      (λ out. unchanged h db _)
                      (λ within.
                        if-Ends h db
                          (is_member organization.id
                            (first (λ u. u.email ≈ normalized email) db.users) db)
                          _ _ (λ member. unchanged h db _)
                          (λ stranger.
                            invite_with_roles-Ends (normalized email) (asked_roles names) db)))))
