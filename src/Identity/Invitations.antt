-- ===== src/Identity/Invitations.antt =====
-- internal/identity/service.go: invitations to an org or to one of its projects. The mail to the
-- invited fails silently and leaves the store as it is.
pub mod Joined
pub mod Accepted
use viro_coolify.Base.{
  ◌+◌, String, Bool, true, false, not, ◌||◌, List, Error, Result, ok, err, is_not_found,
  is_conflict, invalid, missing, forbidden, invitation_invalid, str_eq, ltb, if◌then◌else◌,
}
use viro_coolify.Domain.Scalar.{Time}
use viro_coolify.Domain.Access.{Role, Membership, Project, Invitation, InvitationStatus, valid}
use viro_coolify.Store.Session.{
  M, pure, throw, ◌>>=◌, ◌>>◌, look, read, write, on_not_found, with_tx, when,
}
use viro_coolify.Store.Tenants.{
  get_membership, add_membership, get_project, add_project_membership, create_invitation,
  update_invitation, list_invitations_by_org, get_invitation_by_token, revoke_invitation,
}
use viro_coolify.Identity.Env.{Lib, Service, Fresh, normalize_email}
use viro_coolify.Identity.Access.{authorize}
use viro_coolify.Identity.Sessions.{is_past}

-- The project that an invitation is for has to be the org's.
abbrev pub of_org : String → Result Project → M (Unit {0})
of_org org_id (ok p) = if str_eq p.org_id org_id then pure tt else throw invalid
of_org org_id (err e) = throw invalid

module _ (lib : Lib) (svc : Service) where
  unfoldable pub invitation : String → String → String → String → Role → Fresh → Invitation
  invitation inviter_id org_id project_id email role f = record {
    id = f.id;
    org_id = org_id;
    project_id = project_id;
    email = email;
    role = role;
    token = f.token;
    status = InvitationStatus.pending;
    invited_by = inviter_id;
    created_at = f.now;
    expires_at = if ltb 0 svc.invitation_ttl then f.now + svc.invitation_ttl else 0;
  }

  -- `Service.Invite`
  unfoldable pub invite : String → String → String → String → Role → Fresh → M Invitation
  unfolding invitation
  invite inviter_id org_id project_id email role f = authorize inviter_id org_id Role.admin >>= λ _.
      let address = normalize_email lib email in
      let inv = invitation inviter_id org_id project_id address role f in
      if not (lib.is_email address) || not (valid role)
      then throw invalid
      else (when (not (str_eq project_id ""))
            (look (read (λ s. get_project s project_id)) >>= λ r. of_org org_id r)
          >> write (λ s. create_invitation s inv)
          >> pure inv)

-- `Service.ListInvitations`
unfoldable pub list_invitations : String → String → M (List Invitation)
list_invitations user_id org_id =
    authorize user_id org_id Role.admin >>= λ _. read (λ s. list_invitations_by_org s org_id)

-- `Service.RevokeInvitation`
unfoldable pub revoke_org_invitation : String → String → String → M (Unit {0})
revoke_org_invitation user_id org_id invite_id = authorize user_id org_id Role.admin >>= λ _.
    on_not_found missing (write (λ s. revoke_invitation s org_id invite_id))

abbrev pub is_pending : InvitationStatus → Bool
is_pending InvitationStatus.pending = true
is_pending _ = false

-- What the transaction adds for the org: nothing for a member.
abbrev pub join_org : Membership → Result Membership → M (Unit {0})
join_org new (ok m) = pure tt
join_org new (err e) = if is_not_found e then write (λ s. add_membership s new) else throw e

-- A membership in the project that is there already is no error.
abbrev pub unless_conflict : Result (Unit {0}) → M (Unit {0})
unless_conflict (ok u) = pure tt
unless_conflict (err e) = if is_conflict e then pure tt else throw e

abbrev pub granted : Invitation → String → Membership
granted inv user_id = record {
  org_id = inv.org_id;
  user_id = user_id;
  role = if str_eq inv.project_id "" then inv.role else Role.member;
}

-- The transaction of `AcceptInvitation`
unfoldable pub grant : Invitation → String → M (Unit {0})
grant inv user_id = look (read (λ s. get_membership s inv.org_id user_id)) >>= λ r.
    join_org (granted inv user_id) r
    >> when (not (str_eq inv.project_id "")) (
        look (
          write (λ s.
            add_project_membership s
              (record { project_id = inv.project_id; user_id = user_id; role = inv.role })))
        >>= λ a. unless_conflict a)
    >> write (λ s. update_invitation s (record inv { status = InvitationStatus.accepted }))

-- `Service.AcceptInvitation`
unfoldable pub accept_invitation : Lib → String → String → String → Time → M Invitation
unfolding grant
accept_invitation lib user_id user_email token now =
    on_not_found invitation_invalid (read (λ s. get_invitation_by_token s token)) >>= λ inv.
    if not (is_pending inv.status) || is_past inv.expires_at now
    then throw invitation_invalid
    else if not (str_eq (normalize_email lib user_email) inv.email)
    then throw forbidden
    else (with_tx (grant inv user_id) >> pure (record inv { status = InvitationStatus.accepted }))
