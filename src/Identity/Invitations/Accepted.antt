-- ===== src/Identity/Invitations/Accepted.antt =====
-- internal/identity/service.go: who gets in with an invitation, and as what.
use viro_coolify.Base.{
  String, true, false, not, ◌||◌, Option, Error, Result, ok, err, forbidden, invitation_invalid,
  str_eq, ◌≡◌, ◌⊎◌, refl, ◌∙◌, sym, inl, inr, ◌<◌, eq_iff, arith,
}
use viro_coolify.Base.Table.{lookup}
use viro_coolify.Domain.Scalar.{Time}
use viro_coolify.Domain.Access.{Membership, Invitation, InvitationStatus, ProjectMembership}
use viro_coolify.Store.State.{MemoryStore}
use viro_coolify.Store.Session.{World, look, read}
use viro_coolify.Store.Session.Outcomes.{
  Ends, Ends-ok, pure-Ends, throw-Ends, if-Ends, read-Ends, write-Ends, with_tx-Ends,
  on_not_found-Ends, fact-Ends, look_read-Ends, >>=-Ends, ok_injective,
}
use viro_coolify.Store.Tenants.{membership_key, get_membership, get_invitation_by_token}
use viro_coolify.Identity.Env.{Lib, normalize_email}
use viro_coolify.Identity.Sessions.{is_past}
use viro_coolify.Identity.Invitations.Joined.{
  Before, IsMember, InProject, IsAccepted, Joined, join_org-Ends, project-Ends, update-IsAccepted,
}
use viro_coolify.Identity.Invitations.{is_pending, join_org, granted, grant, accept_invitation}

pending-status : (st : InvitationStatus) → is_pending st ≡ true → st ≡ InvitationStatus.pending
pending-status InvitationStatus.pending h = refl
pending-status InvitationStatus.accepted h = ground (arith, h)
pending-status InvitationStatus.revoked h = ground (arith, h)
pending-status (InvitationStatus.other t) h = ground (arith, h)

in_time : (end now : Time) → is_past end now ≡ false → (end ≡ 0) ⊎ (now < end)
unfolding is_past
in_time end now h = ground (arith, h)

addressed_to :
    (lib : Lib) (given email : String)
    → str_eq (normalize_email lib given) email ≡ true
    → lib.to_lower (lib.trim_space given) ≡ email
unfolding normalize_email
addressed_to lib given email h = (eq_iff _ email).0 h

-- Who accepts: the invited, in time, and once.
abbrev pub IsInvited : Invitation → Lib → String → Time → Type 0
IsInvited inv lib user_email now =
    (inv.status ≡ InvitationStatus.pending)
    × ((inv.expires_at ≡ 0) ⊎ (now < inv.expires_at))
    × (lib.to_lower (lib.trim_space user_email) ≡ inv.email)

module _ (inv : Invitation) (user_id : String) (was : Result Membership)
    (had : Option ProjectMembership) where
  -- The membership that the transaction reads: the one that is there, or the error of the call.
  abbrev Read : Result Membership → MemoryStore → Type 0
  Read r s = Before inv user_id was had s × ((was ≡ r) ⊎ (r ≡ err Error.transient))

  read-Ends_join :
      (r : Result Membership)
      → (was ≡ r) ⊎ (r ≡ err Error.transient)
      → Ends
          (Before inv user_id was had)
          (join_org (granted inv user_id) r)
          (λ _. (Joined inv user_id was had))
  read-Ends_join r (inl q) = (join_org-Ends inv user_id was had) r q
  read-Ends_join r (inr q) = rw q (throw-Ends _ _ Error.transient)

  grant-Ends :
      Ends (Before inv user_id was had) (grant inv user_id) (λ _. (IsAccepted inv user_id was had))
  unfolding grant
  grant-Ends =
      >>=-Ends {A = Result Membership} _ Read _
        (look (read (λ s. get_membership s inv.org_id user_id))) _
        (look_read-Ends _ _ _ (λ s b. (b, inl (sym b.0))) (λ s b. (b, inr refl)))
        (λ r.
          >>=-Ends {A = Unit {0}} _
            (λ _ s. IsMember inv user_id was had s × InProject inv user_id was had s) _ _ _
            (>>=-Ends {A = Unit {0}} _ (λ _. (Joined inv user_id was had)) _ _ _
              (fact-Ends _ _ _ _ (read-Ends_join r)) (λ _. (project-Ends inv user_id was had)))
            (λ _. write-Ends _ _ _ (update-IsAccepted inv user_id was had)))

  accept_invitation-Ends :
      (lib : Lib) (user_email token : String) (now : Time)
      → Ends
          (λ s. (get_invitation_by_token s token ≡ ok inv) × Before inv user_id was had s)
          (accept_invitation lib user_id user_email token now)
          (λ _ s. IsInvited inv lib user_email now × IsAccepted inv user_id was had s)
  unfolding accept_invitation
  accept_invitation-Ends lib user_email token now =
      >>=-Ends {A = Invitation} _ (λ i s. Before inv user_id was had s × (i ≡ inv)) _ _ _
        (on_not_found-Ends _ _ _ _ (read-Ends _ _ _ (λ a s i e. (i.1, ok_injective (sym e ∙ i.0)))))
        (λ i. fact-Ends _ _ _ _ (λ same. rw same (
          if-Ends _ _ (not (is_pending inv.status) || is_past inv.expires_at now) _ _
            (λ _. throw-Ends _ _ invitation_invalid)
            (λ live.
              if-Ends _ _ (not (str_eq (normalize_email lib user_email) inv.email)) _ _
                (λ _. throw-Ends _ _ forbidden)
                (λ addressed.
                  >>=-Ends {A = Unit {0}} _ (λ _. (IsAccepted inv user_id was had)) _ _ _
                    (with_tx-Ends _ _ _ grant-Ends)
                    (λ _.
                      pure-Ends _ _ (record inv { status = InvitationStatus.accepted })
                        (λ s a. (
                          (
                            pending-status inv.status (ground (arith, live)),
                            in_time inv.expires_at now (ground (arith, live)),
                            addressed_to lib user_email inv.email (ground (arith, addressed)),
                          ),
                          a,
                        ))))))))

-- An AcceptInvitation that succeeds for the invitation that its token finds, whatever calls fail, was
-- called for a pending invitation, before its expiry if it has one, and with the invited address; it
-- leaves the user a member of the org, with the role from before or, for a new member, the one of the
-- invitation (that of a member, where it is for a project); a member of the project if there is one, as
-- before or with the role of the invitation; and the invitation marked accepted.
pub accept_invitation-IsAccepted :
    (lib : Lib) (user_id user_email token : String) (now : Time) (inv : Invitation) (w : World)
    (r : Invitation)
    → get_invitation_by_token w.store token ≡ ok inv
    → (accept_invitation lib user_id user_email token now w).0 ≡ ok r
    → IsInvited inv lib user_email now
      × IsAccepted inv user_id
          (get_membership w.store inv.org_id user_id)
          (lookup (membership_key inv.project_id user_id) w.store.project_members)
          (accept_invitation lib user_id user_email token now w).1.store
accept_invitation-IsAccepted lib user_id user_email token now inv w r found done =
    Ends-ok _ _ _ w r
      (accept_invitation-Ends inv user_id (get_membership w.store inv.org_id user_id)
        (lookup (membership_key inv.project_id user_id) w.store.project_members) lib user_email
        token now)
      (found, (refl, refl)) done
