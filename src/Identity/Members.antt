-- ===== src/Identity/Members.antt =====
-- internal/identity/service.go: the members of an org and their roles.
pub mod Owners
pub mod Steps
pub mod Race
use viro_coolify.Base.{
  ℕ, zero, suc, ◌+◌, String, Bool, true, false, ◌&&◌, not, List, [], ◌∷◌, Result, ok, err, invalid,
  missing, state_conflict, leb, str_eq, if◌then◌else◌,
}
use viro_coolify.Base.Tally.{tally}
use viro_coolify.Domain.Access.{Role, Membership, valid}
use viro_coolify.Store.Session.{M, pure, throw, ◌>>=◌, ◌>>◌, look, read, write, on_not_found, when}
use viro_coolify.Store.Tenants.{
  get_membership, list_memberships, update_membership_role, remove_membership,
}
use viro_coolify.Identity.Access.{authorize, is_owner}

-- `Service.countOwners`
unfoldable pub count_owners : String → M ℕ
count_owners org_id =
    read (λ s. list_memberships s org_id) >>= λ members. pure (tally (λ m. is_owner m.role) members)

-- The guard of both operations on a member who is an owner.
unfoldable pub another_owner : String → M (Unit {0})
unfolding count_owners
another_owner org_id =
    count_owners org_id >>= λ owners. if leb owners 1 then throw state_conflict else pure tt

-- `Service.UpdateMemberRole` up to its write.
unfoldable pub may_change_role : String → String → String → Role → M (Unit {0})
may_change_role actor_id org_id target_id role = authorize actor_id org_id Role.owner >>= λ _.
    if not (valid role)
    then throw invalid
    else (on_not_found missing (read (λ s. get_membership s org_id target_id)) >>= λ target.
        when (is_owner target.role && not (is_owner role)) (another_owner org_id))

-- `Service.UpdateMemberRole`
unfoldable pub update_member_role : String → String → String → Role → M (Unit {0})
update_member_role actor_id org_id target_id role =
    may_change_role actor_id org_id target_id role
    >> on_not_found missing (write (λ s. update_membership_role s org_id target_id role))

-- `Service.RemoveMember` up to its write.
unfoldable pub may_remove : String → String → String → M (Unit {0})
may_remove actor_id org_id target_id = authorize actor_id org_id Role.owner >>= λ _.
    on_not_found missing (read (λ s. get_membership s org_id target_id)) >>= λ target.
    when (is_owner target.role) (another_owner org_id)

-- `Service.RemoveMember`
unfoldable pub remove_member : String → String → String → M (Unit {0})
remove_member actor_id org_id target_id =
    may_remove actor_id org_id target_id
    >> on_not_found missing (write (λ s. remove_membership s org_id target_id))

-- `Service.ListMembers`
unfoldable pub list_members : String → String → M (List Membership)
list_members user_id org_id =
    authorize user_id org_id Role.member >>= λ _. read (λ s. list_memberships s org_id)
