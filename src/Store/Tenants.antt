-- ===== src/Store/Tenants.antt =====
-- internal/store/memory.go: organizations, memberships, projects and invitations.
use viro_coolify.Base.{
  String, not, List, [], ◌∷◌, Result, ok, err, not_found, conflict, or_error, str_eq, if◌then◌else◌,
  none, some,
}
use Prim.Native.String.{◌++◌ as join}
use viro_coolify.Base.Table.{lookup, insert, erase, contains, values, find, select, any}
use viro_coolify.Domain.Access.{
  Role, Organization, Membership, Project, ProjectMembership, Invitation, InvitationStatus,
}
use viro_coolify.Store.State.{MemoryStore}

unfoldable pub create_organization : MemoryStore → Organization → Result MemoryStore
create_organization s o =
    if contains o.id s.organizations
    then err conflict
    else ok (record s { organizations = insert o.id o s.organizations })

unfoldable pub get_organization : MemoryStore → String → Result Organization
get_organization s id = or_error not_found (lookup id s.organizations)

unfoldable pub list_all_orgs : MemoryStore → Result (List Organization)
list_all_orgs s = ok (values s.organizations)

-- The fields that `UpdateOrg` lets change. The second result is the row that the caller's pointer
-- is given.
unfoldable pub update_org : MemoryStore → Organization → Result (MemoryStore × Organization)
update_org s o = elim (lookup o.id s.organizations) [
  | none ↦ err not_found
  | some existing ↦
      let row = record existing {
        name = o.name;
        billing_email = o.billing_email;
        spend_cap_cents = o.spend_cap_cents;
      } in
      ok (record s { organizations = insert o.id row s.organizations }, row)
]

-- The organizations of the memberships, in the memberships' order.
unfoldable pub orgs_of : MemoryStore → List Membership → List Organization
orgs_of s [] = []
orgs_of s (m ∷ ms) = elim (lookup m.org_id s.organizations) [
  | none ↦ orgs_of s ms
  | some o ↦ o ∷ orgs_of s ms
]

unfoldable pub list_organizations_for_user : MemoryStore → String → Result (List Organization)
unfolding orgs_of
list_organizations_for_user s user_id =
    ok (orgs_of s (select (λ m. str_eq m.user_id user_id) (values s.memberships)))

-- `membershipKey` and `projectMemberKey`
unfoldable pub membership_key : String → String → String
membership_key org_id user_id = join org_id (join "\0" user_id)

unfoldable pub add_membership : MemoryStore → Membership → Result MemoryStore
add_membership s m =
    let key = membership_key m.org_id m.user_id in
    if contains key s.memberships
    then err conflict
    else ok (record s { memberships = insert key m s.memberships })

unfoldable pub get_membership : MemoryStore → String → String → Result Membership
get_membership s org_id user_id =
    or_error not_found (lookup (membership_key org_id user_id) s.memberships)

unfoldable pub list_memberships : MemoryStore → String → Result (List Membership)
list_memberships s org_id = ok (select (λ m. str_eq m.org_id org_id) (values s.memberships))

unfoldable pub update_membership_role : MemoryStore → String → String → Role → Result MemoryStore
update_membership_role s org_id user_id role =
    let key = membership_key org_id user_id in
    elim (lookup key s.memberships) [
      | none ↦ err not_found
      | some m ↦ ok (record s { memberships = insert key (record m { role = role }) s.memberships })
    ]

unfoldable pub remove_membership : MemoryStore → String → String → Result MemoryStore
remove_membership s org_id user_id =
    let key = membership_key org_id user_id in
    if contains key s.memberships
    then ok (record s { memberships = erase key s.memberships })
    else err not_found

unfoldable pub create_project : MemoryStore → Project → Result MemoryStore
create_project s p =
    if contains p.id s.projects
    then err conflict
    else ok (record s { projects = insert p.id p s.projects })

unfoldable pub get_project : MemoryStore → String → Result Project
get_project s id = or_error not_found (lookup id s.projects)

unfoldable pub list_projects_by_org : MemoryStore → String → Result (List Project)
list_projects_by_org s org_id = ok (select (λ p. str_eq p.org_id org_id) (values s.projects))

unfoldable pub delete_project : MemoryStore → String → String → Result MemoryStore
delete_project s org_id project_id = elim (lookup project_id s.projects) [
  | none ↦ err not_found
  | some p ↦
      if not (str_eq p.org_id org_id)
      then err not_found
      else if any (λ a. str_eq a.project_id project_id) (values s.apps)
      then err conflict
      else if any (λ v. str_eq v.project_id project_id) (values s.services)
      then err conflict
      else ok (record s { projects = erase project_id s.projects })
]

unfoldable pub add_project_membership : MemoryStore → ProjectMembership → Result MemoryStore
add_project_membership s m =
    let key = membership_key m.project_id m.user_id in
    if contains key s.project_members
    then err conflict
    else ok (record s { project_members = insert key m s.project_members })

unfoldable pub get_project_membership : MemoryStore → String → String → Result ProjectMembership
get_project_membership s project_id user_id =
    or_error not_found (lookup (membership_key project_id user_id) s.project_members)

unfoldable pub create_invitation : MemoryStore → Invitation → Result MemoryStore
create_invitation s i =
    if contains i.id s.invitations
    then err conflict
    else ok (record s { invitations = insert i.id i s.invitations })

unfoldable pub update_invitation : MemoryStore → Invitation → Result MemoryStore
update_invitation s i =
    if contains i.id s.invitations
    then ok (record s { invitations = insert i.id i s.invitations })
    else err not_found

unfoldable pub list_invitations_by_org : MemoryStore → String → Result (List Invitation)
list_invitations_by_org s org_id = ok (select (λ i. str_eq i.org_id org_id) (values s.invitations))

unfoldable pub get_invitation_by_token : MemoryStore → String → Result Invitation
get_invitation_by_token s token =
    or_error not_found (find (λ v. str_eq v.token token) (values s.invitations))

unfoldable pub revoke_invitation : MemoryStore → String → String → Result MemoryStore
revoke_invitation s org_id invite_id = elim (lookup invite_id s.invitations) [
  | none ↦ err not_found
  | some v ↦
      if str_eq v.org_id org_id
      then ok (record s {
        invitations =
            insert invite_id (record v { status = InvitationStatus.revoked }) s.invitations;
      })
      else err not_found
]
