-- ===== src/Identity/Access.antt =====
-- internal/identity/service.go: authorization in an org and in a project.
use viro_coolify.Base.{
  String, Bool, true, false, List, [], ◌∷◌, Error, Result, ok, err, is_not_found, forbidden, str_eq,
  if◌then◌else◌,
}
use viro_coolify.Domain.Access.{Role, Membership, Project, at_least}
use viro_coolify.Store.Session.{M, pure, throw, ◌>>=◌, look, read, on_not_found}
use viro_coolify.Store.Tenants.{
  get_membership, get_project, get_project_membership, list_projects_by_org,
}

-- `role == domain.RoleOwner`
abbrev pub is_owner : Role → Bool
is_owner Role.owner = true
is_owner _ = false

-- `Service.Authorize`
unfoldable pub authorize : String → String → Role → M Membership
authorize user_id org_id least = do
  m ← on_not_found forbidden (read (λ s. get_membership s org_id user_id))
  if at_least m.role least then pure m else throw forbidden

-- The project of the org; one of another org is as good as none.
abbrev pub project_in : Error → String → Result Project → M Project
project_in e org_id (ok p) = if str_eq p.org_id org_id then pure p else throw e
project_in e org_id (err x) = if is_not_found x then throw e else throw x

abbrev pub is_org_admin : Result Membership → Bool
is_org_admin (ok m) = at_least m.role Role.admin
is_org_admin (err e) = false

-- `Service.AuthorizeProject`
unfoldable pub authorize_project : String → String → String → Role → M (Unit {0})
authorize_project user_id org_id project_id least = do
  r ← look (read (λ s. get_project s project_id))
  p ← project_in forbidden org_id r
  m ← look (read (λ s. get_membership s org_id user_id))
  if is_org_admin m
      then pure tt
      else (on_not_found forbidden (read (λ s. get_project_membership s project_id user_id))
          >>= λ pm. if at_least pm.role least then pure tt else throw forbidden)

-- The loop of `AccessibleProjectIDs`, which returns the ids of the projects that the user is in.
unfoldable pub member_projects : String → List Project → M (List String)
member_projects user_id [] = pure []
member_projects user_id (p ∷ ps) = do
  r ← look (read (λ s. get_project_membership s p.id user_id))
  elim r [
    | ok pm ↦ member_projects user_id ps >>= λ ids. pure (p.id ∷ ids)
    | err e ↦ if is_not_found e then member_projects user_id ps else throw e
  ]

-- `Service.AccessibleProjectIDs`: the ids, and whether the user sees every project.
unfoldable pub accessible_project_ids : String → String → M (List String × Bool)
accessible_project_ids user_id org_id = do
  m ← look (read (λ s. get_membership s org_id user_id))
  if is_org_admin m
      then pure ([], true)
      else elim m [ ok _ ↦ listed | err e ↦ if is_not_found e then listed else throw e ]
  where
    listed : M (List String × Bool)
    listed = read (λ s. list_projects_by_org s org_id) >>= λ ps.
        member_projects user_id ps >>= λ ids. pure (ids, false)
