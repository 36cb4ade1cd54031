-- ===== src/Identity/Projects.antt =====
-- internal/identity/service.go: an org's projects.
use viro_coolify.Base.{
  String, true, false, List, [], ◌∷◌, none, some, Result, ok, err, is_not_found, is_conflict,
  not_found, invalid, missing, state_conflict, str_eq, if◌then◌else◌,
}
use Prim.Native.String.{◌++◌ as join}
use viro_coolify.Base.Table.{find}
use viro_coolify.Domain.Access.{Role, Project}
use viro_coolify.Store.Session.{M, pure, throw, ◌>>=◌, ◌>>◌, look, read, write}
use viro_coolify.Store.Tenants.{create_project, get_project, list_projects_by_org, delete_project}
use viro_coolify.Identity.Env.{Lib, Fresh, slugify, short_id}
use viro_coolify.Identity.Access.{authorize, project_in}

unfoldable pub default_row : String → Fresh → Project
default_row org_id f = record {
  id = f.third_id;
  org_id = org_id;
  name = "Default";
  slug = "default";
  is_default = true;
  created_at = f.now;
}

-- `Service.createDefaultProjectTx`
unfoldable pub create_default_project : String → Fresh → M Project
unfolding default_row
create_default_project org_id f =
    write (λ s. create_project s (default_row org_id f)) >> pure (default_row org_id f)

unfoldable pub first_project : List Project → M Project
first_project [] = throw not_found
first_project (p ∷ ps) = pure p

-- `Service.DefaultProject`
unfoldable pub default_project : String → M Project
unfolding first_project
default_project org_id = read (λ s. list_projects_by_org s org_id) >>= λ ps.
    elim (find (λ p. p.is_default) ps) [ some p ↦ pure p | none ↦ first_project ps ]

-- `Service.CreateProject`
unfoldable pub create_org_project : Lib → String → String → String → Fresh → M Project
create_org_project lib user_id org_id name f = authorize user_id org_id Role.admin >>= λ _.
    let trimmed = lib.trim_space name in
    if str_eq trimmed ""
    then throw invalid
    else (let p : Project = record {
      id = f.id;
      org_id = org_id;
      name = trimmed;
      slug = join (slugify lib trimmed) (join "-" (short_id lib f.other_id));
      is_default = false;
      created_at = f.now;
    } in
        write (λ s. create_project s p) >> pure p)

-- `Service.ListProjects`
unfoldable pub list_projects : String → String → M (List Project)
list_projects user_id org_id =
    authorize user_id org_id Role.member >>= λ _. read (λ s. list_projects_by_org s org_id)

-- How `DeleteProject` renames the errors of the store.
abbrev pub deleted : Result (Unit {0}) → M (Unit {0})
deleted (ok u) = pure tt
deleted (err e) =
    if is_not_found e
    then throw missing
    else if is_conflict e
    then throw state_conflict
    else throw e

-- `Service.DeleteProject`
unfoldable pub delete_org_project : String → String → String → M (Unit {0})
delete_org_project user_id org_id project_id = authorize user_id org_id Role.admin >>= λ _.
    look (read (λ s. get_project s project_id)) >>= λ r. project_in missing org_id r >>= λ p.
    if p.is_default
    then throw state_conflict
    else (look (write (λ s. delete_project s org_id project_id)) >>= λ d. deleted d)
