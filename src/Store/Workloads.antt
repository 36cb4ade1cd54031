-- ===== src/Store/Workloads.antt =====
-- internal/store/memory.go: apps, builds, databases and services.
use viro_coolify.Base.{
  String, List, Result, ok, err, not_found, conflict, or_error, str_eq, ltb, if◌then◌else◌,
}
use viro_coolify.Base.Table.{lookup, insert, erase, contains, values, select}
use viro_coolify.Base.Sort.{sort_by}
use viro_coolify.Domain.Deploy.{App, Build, Database, Service}
use viro_coolify.Store.Page.{Page, page_of}
use viro_coolify.Store.State.{MemoryStore}

unfoldable pub create_app : MemoryStore → App → Result MemoryStore
create_app s a =
    if contains a.id s.apps then err conflict else ok (record s { apps = insert a.id a s.apps })

unfoldable pub get_app : MemoryStore → String → Result App
get_app s id = or_error not_found (lookup id s.apps)

unfoldable pub update_app : MemoryStore → App → Result MemoryStore
update_app s a =
    if contains a.id s.apps then ok (record s { apps = insert a.id a s.apps }) else err not_found

unfoldable pub delete_app : MemoryStore → String → Result MemoryStore
delete_app s id =
    if contains id s.apps then ok (record s { apps = erase id s.apps }) else err not_found

unfoldable pub list_apps_by_org : MemoryStore → String → Result (List App)
list_apps_by_org s org_id = ok (select (λ a. str_eq a.org_id org_id) (values s.apps))

unfoldable pub create_build : MemoryStore → Build → Result MemoryStore
create_build s b =
    if contains b.id s.builds
    then err conflict
    else ok (record s { builds = insert b.id b s.builds })

unfoldable pub get_build : MemoryStore → String → Result Build
get_build s id = or_error not_found (lookup id s.builds)

unfoldable pub update_build : MemoryStore → Build → Result MemoryStore
update_build s b =
    if contains b.id s.builds
    then ok (record s { builds = insert b.id b s.builds })
    else err not_found

unfoldable pub list_builds_by_app : MemoryStore → String → Page → Result (List Build)
list_builds_by_app s app_id p =
    page_of
      (sort_by (λ a b. ltb b.created_at a.created_at)
        (select (λ b. str_eq b.app_id app_id) (values s.builds)))
      p

unfoldable pub create_database : MemoryStore → Database → Result MemoryStore
create_database s d =
    if contains d.id s.databases
    then err conflict
    else ok (record s { databases = insert d.id d s.databases })

unfoldable pub get_database : MemoryStore → String → Result Database
get_database s id = or_error not_found (lookup id s.databases)

unfoldable pub update_database : MemoryStore → Database → Result MemoryStore
update_database s d =
    if contains d.id s.databases
    then ok (record s { databases = insert d.id d s.databases })
    else err not_found

unfoldable pub delete_database : MemoryStore → String → Result MemoryStore
delete_database s id =
    if contains id s.databases
    then ok (record s { databases = erase id s.databases })
    else err not_found

unfoldable pub list_databases_by_org : MemoryStore → String → Result (List Database)
list_databases_by_org s org_id = ok (select (λ d. str_eq d.org_id org_id) (values s.databases))

unfoldable pub create_service : MemoryStore → Service → Result MemoryStore
create_service s v =
    if contains v.id s.services
    then err conflict
    else ok (record s { services = insert v.id v s.services })

unfoldable pub get_service : MemoryStore → String → Result Service
get_service s id = or_error not_found (lookup id s.services)

unfoldable pub update_service : MemoryStore → Service → Result MemoryStore
update_service s v =
    if contains v.id s.services
    then ok (record s { services = insert v.id v s.services })
    else err not_found

unfoldable pub delete_service : MemoryStore → String → Result MemoryStore
delete_service s id =
    if contains id s.services
    then ok (record s { services = erase id s.services })
    else err not_found

unfoldable pub list_services_by_org : MemoryStore → String → Result (List Service)
list_services_by_org s org_id = ok (select (λ v. str_eq v.org_id org_id) (values s.services))
