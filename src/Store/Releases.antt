-- ===== src/Store/Releases.antt =====
-- internal/store/memory.go: the releases of an app.
use viro_coolify.Base.{
  String, ◌&&◌, List, Result, ok, err, not_found, conflict, or_error, str_eq, if◌then◌else◌,
}
use viro_coolify.Base.Int.{ltb_ℤ, eqb_ℤ}
use viro_coolify.Base.Table.{lookup, insert, contains, values, select, any}
use viro_coolify.Base.Sort.{sort_by}
use viro_coolify.Domain.Deploy.{Release}
use viro_coolify.Store.Page.{Page, page_of}
use viro_coolify.Store.State.{MemoryStore}

-- A revision is given once to each app, as by the unique index of the database.
unfoldable pub create_release : MemoryStore → Release → Result MemoryStore
create_release s rel =
    if contains rel.id s.releases
    then err conflict
    else if any (λ e. str_eq e.app_id rel.app_id && eqb_ℤ e.revision rel.revision)
        (values s.releases)
    then err conflict
    else ok (record s { releases = insert rel.id rel s.releases })

unfoldable pub get_release : MemoryStore → String → Result Release
get_release s id = or_error not_found (lookup id s.releases)

-- The newest revision comes first.
unfoldable pub list_releases_by_app : MemoryStore → String → Page → Result (List Release)
list_releases_by_app s app_id p =
    page_of
      (sort_by (λ a b. ltb_ℤ b.revision a.revision)
        (select (λ rel. str_eq rel.app_id app_id) (values s.releases)))
      p

unfoldable pub update_release : MemoryStore → Release → Result MemoryStore
update_release s rel =
    if contains rel.id s.releases
    then ok (record s { releases = insert rel.id rel s.releases })
    else err not_found
