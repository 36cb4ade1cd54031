-- ===== src/Store/AppConfig.antt =====
-- internal/store/memory.go: the environment and the custom domains of an app, and the append to the
-- audit log.
use viro_coolify.Base.{
  String, Bool, List, [], ◌∷◌, ◌++◌, none, some, Result, ok, err, not_found, conflict, or_error,
  str_eq, if◌then◌else◌,
}
use viro_coolify.Base.Table.{Table, lookup, insert, erase, contains, values, select}
use viro_coolify.Base.Sort.{sort_by}
use viro_coolify.Domain.Access.{AuditEvent}
use viro_coolify.Domain.Deploy.{AppEnvEntry, Domain}
use viro_coolify.Store.State.{MemoryStore, EnvEntry}
use viro_coolify.Store.Billing.{text_lt}

-- The entries of an app; a missing map reads as an empty one.
unfoldable pub env_of : MemoryStore → String → Table EnvEntry
env_of s app_id = elim (lookup app_id s.app_env) [ none ↦ [] | some m ↦ m ]

unfoldable pub env_values : List (String × EnvEntry) → List (String × String)
env_values [] = []
env_values ((k, v) ∷ m) = (k, v.value) ∷ env_values m

unfoldable pub get_app_env : MemoryStore → String → Result (Table String)
unfolding env_of env_values
get_app_env s app_id = ok (env_values (env_of s app_id))

unfoldable pub env_entries : List (String × EnvEntry) → List AppEnvEntry
env_entries [] = []
env_entries ((k, v) ∷ m) = record { key = k; value = v.value; secret = v.secret } ∷ env_entries m

unfoldable pub list_app_env : MemoryStore → String → Result (List AppEnvEntry)
unfolding env_of env_entries
list_app_env s app_id = ok (sort_by (λ a b. text_lt a.key b.key) (env_entries (env_of s app_id)))

unfoldable pub set_app_env : MemoryStore → String → String → String → Bool → Result MemoryStore
unfolding env_of
set_app_env s app_id key value secret =
    let env = insert key (record { value = value; secret = secret }) (env_of s app_id) in
    ok (record s { app_env = insert app_id env s.app_env })

unfoldable pub delete_app_env : MemoryStore → String → String → Result MemoryStore
delete_app_env s app_id key = elim (lookup app_id s.app_env) [
  | none ↦ ok s
  | some m ↦ ok (record s { app_env = insert app_id (erase key m) s.app_env })
]

unfoldable pub create_audit_event : MemoryStore → AuditEvent → Result MemoryStore
create_audit_event s e = ok (record s { audit_events = s.audit_events ++ (e ∷ []) })

unfoldable pub create_domain : MemoryStore → Domain → Result MemoryStore
create_domain s d =
    if contains d.id s.domains
    then err conflict
    else ok (record s { domains = insert d.id d s.domains })

unfoldable pub get_domain : MemoryStore → String → Result Domain
get_domain s id = or_error not_found (lookup id s.domains)

unfoldable pub list_domains_by_app : MemoryStore → String → Result (List Domain)
list_domains_by_app s app_id = ok (select (λ d. str_eq d.app_id app_id) (values s.domains))

unfoldable pub update_domain : MemoryStore → Domain → Result MemoryStore
update_domain s d =
    if contains d.id s.domains
    then ok (record s { domains = insert d.id d s.domains })
    else err not_found

unfoldable pub delete_domain : MemoryStore → String → Result MemoryStore
delete_domain s id =
    if contains id s.domains then ok (record s { domains = erase id s.domains }) else err not_found
