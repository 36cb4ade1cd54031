-- ===== src/Store/Catalog.antt =====
-- internal/store/memory.go: plans, prices, service templates and the platform settings.
use viro_coolify.Base.{String, List, Result, ok, err, not_found, or_error, if◌then◌else◌}
use viro_coolify.Base.Table.{lookup, insert, erase, contains, values}
use viro_coolify.Domain.Billing.{Plan, PricingComponent, PlatformSettings}
use viro_coolify.Domain.Deploy.{ServiceTemplate}
use viro_coolify.Store.State.{MemoryStore}

unfoldable pub get_plan : MemoryStore → String → Result Plan
get_plan s id = or_error not_found (lookup id s.plans)

unfoldable pub upsert_plan : MemoryStore → Plan → Result MemoryStore
upsert_plan s p = ok (record s { plans = insert p.id p s.plans })

unfoldable pub delete_plan : MemoryStore → String → Result MemoryStore
delete_plan s id =
    if contains id s.plans then ok (record s { plans = erase id s.plans }) else err not_found

unfoldable pub list_plans : MemoryStore → Result (List Plan)
list_plans s = ok (values s.plans)

unfoldable pub get_pricing_component : MemoryStore → String → Result PricingComponent
get_pricing_component s key = or_error not_found (lookup key s.pricing)

unfoldable pub upsert_pricing_component : MemoryStore → PricingComponent → Result MemoryStore
upsert_pricing_component s p = ok (record s { pricing = insert p.key p s.pricing })

unfoldable pub delete_pricing_component : MemoryStore → String → Result MemoryStore
delete_pricing_component s key =
    if contains key s.pricing
    then ok (record s { pricing = erase key s.pricing })
    else err not_found

unfoldable pub list_pricing_components : MemoryStore → Result (List PricingComponent)
list_pricing_components s = ok (values s.pricing)

unfoldable pub get_service_template : MemoryStore → String → Result ServiceTemplate
get_service_template s key = or_error not_found (lookup key s.templates)

unfoldable pub upsert_service_template : MemoryStore → ServiceTemplate → Result MemoryStore
upsert_service_template s v = ok (record s { templates = insert v.key v s.templates })

unfoldable pub delete_service_template : MemoryStore → String → Result MemoryStore
delete_service_template s key =
    if contains key s.templates
    then ok (record s { templates = erase key s.templates })
    else err not_found

unfoldable pub list_service_templates : MemoryStore → Result (List ServiceTemplate)
list_service_templates s = ok (values s.templates)

unfoldable pub get_settings : MemoryStore → Result PlatformSettings
get_settings s = ok s.settings

unfoldable pub update_settings : MemoryStore → PlatformSettings → Result MemoryStore
update_settings s settings = ok (record s { settings = settings })
