-- ===== src/Store/Billing.antt =====
-- internal/store/memory.go: subscriptions, usage records, webhook events and the two watermarks.
use viro_coolify.Base.{
  String, Bool, true, false, not, List, [], ◌∷◌, ◌++◌, Result, ok, err, not_found, or_error, str_eq,
  ltb, ◌==◌, if◌then◌else◌, none, some,
}
use viro_coolify.Base.Table.{lookup, insert, contains, values, find, select, any}
use viro_coolify.Base.Sort.{sort_by}
use viro_coolify.Domain.Scalar.{Time}
use viro_coolify.Domain.Billing.{Subscription, UsageRecord, MeterState, UsageReportState}
use viro_coolify.Store.Page.{Page, page_of}
use viro_coolify.Store.State.{MemoryStore}
use Prim.Native.Nat.{Ordering}
use Prim.Native.String.{compare as compare_text}

unfoldable pub upsert_subscription : MemoryStore → Subscription → Result MemoryStore
upsert_subscription s sub = ok (record s { subscriptions = insert sub.org_id sub s.subscriptions })

unfoldable pub get_subscription : MemoryStore → String → Result Subscription
get_subscription s org_id = or_error not_found (lookup org_id s.subscriptions)

unfoldable pub get_subscription_by_stripe_id : MemoryStore → String → Result Subscription
get_subscription_by_stripe_id s stripe_sub_id =
    if str_eq stripe_sub_id ""
    then err not_found
    else or_error not_found
        (find (λ sub. str_eq sub.stripe_subscription_id stripe_sub_id) (values s.subscriptions))

unfoldable pub get_subscription_by_customer_id : MemoryStore → String → Result Subscription
get_subscription_by_customer_id s customer_id =
    if str_eq customer_id ""
    then err not_found
    else or_error not_found
        (find (λ sub. str_eq sub.stripe_customer_id customer_id) (values s.subscriptions))

unfoldable pub list_all_subscriptions : MemoryStore → Result (List Subscription)
list_all_subscriptions s = ok (values s.subscriptions)

-- A missing key of `usage` reads as the empty list.
unfoldable pub usage_of : MemoryStore → String → List UsageRecord
usage_of s org_id = elim (lookup org_id s.usage) [ none ↦ [] | some us ↦ us ]

unfoldable pub add_usage : MemoryStore → UsageRecord → Result MemoryStore
unfolding usage_of
add_usage s u = ok (record s { usage = insert u.org_id (usage_of s u.org_id ++ (u ∷ [])) s.usage })

-- One record for each id: `false` says that the id was there already.
unfoldable pub add_usage_if_absent : MemoryStore → UsageRecord → Result (Bool × MemoryStore)
unfolding usage_of
add_usage_if_absent s u =
    if any (λ r. str_eq r.id u.id) (usage_of s u.org_id)
    then ok (false, s)
    else ok (true, record s { usage = insert u.org_id (usage_of s u.org_id ++ (u ∷ [])) s.usage })

abbrev pub text_lt : String → String → Bool
text_lt a b = elim (compare_text a b) [ Ordering.lt ↦ true | _ ↦ false ]

-- The order of `sortUsageNewestFirst`.
unfoldable pub newer : UsageRecord → UsageRecord → Bool
newer a b = if a.at == b.at then text_lt b.id a.id else ltb b.at a.at

unfoldable pub list_usage_by_org : MemoryStore → String → Page → Result (List UsageRecord)
unfolding usage_of newer
list_usage_by_org s org_id p = page_of (sort_by newer (usage_of s org_id)) p

unfoldable pub list_usage_by_org_since :
    MemoryStore → String → Time → Page → Result (List UsageRecord)
unfolding usage_of newer
list_usage_by_org_since s org_id since p =
    page_of (sort_by newer (select (λ r. not (ltb r.at since)) (usage_of s org_id))) p

unfoldable pub event_processed : MemoryStore → String → Result Bool
event_processed s event_id = ok (contains event_id s.processed_evts)

unfoldable pub mark_event_processed : MemoryStore → String → Result (Bool × MemoryStore)
mark_event_processed s event_id =
    if contains event_id s.processed_evts
    then ok (false, s)
    else ok (true, record s { processed_evts = insert event_id tt s.processed_evts })

unfoldable pub get_meter_state : MemoryStore → Result MeterState
get_meter_state s = or_error not_found s.meter_state

unfoldable pub set_meter_state : MemoryStore → MeterState → Result MemoryStore
set_meter_state s st = ok (record s { meter_state = some st })

unfoldable pub get_usage_report_state : MemoryStore → String → Result UsageReportState
get_usage_report_state s org_id = or_error not_found (lookup org_id s.report_state)

unfoldable pub set_usage_report_state : MemoryStore → UsageReportState → Result MemoryStore
set_usage_report_state s st = ok (record s { report_state = insert st.org_id st s.report_state })
