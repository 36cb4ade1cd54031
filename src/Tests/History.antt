-- ===== src/Tests/History.antt =====
-- The theorem on the invoices of past periods at one org.
use viro_coolify.Base.{true, ◌≤◌, List, [], Result, ok, err, ◌≡◌, refl, length}
use viro_coolify.Base.Int.{pos, ◌-64◌, ◌/ℤ◌, ◌*64◌}
use viro_coolify.Base.Table.{lookup, select, values, find}
use viro_coolify.Base.Sort.{sort_by, insert_sorted}
use viro_coolify.Store.Session.{calm, read, may_fail}
use viro_coolify.Store.Billing.{get_subscription, list_usage_by_org_since, usage_of, newer}
use viro_coolify.Store.Page.{page_of}
use viro_coolify.Store.Catalog.{get_plan, list_pricing_components}
use viro_coolify.Billing.Invoice.{invoice_from_records, usage_so_far_cents, sum_micro_cents}
use viro_coolify.Billing.Account.{plan_by_id, subscribed_plan}
use viro_coolify.Billing.Pricing.{pricing_components, pricing_currency}
use viro_coolify.Billing.History.{
  PeriodInvoice, periods_for, current_period_end, history, invoice_history,
}
use viro_coolify.Billing.History.Chain.{Chained, asked, subscription_of, invoice_history-Chained}
use viro_coolify.Tests.Data.{thirty_days_before, billed}

abbrev rows_of : Result (List PeriodInvoice) → List PeriodInvoice
rows_of (ok pis) = pis
rows_of (err e) = []

abbrev rows : List PeriodInvoice
rows =
    rows_of (invoice_history thirty_days_before 8000000000000000 "acme" (pos 2) (calm billed [])).0

listed :
    (invoice_history thirty_days_before 8000000000000000 "acme" (pos 2) (calm billed [])).0
    ≡ ok rows
unfolding invoice_history subscribed_plan plan_by_id get_subscription get_plan pricing_currency
    pricing_components list_pricing_components history periods_for current_period_end
    list_usage_by_org_since usage_of page_of newer read may_fail lookup select values find sort_by
    insert_sorted invoice_from_records usage_so_far_cents sum_micro_cents ◌-64◌ ◌/ℤ◌ ◌*64◌
listed = refl

invoice_history-Chained_example :
    Chained thirty_days_before true
      (current_period_end 8000000000000000 (subscription_of (get_subscription billed "acme")))
      rows
    × (length rows ≤ asked (pos 2))
    × (asked (pos 2) ≤ 24)
invoice_history-Chained_example =
    invoice_history-Chained thirty_days_before 8000000000000000 "acme" (pos 2) (calm billed []) rows
      listed
