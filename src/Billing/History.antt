-- ===== src/Billing/History.antt =====
-- internal/billing/invoices.go and service.go: the invoices of past periods, the summary of the current
-- one, and how an org subscribes. `now` is the clock's reading; `month_before` and `month_after` stand
-- for Go's t.AddDate(0, -1, 0) and t.AddDate(0, 1, 0).
pub mod Chain
use viro_coolify.Base.{
  ℕ, zero, suc, String, Bool, true, false, not, ◌&&◌, List, [], ◌∷◌, Option, none, some, Error,
  unknown_plan, Result, ok, err, str_eq, ltb, ◌==◌, if◌then◌else◌,
}
use viro_coolify.Base.Int.{ℤ, pos, pos_part, leb_ℤ, ltb_ℤ, eqb_ℤ, ◌+64◌}
use viro_coolify.Base.Table.{Table, lookup, insert, select}
use viro_coolify.Domain.Scalar.{Time}
use viro_coolify.Domain.Billing.{Plan, Subscription, SubscriptionStatus, UsageRecord}
use viro_coolify.Store.Audit.{sum_by_metric}
use viro_coolify.Store.Page.{all_rows}
use viro_coolify.Store.Session.{M, pure, throw, ◌>>=◌, ◌>>◌, read, write}
use viro_coolify.Store.Billing.{
  list_usage_by_org_since, upsert_subscription, add_usage, get_subscription,
}
use viro_coolify.Billing.Invoice.{Invoice, InvoiceLineItem, invoice_from_records, line_items}
use viro_coolify.Billing.Account.{plan_by_id, subscribed_plan, period_start}
use viro_coolify.Billing.Dunning.{Dunning, InvoiceStatus, invoice_status, dunning_status}
use viro_coolify.Billing.Pricing.{Floats, pricing_currency, org_monthly_estimate_cents}

pub record PeriodInvoice : Type 0 where
  pub period_start : Time
  pub period_end : Time
  pub status : InvoiceStatus
  pub currency : String
  pub base_cents : ℤ
  pub overage_cents : ℤ
  pub usage_so_far_cents : ℤ
  pub charge_cents : ℤ
  pub line_items : List InvoiceLineItem

abbrev pub max_invoice_periods : ℕ
max_invoice_periods = 24

-- The number of periods: a limit that is not positive is 12.
unfoldable pub periods_for : ℤ → ℕ
periods_for limit =
    let n = if leb_ℤ limit (pos 0) then 12 else pos_part limit in
    if ltb max_invoice_periods n then max_invoice_periods else n

-- `Service.periodEnd`
unfoldable pub current_period_end : Time → Option Subscription → Time
current_period_end now none = now
current_period_end now (some sub) =
    if sub.current_period_end == 0 then now else sub.current_period_end

module _ (month_before : Time → Time) where
  -- The invoice of the period that ends at a time
  unfoldable pub period_invoice :
      Option Subscription → Option Plan → String → Bool → Time → List UsageRecord → PeriodInvoice
  period_invoice sub plan currency current end records =
      let start = month_before end in
      let in_period = select (λ r. not (ltb r.at start) && ltb r.at end) records in
      let inv = invoice_from_records plan in_period in
      record {
        period_start = start;
        period_end = end;
        status = invoice_status sub current;
        currency = currency;
        base_cents = inv.base_cents;
        overage_cents = inv.overage_cents;
        usage_so_far_cents = inv.usage_so_far_cents;
        charge_cents = inv.charge_cents;
        line_items = line_items plan in_period inv;
      }

  -- A closed period without a charge and without usage is the last one.
  abbrev pub is_last : Bool → PeriodInvoice → Bool
  is_last current pi =
      not current && (eqb_ℤ pi.charge_cents (pos 0) && eqb_ℤ pi.usage_so_far_cents (pos 0))

  -- The loop of `InvoiceHistory`, with so many periods left
  unfoldable pub history :
      String → Option Subscription → Option Plan → String → ℕ → Bool → Time → M (List PeriodInvoice)
  unfolding period_invoice
  history org_id sub plan currency zero current end = pure []
  history org_id sub plan currency (suc left) current end =
      read (λ s. list_usage_by_org_since s org_id (month_before end) all_rows) >>= λ records.
      let pi = period_invoice sub plan currency current end records in
      if is_last current pi
      then pure (pi ∷ [])
      else (history org_id sub plan currency left false (month_before end) >>= λ rest.
          pure (pi ∷ rest))

  module _ (now : Time) where
    -- `Service.InvoiceHistory`
    unfoldable pub invoice_history : String → ℤ → M (List PeriodInvoice)
    unfolding history periods_for current_period_end
    invoice_history org_id limit = subscribed_plan org_id >>= λ p. pricing_currency >>= λ currency.
        history org_id p.0 p.1 currency (periods_for limit) true (current_period_end now p.0)

-- `Summary`
pub record Summary : Type 0 where
  pub subscription : Option Subscription
  pub plan : Option Plan
  pub usage : Table ℤ
  pub estimated_monthly_cents : ℤ
  pub invoice : Invoice
  pub period_start : Time
  pub currency : String
  pub dunning : Dunning

-- `Service.GetBilling`
unfoldable pub get_billing : Floats → (Time → Time) → Time → String → M Summary
get_billing fl month_before now org_id = subscribed_plan org_id >>= λ p.
    read (λ s. list_usage_by_org_since s org_id (period_start month_before now p.0) all_rows)
    >>= λ records. org_monthly_estimate_cents fl org_id >>= λ est. pricing_currency >>= λ cur.
        dunning_status org_id >>= λ dun. pure (record {
          subscription = p.0;
          plan = p.1;
          usage = sum_by_metric [] records;
          estimated_monthly_cents = est;
          invoice = invoice_from_records p.1 records;
          period_start = period_start month_before now p.0;
          currency = cur;
          dunning = dun;
        })

-- `ProviderSubscription`
pub record ProviderSubscription : Type 0 where
  pub id : String
  pub status : String
  pub checkout_url : String

-- Go's conversion of a text to a status
unfoldable pub status_of : String → SubscriptionStatus
status_of s =
    if str_eq s "active"
    then SubscriptionStatus.active
    else if str_eq s "trialing"
    then SubscriptionStatus.trialing
    else if str_eq s "incomplete"
    then SubscriptionStatus.incomplete
    else if str_eq s "past_due"
    then SubscriptionStatus.past_due
    else if str_eq s "unpaid"
    then SubscriptionStatus.unpaid
    else if str_eq s "canceled"
    then SubscriptionStatus.canceled
    else SubscriptionStatus.other s

-- The plan that `Subscribe` asks for
abbrev known_plan : Option Plan → M Plan
known_plan none = throw unknown_plan
known_plan (some p) = pure p

-- `Service.Subscribe`. The calls of the payment provider are parameters.
unfoldable pub subscribe :
    (String → String → M String)
    → (String → String → Plan → M ProviderSubscription)
    → (Time → Time)
    → Time
    → String
    → String
    → String
    → M (Subscription × String)
unfolding status_of
subscribe ensure_customer create_subscription month_after now org_id plan_id email =
    plan_by_id plan_id >>= λ found. known_plan found >>= λ plan.
    ensure_customer org_id email >>= λ customer_id.
    create_subscription org_id customer_id plan >>= λ ps.
    let sub : Subscription = record {
      org_id = org_id;
      plan_id = plan.id;
      status = status_of ps.status;
      stripe_customer_id = customer_id;
      stripe_subscription_id = ps.id;
      stripe_subscription_item_id = "";
      created_at = now;
      current_period_end = month_after now;
    } in
    write (λ s. upsert_subscription s sub) >> pure (sub, ps.checkout_url)

-- `Service.RecordUsage`, with the new id and the time as arguments
unfoldable pub record_usage : String → String → ℤ → String → Time → M (Unit {0})
record_usage org_id metric quantity id now = write (λ s.
    add_usage s
      (record { id = id; org_id = org_id; metric = metric; quantity = quantity; at = now }))

-- `Service.SetSubscriptionStatus`
unfoldable pub set_subscription_status : String → SubscriptionStatus → M (Unit {0})
set_subscription_status org_id status = read (λ s. get_subscription s org_id) >>= λ sub.
    write (λ s. upsert_subscription s (record sub { status = status }))
