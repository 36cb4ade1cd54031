-- ===== src/Billing/Invoice.antt =====
-- internal/billing/invoice.go, invoices.go and pricing.go: the charge of one period, and its rows.
pub mod Cost
pub mod Dimensions
pub mod Charge
pub mod Rows
use Prim.Native.String.{◌++◌ as join}
use viro_coolify.Base.{
  String, Bool, true, false, ◌&&◌, not, List, [], ◌∷◌, ◌++◌, Option, none, some, str_eq,
  if◌then◌else◌,
}
use viro_coolify.Base.Int.{ℤ, pos, ltb_ℤ, eqb_ℤ, ◌+64◌, ◌-64◌, ◌*64◌, ◌/ℤ◌}
use viro_coolify.Base.Table.{Table, lookup, insert, contains}
use viro_coolify.Domain.Billing.{Plan, UsageRecord}

abbrev pub meter_metric : String
meter_metric = "compute_cost_microcents"

abbrev pub meter_metric_storage : String
meter_metric_storage = "storage_cost_microcents"

abbrev pub meter_metric_egress : String
meter_metric_egress = "egress_cost_microcents"

abbrev pub cost_metrics : List String
cost_metrics = meter_metric ∷ meter_metric_storage ∷ meter_metric_egress ∷ []

abbrev mem_text : String → List String → Bool
mem_text k [] = false
mem_text k (j ∷ js) = if str_eq k j then true else mem_text k js

-- `isCostMetric`
unfoldable pub is_cost_metric : String → Bool
is_cost_metric metric = mem_text metric cost_metrics

-- The sum of `usageSoFarCents`, in micro-cents; an int64 wraps around.
unfoldable pub sum_micro_cents : ℤ → List UsageRecord → ℤ
sum_micro_cents micro_cents [] = micro_cents
sum_micro_cents micro_cents (r ∷ rs) =
    sum_micro_cents (if is_cost_metric r.metric then micro_cents +64 r.quantity else micro_cents) rs

-- `usageSoFarCents`
unfoldable pub usage_so_far_cents : List UsageRecord → ℤ
usage_so_far_cents records = sum_micro_cents (pos 0) records /ℤ 1000

-- A key that a Go map lacks reads as zero.
unfoldable pub at_key : String → Table ℤ → ℤ
at_key k m = elim (lookup k m) [ none ↦ pos 0 | some v ↦ v ]

unfoldable pub add_micro : Table ℤ → UsageRecord → Table ℤ
add_micro micro r =
    if is_cost_metric r.metric
    then insert r.metric (at_key r.metric micro +64 r.quantity) micro
    else micro

unfoldable pub micro_by_metric : Table ℤ → List UsageRecord → Table ℤ
micro_by_metric micro [] = micro
micro_by_metric micro (r ∷ rs) = micro_by_metric (add_micro micro r) rs

unfoldable pub keep_positive : Table ℤ → String → ℤ → Table ℤ
keep_positive out metric cents = if ltb_ℤ (pos 0) cents then insert metric cents out else out

unfoldable pub positive_cents : Table ℤ → Table ℤ → Table ℤ
positive_cents out [] = out
positive_cents out ((metric, mc) ∷ micro) =
    positive_cents (keep_positive out metric (mc /ℤ 1000)) micro

-- `usageByDimensionCents`
unfoldable pub usage_by_dimension_cents : List UsageRecord → Table ℤ
usage_by_dimension_cents records = positive_cents [] (micro_by_metric [] records)

pub record Invoice : Type 0 where
  pub base_cents : ℤ
  pub overage_cents : ℤ
  pub usage_so_far_cents : ℤ
  pub charge_cents : ℤ

-- The usage that the plan includes, in cents.
abbrev pub allowance_cents : Plan → ℤ
allowance_cents plan = plan.included_hours *64 plan.overage_per_hour_cents

abbrev price : Plan → ℤ → Invoice
price plan usage =
    let over = usage -64 allowance_cents plan in
    let overage = if ltb_ℤ (pos 0) over then over else pos 0 in
    record {
      base_cents = plan.price_cents;
      overage_cents = overage;
      usage_so_far_cents = usage;
      charge_cents = plan.price_cents +64 overage;
    }

-- `Service.invoiceFromRecords`
unfoldable pub invoice_from_records : Option Plan → List UsageRecord → Invoice
invoice_from_records none records = record {
  base_cents = pos 0;
  overage_cents = pos 0;
  usage_so_far_cents = usage_so_far_cents records;
  charge_cents = pos 0;
}
invoice_from_records (some plan) records = price plan (usage_so_far_cents records)

pub record InvoiceLineItem : Type 0 where
  pub key : String
  pub label : String
  pub amount_cents : ℤ

-- `planLabel`
unfoldable pub plan_label : Option Plan → String
plan_label none = "Plan base"
plan_label (some plan) = if not (str_eq plan.name "") then join plan.name " plan" else "Plan base"

-- `dimensionLabel`
unfoldable pub dimension_label : String → String
dimension_label metric =
    if str_eq metric meter_metric
    then "Compute (vCPU + memory)"
    else if str_eq metric meter_metric_storage
    then "Storage"
    else if str_eq metric meter_metric_egress
    then "Network egress"
    else metric

-- `minInt64`
unfoldable pub min_int64 : ℤ → ℤ → ℤ
min_int64 a b = if ltb_ℤ a b then a else b

unfoldable pub base_row : Option Plan → Invoice → List InvoiceLineItem
base_row plan inv =
    if eqb_ℤ inv.base_cents (pos 0)
    then []
    else record { key = "base"; label = plan_label plan; amount_cents = inv.base_cents } ∷ []

unfoldable pub dimension_rows : Table ℤ → List String → List InvoiceLineItem
dimension_rows by_dim [] = []
dimension_rows by_dim (m ∷ ms) =
    if ltb_ℤ (pos 0) (at_key m by_dim)
    then record { key = m; label = dimension_label m; amount_cents = at_key m by_dim }
      ∷ dimension_rows by_dim ms
    else dimension_rows by_dim ms

unfoldable pub credit_row : Option Plan → Invoice → List InvoiceLineItem
unfolding min_int64
credit_row none inv = []
credit_row (some plan) inv =
    let credit = min_int64 (allowance_cents plan) inv.usage_so_far_cents in
    if ltb_ℤ (pos 0) credit
    then record {
      key = "included_allowance";
      label = "Included usage allowance";
      amount_cents = pos 0 -64 credit;
    }
      ∷ []
    else []

-- `lineItems`
unfoldable pub line_items : Option Plan → List UsageRecord → Invoice → List InvoiceLineItem
line_items plan records inv =
    base_row plan inv
    ++ (dimension_rows (usage_by_dimension_cents records) cost_metrics ++ credit_row plan inv)
