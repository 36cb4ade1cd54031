-- ===== src/Tests/Billing.antt =====
-- The billing theorems at one org's period.
use Prim.Native.Nat.{◌*◌}
use viro_coolify.Base.{true, false, [], ◌∷◌, some, ok, ◌≡◌, ◌≢◌, refl, ◌≤◌, ◌⊎◌, ◌<◌, arith}
use viro_coolify.Base.Int.{pos, leb_ℤ, ◌-64◌, ◌+64◌, ◌/ℤ◌, ◌+ℤ◌}
use viro_coolify.Base.Table.{lookup, select}
use viro_coolify.Base.Sort.{sort_by, insert_sorted}
use viro_coolify.Domain.Billing.{SubscriptionStatus}
use viro_coolify.Store.Session.{calm, read}
use viro_coolify.Store.Billing.{newer, usage_of, get_subscription}
use viro_coolify.Billing.Invoice.{
  is_cost_metric, sum_micro_cents, usage_so_far_cents, usage_by_dimension_cents, at_key,
  invoice_from_records, line_items, meter_metric,
}
use viro_coolify.Billing.Invoice.Cost.{IsMetered}
use viro_coolify.Billing.Invoice.Dimensions.{usage_by_dimension_cents_lem}
use viro_coolify.Billing.Invoice.Charge.{IsPriced, invoice_from_records_lem}
use viro_coolify.Billing.Invoice.Rows.{sum_amounts, rounding, sum_amounts-line_items}
use viro_coolify.Billing.Account.{period_start, ensure_active, ensure_under_cap}
use viro_coolify.Billing.Dunning.{dunning_status, standing, advance_dunning, clear_dunning}
use viro_coolify.Billing.Dunning.Gate.{ensure_active-dunning_status}
use viro_coolify.Billing.Dunning.Transitions.{
  severity, with_status, advance_dunning_forward, clear_dunning-advance_dunning,
}
use viro_coolify.Billing.Report.{report_usage}
use viro_coolify.Billing.Report.Step.{delta_of, increment_of}
use viro_coolify.Billing.Report.Delivery.{unsaved, report_usage_twice, report_usage_bills_twice}
use viro_coolify.Billing.Metering.{hour, truncate, hours_to_meter}
use viro_coolify.Billing.Metering.Hours.{hours_to_meter_lem}
use viro_coolify.Tests.Data.{text_ne, thirty_days_before, plan, sub, records, billed}

has_sub : lookup "acme" billed.subscriptions ≡ some sub
unfolding lookup
has_sub = refl

has_delta : leb_ℤ (delta_of thirty_days_before 8500000000000000 "acme" sub billed) (pos 0) ≡ false
unfolding lookup select sort_by insert_sorted usage_of period_start usage_so_far_cents
    sum_micro_cents is_cost_metric newer ◌-64◌ ◌+64◌ ◌/ℤ◌
has_delta = refl

report_usage_twice_example :
    let (r, w) = report_usage thirty_days_before 8500000000000000 true "acme" (calm billed []) in
    (r ≡ ok true)
    × (w.accepted ≡ increment_of thirty_days_before 8500000000000000 "acme" sub billed ∷ [])
    × (report_usage thirty_days_before 8600000000000000 true "acme" w ≡ (ok false, w))
report_usage_twice_example =
    report_usage_twice thirty_days_before 8500000000000000 "acme" sub billed has_sub
      (text_ne "si_1" "" refl) 8600000000000000 (omega arith) [] has_delta

report_usage_bills_twice_example :
    let w = (report_usage thirty_days_before 8500000000000000 true "acme" (unsaved billed [])).1 in
    (report_usage thirty_days_before 8600000000000000 true "acme" w).1.accepted
    ≡ record (increment_of thirty_days_before 8500000000000000 "acme" sub billed) {
      at = 8600000000000000;
    }
      ∷ increment_of thirty_days_before 8500000000000000 "acme" sub billed
      ∷ []
report_usage_bills_twice_example =
    report_usage_bills_twice thirty_days_before 8500000000000000 "acme" sub billed has_sub
      (text_ne "si_1" "" refl) 8600000000000000 (omega arith) [] has_delta

priced : IsPriced plan 2000 1 5
priced = record { fee = refl; included = refl; overage = refl; fits = omega arith }

metered : IsMetered records
metered = (refl, (refl, tt))

invoice_from_records_lem_example : invoice_from_records (some plan) records ≡ record {
  base_cents = pos 2000;
  overage_cents = pos 4;
  usage_so_far_cents = pos 9;
  charge_cents = pos 2004;
}
invoice_from_records_lem_example =
    invoice_from_records_lem plan 2000 1 5 records priced metered (omega arith)

sum_amounts-line_items_example :
    let inv = invoice_from_records (some plan) records in
    (sum_amounts (line_items (some plan) records inv) +ℤ pos (rounding records) ≡ inv.charge_cents)
    × (rounding records ≤ 2)
sum_amounts-line_items_example =
    sum_amounts-line_items plan 2000 1 5 records priced metered (omega arith)

-- So these rows are below the charge.
rounded : 0 < rounding records
unfolding rounding
rounded = omega arith

priced_metric : is_cost_metric meter_metric ≡ true
unfolding is_cost_metric
priced_metric = refl

usage_by_dimension_cents_lem_example :
    at_key meter_metric (usage_by_dimension_cents records) ≡ pos 7
usage_by_dimension_cents_lem_example =
    usage_by_dimension_cents_lem meter_metric records priced_metric metered (omega arith)

in_good_standing :
    (dunning_status "acme" (calm billed [])).0
    ≡ ok (record {
      state = SubscriptionStatus.active;
      past_due = false;
      blocked = false;
      grace_active = false;
    })
unfolding dunning_status standing read get_subscription lookup
in_good_standing = refl

ensure_active-dunning_status_example :
    (ensure_active thirty_days_before 8500000000000000 "acme" (calm billed [])).0
    ≡ (ensure_under_cap thirty_days_before 8500000000000000 "acme" (calm billed [])).0
ensure_active-dunning_status_example =
    ensure_active-dunning_status thirty_days_before 8500000000000000 "acme" billed [] _
      in_good_standing

advance_dunning_forward_example :
    let after = (advance_dunning "acme" false (calm billed [])).1.store in
    (after ≡ billed)
    ⊎ ((after ≡ with_status billed sub SubscriptionStatus.past_due)
        × (severity SubscriptionStatus.active < severity SubscriptionStatus.past_due))
advance_dunning_forward_example = advance_dunning_forward "acme" false (calm billed []) sub has_sub

not_canceled : SubscriptionStatus.active ≢ SubscriptionStatus.canceled
not_canceled h = ground arith

clear_dunning-advance_dunning_example :
    clear_dunning "acme" (advance_dunning "acme" true (calm billed [])).1
    ≡ (ok true, calm (with_status billed sub SubscriptionStatus.active) [])
clear_dunning-advance_dunning_example =
    clear_dunning-advance_dunning "acme" true billed [] sub has_sub refl not_canceled

metered_until : truncate 10800000000000 ≡ 3 * hour
unfolding truncate
metered_until = refl

hours_to_meter_lem_example :
    hours_to_meter (5 * hour) (
      calm
        (record billed { meter_state = some (record { last_metered_hour = 10800000000000 }) })
        [])
    ≡ (
      ok (14400000000000 ∷ 18000000000000 ∷ []),
      calm
          (record billed { meter_state = some (record { last_metered_hour = 10800000000000 }) })
          [],
    )
hours_to_meter_lem_example =
    hours_to_meter_lem
      (record billed { meter_state = some (record { last_metered_hour = 10800000000000 }) }) []
      (record { last_metered_hour = 10800000000000 }) 3 5 refl metered_until (omega arith)
      (omega arith)
