-- ===== src/Billing/Invoice/Rows.antt =====
-- The rows of lineItems against the charge: they add up to it but for the rounding of each row.
use viro_coolify.Base.{
  ℕ, ◌+◌, ◌-◌, ◌*◌, ◌/◌, ◌≤◌, ◌<◌, ◌≡◌, refl, ap, List, [], ◌∷◌, ◌++◌, some, arith,
}
use viro_coolify.Base.Int.{ℤ, pos, pos_part, neg_part, int64_half, ◌+ℤ◌, ◌-64◌, int_laws}
use viro_coolify.Domain.Billing.{Plan, UsageRecord}
use viro_coolify.Billing.Invoice.{
  meter_metric, meter_metric_storage, meter_metric_egress, is_cost_metric, Invoice, InvoiceLineItem,
  allowance_cents, base_row, dimension_rows, credit_row, cost_metrics, line_items,
  invoice_from_records, usage_by_dimension_cents,
}
use viro_coolify.Billing.Invoice.Cost.{cost, cost_of, IsMetered}
use viro_coolify.Billing.Invoice.Dimensions.{usage_by_dimension_cents_lem}
use viro_coolify.Billing.Invoice.Charge.{IsPriced, allowance_cents_lem, invoice_from_records_lem}

-- What a reader of the invoice adds up.
pub sum_amounts : List InvoiceLineItem → ℤ
sum_amounts [] = pos 0
sum_amounts (i ∷ is) = i.amount_cents +ℤ sum_amounts is

sum_amounts-append :
    (xs ys : List InvoiceLineItem) → sum_amounts (xs ++ ys) ≡ sum_amounts xs +ℤ sum_amounts ys
unfolding sum_amounts
sum_amounts-append [] ys = omega int_laws
sum_amounts-append (x ∷ xs) ys = rw (sum_amounts-append xs ys) (omega int_laws)

-- The cents that are lost where each dimension is rounded down by itself.
unfoldable pub rounding : List UsageRecord → ℕ
rounding rs =
    cost rs / 1000
    - (cost_of meter_metric rs / 1000
        + cost_of meter_metric_storage rs / 1000
        + cost_of meter_metric_egress rs / 1000)

rounding-le : (rs : List UsageRecord) → rounding rs ≤ 2
unfolding rounding
rounding-le rs = omega arith

rounding-le-usage : (rs : List UsageRecord) → rounding rs ≤ cost rs / 1000
unfolding rounding
rounding-le-usage rs = omega arith

sum_amounts-base_row :
    (plan : Plan) (base usage over charge : ℕ)
    → sum_amounts (
        base_row (some plan) (record {
          base_cents = pos base;
          overage_cents = pos over;
          usage_so_far_cents = pos usage;
          charge_cents = pos charge;
        }))
      ≡ pos base
unfolding sum_amounts base_row ◌+ℤ◌
sum_amounts-base_row plan base usage over charge = ground arith

sum_amounts-dimension_rows :
    (rs : List UsageRecord)
    → IsMetered rs
    → cost rs < int64_half
    → sum_amounts (dimension_rows (usage_by_dimension_cents rs) cost_metrics)
      ≡ pos (cost rs / 1000 - rounding rs)
unfolding sum_amounts dimension_rows rounding ◌+ℤ◌
sum_amounts-dimension_rows rs m h =
    rw
      (
        usage_by_dimension_cents_lem meter_metric rs (unfold is_cost_metric in refl) m
            (omega arith),
        usage_by_dimension_cents_lem meter_metric_storage rs (unfold is_cost_metric in refl) m
            (omega arith),
        usage_by_dimension_cents_lem meter_metric_egress rs (unfold is_cost_metric in refl) m
            (omega arith),
      )
      (ground arith)

sum_amounts-credit_row :
    (plan : Plan) (base allowance usage over charge : ℕ)
    → allowance_cents plan ≡ pos allowance
    → usage < int64_half
    → allowance < int64_half
    → sum_amounts (
          credit_row (some plan) (record {
            base_cents = pos base;
            overage_cents = pos over;
            usage_so_far_cents = pos usage;
            charge_cents = pos charge;
          }))
        +ℤ pos usage
      ≡ pos (usage - allowance)
unfolding sum_amounts credit_row ◌+ℤ◌ ◌-64◌
sum_amounts-credit_row plan base allowance usage over charge e h k = rw e (ground arith)

settle :
    (base lost usage allowance : ℕ) (credit : ℤ)
    → lost ≤ usage
    → credit +ℤ pos usage ≡ pos (usage - allowance)
    → pos base +ℤ (pos (usage - lost) +ℤ credit) +ℤ pos lost ≡ pos (base + (usage - allowance))
settle base lost usage allowance credit h e = omega (int_laws, ap pos_part e, ap neg_part e)

module _ (plan : Plan) (base hours rate : ℕ) (rs : List UsageRecord)
    (p : IsPriced plan base hours rate) (m : IsMetered rs) (h : base + cost rs < int64_half) where
  -- The rows of an invoice and at most two cents of rounding make its charge. The plan's numbers
  -- and the quantities are not negative, and the sums fit an int64.
  pub sum_amounts-line_items :
      let inv = invoice_from_records (some plan) rs in
      (sum_amounts (line_items (some plan) rs inv) +ℤ pos (rounding rs) ≡ inv.charge_cents)
      × (rounding rs ≤ 2)
  unfolding line_items
  sum_amounts-line_items =
      (rw (invoice_from_records_lem plan base hours rate rs p m h) total, rounding-le rs)
    where
      usage : ℕ
      usage = cost rs / 1000

      over : ℕ
      over = usage - hours * rate

      inv : Invoice
      inv = record {
        base_cents = pos base;
        overage_cents = pos over;
        usage_so_far_cents = pos usage;
        charge_cents = pos (base + over);
      }

      total :
          sum_amounts (
              base_row (some plan) inv
              ++ (dimension_rows (usage_by_dimension_cents rs) cost_metrics
                  ++ credit_row (some plan) inv))
            +ℤ pos (rounding rs)
          ≡ pos (base + over)
      total =
          rw
            (
              sum_amounts-append (base_row (some plan) inv),
              sum_amounts-append (dimension_rows (usage_by_dimension_cents rs) cost_metrics),
              sum_amounts-base_row plan base usage over (base + over),
              sum_amounts-dimension_rows rs m (omega arith),
            )
            (settle base (rounding rs) usage (hours * rate) _ (rounding-le-usage rs) (
              sum_amounts-credit_row plan base (hours * rate) usage over (base + over)
                (allowance_cents_lem plan base hours rate p) (omega arith) p.fits))
