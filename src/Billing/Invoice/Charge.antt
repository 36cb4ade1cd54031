-- ===== src/Billing/Invoice/Charge.antt =====
-- invoiceFromRecords against the pricing rule: the base fee and the usage beyond the allowance.
use viro_coolify.Base.{ℕ, ◌+◌, ◌-◌, ◌*◌, ◌/◌, ◌<◌, ◌≡◌, List, some, arith, if◌then◌else◌}
use viro_coolify.Base.Int.{pos, int64_half, ltb_ℤ, ◌*64◌, ◌-64◌, +64_pos}
use viro_coolify.Domain.Billing.{Plan, UsageRecord}
use viro_coolify.Billing.Invoice.{allowance_cents, invoice_from_records}
use viro_coolify.Billing.Invoice.Cost.{cost, IsMetered, usage_so_far_cents_lem}

-- A plan whose numbers are not negative and whose allowance fits an int64: the base fee, the
-- included hours and the price of an hour.
pub record IsPriced (plan : Plan) (base hours rate : ℕ) : Type 0 where
  pub fee : plan.price_cents ≡ pos base
  pub included : plan.included_hours ≡ pos hours
  pub overage : plan.overage_per_hour_cents ≡ pos rate
  pub fits : hours * rate < int64_half

module _ (plan : Plan) (base hours rate : ℕ) (p : IsPriced plan base hours rate) where
  pub allowance_cents_lem : allowance_cents plan ≡ pos (hours * rate)
  unfolding ◌*64◌
  allowance_cents_lem = rw (p.included, p.overage) (ground (arith, p.fits))

overage_of :
    (u a : ℕ)
    → u < int64_half
    → a < int64_half
    → (if ltb_ℤ (pos 0) (pos u -64 pos a) then pos u -64 pos a else pos 0) ≡ pos (u - a)
unfolding ◌-64◌
overage_of u a h k = ground arith

module _ (plan : Plan) (base hours rate : ℕ) (rs : List UsageRecord)
    (p : IsPriced plan base hours rate) (m : IsMetered rs) (h : base + cost rs < int64_half) where
  -- The four amounts of an invoice: the plan's fee, the usage beyond the included hours (and never
  -- less than zero), the whole usage in cents rounded down, and fee and overage together. The plan's
  -- numbers and the quantities are not negative, and the sums fit an int64.
  pub invoice_from_records_lem : invoice_from_records (some plan) rs ≡ record {
    base_cents = pos base;
    overage_cents = pos (cost rs / 1000 - hours * rate);
    usage_so_far_cents = pos (cost rs / 1000);
    charge_cents = pos (base + (cost rs / 1000 - hours * rate));
  }
  unfolding invoice_from_records
  invoice_from_records_lem = rw (
    usage_so_far_cents_lem rs m (omega arith),
    allowance_cents_lem plan base hours rate p,
    p.fee,
    overage_of (cost rs / 1000) (hours * rate) (omega arith) p.fits,
    +64_pos base (cost rs / 1000 - hours * rate) (omega arith),
  )
