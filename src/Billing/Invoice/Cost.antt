-- ===== src/Billing/Invoice/Cost.antt =====
-- The metered cost of a list of usage records as a plain sum, and the code's sum against it.
use native.Mathlib.Nat.{zero-add}
use viro_coolify.Base.{
  Bool-cases, inl, inr, ◌∙◌, ℕ, ◌+◌, ◌/◌, ◌<◌, ◌≡◌, refl, String, ◌∷◌, [], List, arith, str_eq,
  if◌then◌else◌,
}
use viro_coolify.Base.Int.{ℤ, pos, negsuc, pos_part, neg_part, int64_half, +64_pos, ◌/ℤ◌}
use viro_coolify.Base.Table.{other_text}
use viro_coolify.Domain.Billing.{UsageRecord}
use viro_coolify.Billing.Invoice.{
  meter_metric, meter_metric_storage, meter_metric_egress, is_cost_metric, sum_micro_cents,
  usage_so_far_cents,
}

-- The micro-cents that the records of one metric hold.
abbrev pub cost_of : String → List UsageRecord → ℕ
cost_of m [] = 0
cost_of m (r ∷ rs) = (if str_eq r.metric m then pos_part r.quantity else 0) + cost_of m rs

-- The micro-cents of the three priced dimensions together.
abbrev pub cost : List UsageRecord → ℕ
cost rs = cost_of meter_metric rs + cost_of meter_metric_storage rs + cost_of meter_metric_egress rs

-- No record holds a negative quantity.
abbrev pub IsMetered : List UsageRecord → Type 0
IsMetered [] = Unit {0}
IsMetered (r ∷ rs) = (neg_part r.quantity ≡ 0) × IsMetered rs

pub pos-pos_part : (z : ℤ) → neg_part z ≡ 0 → z ≡ pos (pos_part z)
pos-pos_part (pos n) h = refl
pos-pos_part (negsuc n) h = absurd (omega arith)

cost-cons :
    (r : UsageRecord) (rs : List UsageRecord)
    → cost (r ∷ rs) ≡ (if is_cost_metric r.metric then pos_part r.quantity else 0) + cost rs
unfolding is_cost_metric
cost-cons r rs = ground (
  arith,
  other_text r.metric meter_metric meter_metric_storage refl,
  other_text r.metric meter_metric meter_metric_egress refl,
  other_text r.metric meter_metric_storage meter_metric_egress refl,
)

-- The code's sum, while it fits an int64.
sum_micro_cents_lem :
    (n : ℕ) (rs : List UsageRecord)
    → IsMetered rs
    → n + cost rs < int64_half
    → sum_micro_cents (pos n) rs ≡ pos (n + cost rs)
unfolding sum_micro_cents
sum_micro_cents_lem n [] m h = ground arith
sum_micro_cents_lem n (r ∷ rs) m h = elim (Bool-cases (is_cost_metric r.metric)) [
  | inl priced ↦
      rw
        (
          priced,
          pos-pos_part r.quantity m.0,
          +64_pos n (pos_part r.quantity) (ground (arith, cost-cons r rs)),
        )
        (sum_micro_cents_lem (n + pos_part r.quantity) rs m.1 (ground (arith, cost-cons r rs))
          ∙ ground (arith, cost-cons r rs))
  | inr other ↦ rw other (
      sum_micro_cents_lem n rs m.1 (ground (arith, cost-cons r rs))
      ∙ ground (arith, cost-cons r rs))
]

-- The usage so far, in cents, is the micro-cents of the three priced metrics together, rounded down:
-- where no record holds a negative quantity and the sum fits an int64.
pub usage_so_far_cents_lem :
    (rs : List UsageRecord)
    → IsMetered rs
    → cost rs < int64_half
    → usage_so_far_cents rs ≡ pos (cost rs / 1000)
unfolding usage_so_far_cents ◌/ℤ◌
usage_so_far_cents_lem rs m h = rw (sum_micro_cents_lem 0 rs m (omega arith), zero-add)
