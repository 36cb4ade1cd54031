-- ===== src/Billing/Invoice/Dimensions.antt =====
-- What usageByDimensionCents holds for each priced metric.
use native.Mathlib.Nat.{zero-add}
use viro_coolify.Base.{
  ℕ, ◌+◌, ◌/◌, ◌<◌, ◌≡◌, refl, ◌∙◌, String, true, false, ◌&&◌, List, [], ◌∷◌, inl, inr, arith,
  eq_iff, str_eq, Bool-cases, if◌then◌else◌,
}
use viro_coolify.Base.Int.{ℤ, pos, pos_part, neg_part, int64_half, ltb_ℤ, ◌+64◌, +64_pos, ◌/ℤ◌}
use viro_coolify.Base.Table.{Table, lookup, insert, contains, lookup-insert, contains-insert}
use viro_coolify.Domain.Billing.{UsageRecord}
use viro_coolify.Billing.Invoice.{
  is_cost_metric, at_key, add_micro, micro_by_metric, keep_positive, positive_cents,
  usage_by_dimension_cents,
}
use viro_coolify.Billing.Invoice.Cost.{cost_of, IsMetered, pos-pos_part}

at_key-insert :
    (k j : String) (v : ℤ) (m : Table ℤ)
    → at_key j (insert k v m) ≡ (if str_eq k j then v else at_key j m)
unfolding at_key
at_key-insert k j v m = rw (at_key, lookup-insert k j v m) (ground arith)

-- Each key stands once.
abbrev IsKeyed : Table ℤ → Type 0
IsKeyed [] = Unit {0}
IsKeyed ((k, v) ∷ m) = (contains k m ≡ false) × IsKeyed m

insert-IsKeyed : (k : String) (v : ℤ) (m : Table ℤ) → IsKeyed m → IsKeyed (insert k v m)
unfolding insert contains
insert-IsKeyed k v [] h = (refl, tt)
insert-IsKeyed k v ((j, w) ∷ m) h =
    ground (arith, eq_iff j k, eq_iff k j, contains-insert k j v m, insert-IsKeyed k v m h.1)

add_micro-IsKeyed :
    (micro : Table ℤ) (r : UsageRecord) → IsKeyed micro → IsKeyed (add_micro micro r)
unfolding add_micro
add_micro-IsKeyed micro r h = elim (Bool-cases (is_cost_metric r.metric)) [
  | inl e ↦ rw e (insert-IsKeyed _ _ micro h)
  | inr e ↦ rw e h
]

micro_by_metric-IsKeyed :
    (micro : Table ℤ) (rs : List UsageRecord) → IsKeyed micro → IsKeyed (micro_by_metric micro rs)
unfolding micro_by_metric
micro_by_metric-IsKeyed micro [] h = h
micro_by_metric-IsKeyed micro (r ∷ rs) h =
    micro_by_metric-IsKeyed (add_micro micro r) rs (add_micro-IsKeyed micro r h)

-- What one record adds to the running sum of a priced metric.
at_key-add_micro :
    (m : String) (n : ℕ) (micro : Table ℤ) (r : UsageRecord)
    → is_cost_metric m ≡ true
    → neg_part r.quantity ≡ 0
    → at_key m micro ≡ pos n
    → n + (if str_eq r.metric m then pos_part r.quantity else 0) < int64_half
    → at_key m (add_micro micro r)
      ≡ pos (n + (if str_eq r.metric m then pos_part r.quantity else 0))
unfolding add_micro
at_key-add_micro m n micro r p q e h = elim (Bool-cases (str_eq r.metric m)) [
  | inl same ↦ ground (
    arith,
    eq_iff r.metric m,
    pos-pos_part r.quantity q,
    +64_pos n (pos_part r.quantity),
    at_key-insert r.metric m (at_key r.metric micro +64 r.quantity) micro,
  )
  | inr differ ↦
      ground (arith, at_key-insert r.metric m (at_key r.metric micro +64 r.quantity) micro)
]

-- The running sum of a priced metric after all records.
micro_by_metric_lem :
    (m : String) (n : ℕ) (micro : Table ℤ) (rs : List UsageRecord)
    → is_cost_metric m ≡ true
    → IsMetered rs
    → at_key m micro ≡ pos n
    → n + cost_of m rs < int64_half
    → at_key m (micro_by_metric micro rs) ≡ pos (n + cost_of m rs)
unfolding micro_by_metric
micro_by_metric_lem m n micro [] p mt e h = ground arith
micro_by_metric_lem m n micro (r ∷ rs) p mt e h = elim (Bool-cases (str_eq r.metric m)) [
  | inl same ↦
      micro_by_metric_lem m (n + pos_part r.quantity) (add_micro micro r) rs p mt.1
        (ground (arith, at_key-add_micro m n micro r p mt.0 e)) (ground arith)
      ∙ ground arith
  | inr differ ↦
      micro_by_metric_lem m n (add_micro micro r) rs p mt.1
        (ground (arith, at_key-add_micro m n micro r p mt.0 e)) (ground arith)
      ∙ ground arith
]

at_key-keep_positive :
    (m k : String) (c : ℤ) (out : Table ℤ)
    → at_key m (keep_positive out k c) ≡ (if ltb_ℤ (pos 0) c && str_eq k m then c else at_key m out)
unfolding keep_positive
at_key-keep_positive m k c out = ground (arith, at_key-insert k m c out)

-- A key that the running sums lack keeps what it had.
positive_cents_absent :
    (m : String) (out micro : Table ℤ)
    → contains m micro ≡ false
    → at_key m (positive_cents out micro) ≡ at_key m out
unfolding positive_cents contains
positive_cents_absent m out [] h = refl
positive_cents_absent m out ((k, v) ∷ micro) h =
    positive_cents_absent m (keep_positive out k (v /ℤ 1000)) micro (ground arith)
    ∙ ground (arith, at_key-keep_positive m k (v /ℤ 1000) out)

positive_cents_lem :
    (m : String) (n : ℕ) (out micro : Table ℤ)
    → IsKeyed micro
    → at_key m out ≡ pos 0
    → at_key m micro ≡ pos n
    → at_key m (positive_cents out micro) ≡ pos (n / 1000)
unfolding positive_cents at_key lookup ◌/ℤ◌
positive_cents_lem m n out [] k o e = ground arith
positive_cents_lem m n out ((j, v) ∷ micro) k o e = elim (Bool-cases (str_eq j m)) [
  | inl same ↦
      positive_cents_absent m (keep_positive out j (v /ℤ 1000)) micro
        (ground (arith, eq_iff j m, k.0))
      ∙ ground (arith, at_key-keep_positive m j (v /ℤ 1000) out)
  | inr differ ↦
      positive_cents_lem m n (keep_positive out j (v /ℤ 1000)) micro k.1
        (ground (arith, at_key-keep_positive m j (v /ℤ 1000) out)) (ground arith)
]

-- The cents of a priced metric are the micro-cents of its records, rounded down, and zero where the
-- map lacks it: where no record holds a negative quantity and the metric's sum fits an int64.
pub usage_by_dimension_cents_lem :
    (m : String) (rs : List UsageRecord)
    → is_cost_metric m ≡ true
    → IsMetered rs
    → cost_of m rs < int64_half
    → at_key m (usage_by_dimension_cents rs) ≡ pos (cost_of m rs / 1000)
unfolding usage_by_dimension_cents
usage_by_dimension_cents_lem m rs p mt h =
    positive_cents_lem m (cost_of m rs) [] (micro_by_metric [] rs)
      (micro_by_metric-IsKeyed [] rs tt) (unfold at_key lookup in refl)
      (micro_by_metric_lem m 0 [] rs p mt (unfold at_key lookup in refl) (omega arith)
        ∙ rw zero-add)
