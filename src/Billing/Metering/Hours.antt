-- ===== src/Billing/Metering/Hours.antt =====
-- Which hours a tick of the meter makes up for.
use Prim.Native.Nat.{min}
use viro_coolify.Base.{
  ℕ, zero, suc, ◌+◌, ◌-◌, ◌*◌, ◌<◌, ◌≤◌, true, false, List, [], ◌∷◌, some, ok, ◌≡◌, ltb, ◌==◌,
  arith, ltb→lt, Bool-cases, inl, inr, ap,
}
use viro_coolify.Domain.Scalar.{Time}
use viro_coolify.Domain.Billing.{MeterState}
use viro_coolify.Store.State.{MemoryStore}
use viro_coolify.Store.Session.{Increment, calm, read}
use viro_coolify.Store.Billing.{get_meter_state}
use viro_coolify.Billing.Metering.{hour, truncate, hours_from, hours_after, hours_to_meter}

-- So many whole hours in a row, from one on.
abbrev pub row : ℕ → ℕ → List Time
row zero a = []
row (suc n) a = a * hour ∷ row n (suc a)

next_hour : (a : ℕ) → a * hour + hour ≡ suc a * hour
next_hour a = omega arith

row_length : (a n m : ℕ) → n ≡ m → row n a ≡ row m a
row_length a n m e = ap (λ i. row i a) e

past_hour : (a b : ℕ) → b < a → ltb (b * hour) (a * hour) ≡ true
past_hour a b h = ground arith

due_hour : (a b : ℕ) → a ≤ b → ltb (b * hour) (a * hour) ≡ false
due_hour a b h = ground arith

hours_from_lem :
    (left a b : ℕ) → hours_from left (a * hour) (b * hour) ≡ row (min left (suc b - a)) a
unfolding hours_from
hours_from_lem zero a b = row_length a 0 (min 0 (suc b - a)) (omega arith)
hours_from_lem (suc left) a b = elim (Bool-cases (ltb b a)) [
  | inl e ↦
      rw (past_hour a b (ltb→lt b a e))
        (row_length a 0 (min (suc left) (suc b - a)) (ground (arith, e)))
  | inr e ↦
      rw (due_hour a b (ground (arith, e)), next_hour a, hours_from_lem left (suc a) b)
        (row_length a (suc (min left (suc b - suc a))) (min (suc left) (suc b - a))
          (ground (arith, e)))
]

module _ (s : MemoryStore) (is : List Increment) (st : MeterState) (a b : ℕ)
    (h : s.meter_state ≡ some st) (last : truncate st.last_metered_hour ≡ a * hour)
    (started : 0 < a) (behind : a < b) where
  -- A tick that finds the meter behind makes up for the hours right after the last metered one, in
  -- order and without a gap, up to the current hour, and for at most 48 of them: where no call fails,
  -- and the last metered hour is not the zero time.
  pub hours_to_meter_lem :
      hours_to_meter (b * hour) (calm s is) ≡ (ok (row (min 48 (b - a)) (suc a)), calm s is)
  unfolding hours_to_meter read get_meter_state hours_after
  hours_to_meter_lem =
      rw (h, last, not_first, before, next_hour a, hours_from_lem 48 (suc a) b, same)
    where
      same : suc b - suc a ≡ b - a
      same = omega arith

      not_first : (a * hour == 0) ≡ false
      not_first = ground arith

      before : ltb (a * hour) (b * hour) ≡ true
      before = ground arith
