-- ===== src/Billing/Metering/Tick/CatchUp.antt =====
-- internal/billing/pricing.go: a meter that is behind catches up, tick by tick.
use Prim.Native.Nat.{min}
use viro_coolify.Base.{
  ℕ, zero, suc, ◌+◌, ◌-◌, ◌*◌, ◌≤◌, ◌<◌, String, true, false, List, [], ◌==◌, ltb, ltb→lt, Option,
  none, some, Error, ok, ◌≡◌, refl, ◌∙◌, sym, ap, inl, inr, Bool-cases, arith,
}
use viro_coolify.Base.Table.{values}
use viro_coolify.Domain.Scalar.{Time}
use viro_coolify.Domain.Billing.{MeterState}
use viro_coolify.Store.State.{MemoryStore}
use viro_coolify.Store.Session.{Increment, calm, read, write, may_fail}
use viro_coolify.Store.Billing.{set_meter_state, get_meter_state}
use viro_coolify.Store.Tenants.{list_all_orgs}
use viro_coolify.Billing.Pricing.{Floats}
use viro_coolify.Billing.Metering.{hour, truncate, hours_to_meter, hours_after, persist_and_return}
use viro_coolify.Billing.Metering.Hours.{row, hours_to_meter_lem}
use viro_coolify.Billing.Metering.Tick.{meter_hours, meter_usage}
use viro_coolify.Billing.Metering.Tick.Works.{last_of, meter_hours_lem}

module _ (fl : Floats) (format : Time → String) (cancel : Time → String → Option Error) where
  module _ (going : (h : Time) (id : String) → cancel h id ≡ none) where
    last_of-row : (n a d : ℕ) → last_of d (row (suc n) a) ≡ (n + a) * hour
    last_of-row zero a d = omega arith
    last_of-row (suc n) a d = last_of-row n (suc a) (a * hour) ∙ ap (λ x. x * hour) (omega arith)

    last_due : (k a : ℕ) → 0 < k → last_of 0 (row k (suc a)) ≡ (a + k) * hour
    last_due zero a h = omega (arith, h)
    last_due (suc n) a h = last_of-row n (suc a) 0 ∙ ap (λ x. x * hour) (omega arith)

    not_zero : (a k : ℕ) → 0 < a → ((a + k) * hour == 0) ≡ false
    not_zero a k h = ground arith

    pub meter_usage-watermark :
        (s : MemoryStore) (is : List Increment) (st : MeterState) (now a b : ℕ)
        → s.meter_state ≡ some st
        → truncate st.last_metered_hour ≡ a * hour
        → 0 < a
        → a < b
        → truncate now ≡ b * hour
        → let (r, w) = meter_usage fl format cancel now (calm s is) in
          ((n : ℕ) × (r ≡ ok (n, none)))
          × (w.store.meter_state
              ≡ some (record { last_metered_hour = (a + min 48 (b - a)) * hour }))
    unfolding meter_usage persist_and_return read write may_fail set_meter_state list_all_orgs
    meter_usage-watermark s is st now a b h last started behind this =
        let hours = hours_to_meter_lem s is st a b h last started behind in
        let (m, t, e, q) =
          meter_hours_lem fl format cancel going (values s.organizations)
            (row (min 48 (b - a)) (suc a)) 0 0 s is in
        let due = last_due (min 48 (b - a)) a (omega (arith, behind)) in
        rw (meter_usage, this, hours, e, due, not_zero a (min 48 (b - a)) started) ((m, refl), refl)

    same_hour : (a : ℕ) → (a * hour == a * hour) ≡ true
    same_hour a = ground arith

    due_now : (a : ℕ) → ltb (a * hour) (a * hour) ≡ false
    due_now a = ground arith

    none_due : (a : ℕ) → 0 < a → hours_after (a * hour) (a * hour) ≡ []
    unfolding hours_after
    none_due a started = elim (Bool-cases (a * hour == 0)) [
      | inl e ↦ rw (hours_after, e, same_hour a) refl
      | inr e ↦ rw (hours_after, e, due_now a, same_hour a) refl
    ]

    -- A tick that finds the meter up to date does nothing to the watermark.
    idle :
        (s : MemoryStore) (is : List Increment) (st : MeterState) (now a : ℕ)
        → s.meter_state ≡ some st
        → truncate st.last_metered_hour ≡ a * hour
        → 0 < a
        → truncate now ≡ a * hour
        → (meter_usage fl format cancel now (calm s is)).1.store.meter_state ≡ some st
    unfolding meter_usage persist_and_return read may_fail list_all_orgs hours_to_meter
        get_meter_state meter_hours
    idle s is st now a h last started this =
        rw (meter_usage, this, hours_to_meter, h, last, none_due a started) refl

    truncate-hour : (a : ℕ) → truncate (a * hour) ≡ a * hour
    unfolding truncate
    truncate-hour a = omega arith

    -- The store after so many ticks in the same hour
    abbrev pub after_ticks : ℕ → Time → List Increment → MemoryStore → MemoryStore
    after_ticks zero now is s = s
    after_ticks (suc n) now is s =
        after_ticks n now is (meter_usage fl format cancel now (calm s is)).1.store

    -- Where the meter is behind by no more than 48 hours for each tick that is left, the last
    -- metered hour is not the zero time, no call fails and the context goes on, so many ticks
    -- in the same hour bring its watermark to that hour.
    pub after_ticks-watermark :
        (n : ℕ) (s : MemoryStore) (is : List Increment) (now a b : ℕ)
        → s.meter_state ≡ some (record { last_metered_hour = a * hour })
        → 0 < a
        → a ≤ b
        → b ≤ a + 48 * n
        → truncate now ≡ b * hour
        → (after_ticks n now is s).meter_state ≡ some (record { last_metered_hour = b * hour })
    after_ticks-watermark zero s is now a b h started l u this =
        h ∙ ap (λ x. some (record { last_metered_hour = x * hour })) (omega (arith, l, u))
    after_ticks-watermark (suc n) s is now a b h started l u this = elim (Bool-cases (ltb a b)) [
      | inl e ↦
          after_ticks-watermark n _ is now (a + min 48 (b - a)) b
            (meter_usage-watermark s is _ now a b h (truncate-hour a) started (ltb→lt a b e) this).1
            (omega (arith, started)) (omega (arith, l)) (omega (arith, u)) this
      | inr e ↦
          let same : a ≡ b = ground (arith, l, e) in
          after_ticks-watermark n _ is now a b
            (idle s is _ now a h (truncate-hour a) started (this ∙ ap (λ x. x * hour) (sym same)))
            started l (omega (arith, same)) this
    ]
