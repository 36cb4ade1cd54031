-- ===== src/Billing/Report/Delivery.antt =====
-- What the provider is told over two calls of ReportUsage.
use viro_coolify.Base.{
  String, Bool, true, false, List, [], ◌∷◌, ok, err, transient, some, ◌≡◌, ◌≢◌, refl, ◌∙◌, ap,
  str_eq, arith, eq_iff,
}
use viro_coolify.Base.Int.{ℤ, pos, leb_ℤ, ◌-64◌}
use viro_coolify.Base.Table.{Table, lookup, insert-insert}
use viro_coolify.Domain.Scalar.{Time}
use viro_coolify.Domain.Billing.{Subscription, UsageReportState}
use viro_coolify.Store.State.{MemoryStore}
use viro_coolify.Store.Session.{World, Increment, calm, read, write}
use viro_coolify.Store.Billing.{get_subscription, get_usage_report_state, usage_of}
use viro_coolify.Billing.Account.{period_start}
use viro_coolify.Billing.Report.{
  push, persist_report_state, already_reported, report_delta, report_period, report_usage,
}
use viro_coolify.Billing.Report.Step.{
  reported, reported-with_report, with_report, list_usage_all, start_of, cents_of, delta_of,
  increment_of, report_usage_lem, report_delta_old, report_usage_pushes,
}

-64_self : (a : ℤ) → leb_ℤ (a -64 a) (pos 0) ≡ true
unfolding ◌-64◌
-64_self a = ground arith

fixed_start :
    (month_before : Time → Time) (now later : Time) (org_id : String) (sub : Subscription)
    → sub.current_period_end ≢ 0
    → start_of month_before later org_id sub ≡ start_of month_before now org_id sub
unfolding period_start
fixed_start month_before now later org_id sub p = ground arith

-- Four calls pass, the last of them the provider's, and the fifth fails, which saves the watermark.
abbrev pub unsaved : MemoryStore → List Increment → World
unsaved s is = record {
  store = s;
  accepted = is;
  faults = false ∷ false ∷ false ∷ false ∷ true ∷ [];
}

settled :
    (month_before : Time → Time) (later : Time) (org_id item_id : String) (start : Time) (c : ℤ)
    (s : MemoryStore) (is : List Increment)
    → let done = with_report s org_id start c in
      report_delta month_before later org_id item_id start c
        (reported done org_id start)
        (calm done is)
      ≡ (ok false, calm done is)
settled month_before later org_id item_id start c s is =
    rw (reported-with_report s org_id start c) (
      report_delta_old month_before later org_id item_id start c c (with_report s org_id start c) is
        (-64_self c)
      ∙ ap (λ (t : Table UsageReportState). (ok false, calm (record s { report_state = t }) is))
          (insert-insert org_id _ _ s.report_state))

-- The world `unsaved` after the first two and the first three of its calls.
abbrev after_calls : MemoryStore → List Increment → List Bool → World
after_calls s is fs = record { store = s; accepted = is; faults = fs }

already_reported_next :
    (s : MemoryStore) (is : List Increment) (fs : List Bool) (org_id : String) (start : Time)
    → already_reported org_id start (after_calls s is (false ∷ fs))
      ≡ (ok (reported s org_id start), after_calls s is fs)
unfolding already_reported read get_usage_report_state
already_reported_next s is fs org_id start = ground arith

report_delta_lost :
    (month_before : Time → Time) (now : Time) (org_id item_id : String) (start : Time)
    (cents already : ℤ) (s : MemoryStore) (is : List Increment)
    → leb_ℤ (cents -64 already) (pos 0) ≡ false
    → report_delta month_before now org_id item_id start cents already
        (after_calls s is (false ∷ true ∷ []))
      ≡ (
        err transient,
        calm s (record { item_id = item_id; quantity = cents -64 already; at = now } ∷ is),
      )
unfolding report_delta push persist_report_state write
report_delta_lost month_before now org_id item_id start cents already s is d = rw d

module _ (month_before : Time → Time) (now : Time) (org_id : String) (sub : Subscription)
    (s : MemoryStore) (h : lookup org_id s.subscriptions ≡ some sub)
    (n : sub.stripe_subscription_item_id ≢ "") (later : Time) (p : sub.current_period_end ≢ 0) where
  -- A watermark that stands at the period's whole usage: a report pushes nothing and changes
  -- nothing. The subscription has a period end, so that the period does not depend on the clock.
  report_usage_again :
      (is : List Increment)
      → let start = start_of month_before now org_id sub in
        let done = with_report s org_id start (cents_of month_before now org_id sub s) in
        report_usage month_before later true org_id (calm done is) ≡ (ok false, calm done is)
  unfolding usage_of
  report_usage_again is =
      report_usage_lem month_before later org_id sub done is h n
      ∙ rw (fixed_start month_before now later org_id sub p) (
          settled month_before later org_id sub.stripe_subscription_item_id
            (start_of month_before now org_id sub) (cents_of month_before now org_id sub s) s is)
    where
      done : MemoryStore
      done =
          with_report s org_id (start_of month_before now org_id sub)
            (cents_of month_before now org_id sub s)

  -- Where an org's subscription has an item and a period end, there is something new to report and no
  -- call fails, a second report, at any time, finds nothing left and changes nothing: the provider has
  -- the one increment of the first.
  pub report_usage_twice :
      (is : List Increment)
      → leb_ℤ (delta_of month_before now org_id sub s) (pos 0) ≡ false
      → let (r, w) = report_usage month_before now true org_id (calm s is) in
        (r ≡ ok true)
        × (w.accepted ≡ increment_of month_before now org_id sub s ∷ is)
        × (report_usage month_before later true org_id w ≡ (ok false, w))
  report_usage_twice is d =
      rw (report_usage_pushes month_before now org_id sub s is h n d)
        (refl, refl, report_usage_again (increment_of month_before now org_id sub s ∷ is))

  report_delta_unsaved :
      (is : List Increment)
      → leb_ℤ (delta_of month_before now org_id sub s) (pos 0) ≡ false
      → report_usage month_before now true org_id (unsaved s is)
        ≡ (err transient, calm s (increment_of month_before now org_id sub s ∷ is))
  unfolding report_usage report_period read get_subscription
  report_delta_unsaved is d =
      rw
        (
          h,
          item,
          list_usage_all s org_id (start_of month_before now org_id sub),
          already_reported_next s is (false ∷ true ∷ []) org_id
              (start_of month_before now org_id sub),
        )
        (report_delta_lost month_before now org_id sub.stripe_subscription_item_id
          (start_of month_before now org_id sub) (cents_of month_before now org_id sub s)
          (reported s org_id (start_of month_before now org_id sub)) s is d)
    where
      item : str_eq sub.stripe_subscription_item_id "" ≡ false
      item = ground (arith, eq_iff sub.stripe_subscription_item_id "")

  -- Where an org's subscription has an item and a period end, and there is something new to report: if
  -- the provider takes the increment and the watermark is then not saved, the next report, where
  -- nothing fails, sends the same cents once more.
  pub report_usage_bills_twice :
      (is : List Increment)
      → leb_ℤ (delta_of month_before now org_id sub s) (pos 0) ≡ false
      → let w = (report_usage month_before now true org_id (unsaved s is)).1 in
        (report_usage month_before later true org_id w).1.accepted
        ≡ record (increment_of month_before now org_id sub s) { at = later }
          ∷ increment_of month_before now org_id sub s
          ∷ is
  report_usage_bills_twice is d =
      rw
        (
          report_delta_unsaved is d,
          report_usage_pushes month_before later org_id sub s
              (increment_of month_before now org_id sub s ∷ is) h n
              (rw (fixed_start month_before now later org_id sub p) d),
        )
        (rw (fixed_start month_before now later org_id sub p))
