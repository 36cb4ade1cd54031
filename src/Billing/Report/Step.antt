-- ===== src/Billing/Report/Step.antt =====
-- ReportUsage where no call fails.
use viro_coolify.Base.{
  String, true, false, not, List, ◌∷◌, ok, none, some, ◌≡◌, ◌≢◌, refl, ◌∙◌, str_eq, ltb,
  if◌then◌else◌, arith, eq_iff,
}
use viro_coolify.Base.Int.{ℤ, pos, leb_ℤ, ◌-64◌}
use viro_coolify.Base.Table.{lookup, insert, select, lookup-insert}
use viro_coolify.Base.Sort.{sort_by}
use viro_coolify.Domain.Scalar.{Time}
use viro_coolify.Domain.Billing.{Subscription, UsageRecord}
use viro_coolify.Store.State.{MemoryStore}
use viro_coolify.Store.Page.{all_rows, page_of}
use viro_coolify.Store.Session.{Increment, calm, read, write}
use viro_coolify.Store.Billing.{
  get_subscription, list_usage_by_org_since, newer, usage_of, get_usage_report_state,
  set_usage_report_state,
}
use viro_coolify.Billing.Invoice.{usage_so_far_cents}
use viro_coolify.Billing.Account.{period_start}
use viro_coolify.Billing.Report.{
  push, persist_report_state, already_reported, report_delta, report_period, report_usage,
}

-- The records of an org from a time on, newest first.
abbrev pub records_since : MemoryStore → String → Time → List UsageRecord
records_since s org_id start =
    sort_by newer (select (λ r. not (ltb r.at start)) (usage_of s org_id))

pub list_usage_all :
    (s : MemoryStore) (org_id : String) (start : Time)
    → list_usage_by_org_since s org_id start all_rows ≡ ok (records_since s org_id start)
unfolding list_usage_by_org_since page_of
list_usage_all s org_id start = refl

-- The cents of the period that were reported before.
abbrev pub reported : MemoryStore → String → Time → ℤ
reported s org_id start = elim (lookup org_id s.report_state) [
  | none ↦ pos 0
  | some rs ↦ if ltb rs.period_start start then pos 0 else rs.reported_cents
]

already_reported_lem :
    (s : MemoryStore) (is : List Increment) (org_id : String) (start : Time)
    → already_reported org_id start (calm s is) ≡ (ok (reported s org_id start), calm s is)
unfolding already_reported read get_usage_report_state
already_reported_lem s is org_id start = ground arith

abbrev pub with_report : MemoryStore → String → Time → ℤ → MemoryStore
with_report s org_id start cents = record s {
  report_state =
      insert org_id (record { org_id = org_id; period_start = start; reported_cents = cents })
        s.report_state;
}

pub reported-with_report :
    (s : MemoryStore) (org_id : String) (start : Time) (cents : ℤ)
    → reported (with_report s org_id start cents) org_id start ≡ cents
reported-with_report s org_id start cents = ground (
  arith,
  lookup-insert org_id org_id
      (record { org_id = org_id; period_start = start; reported_cents = cents }) s.report_state,
  eq_iff org_id org_id,
)

module _ (month_before : Time → Time) (now : Time) (org_id item_id : String) (start : Time)
    (cents already : ℤ) (s : MemoryStore) (is : List Increment) where
  report_delta_new :
      leb_ℤ (cents -64 already) (pos 0) ≡ false
      → report_delta month_before now org_id item_id start cents already (calm s is) ≡ (
        ok true,
        calm
            (with_report s org_id start cents)
            (record { item_id = item_id; quantity = cents -64 already; at = now } ∷ is),
      )
  unfolding report_delta push persist_report_state write set_usage_report_state
  report_delta_new d = rw d

  pub report_delta_old :
      leb_ℤ (cents -64 already) (pos 0) ≡ true
      → report_delta month_before now org_id item_id start cents already (calm s is)
        ≡ (ok false, calm (with_report s org_id start already) is)
  unfolding report_delta push persist_report_state write set_usage_report_state
  report_delta_old d = rw d

module _ (month_before : Time → Time) (now : Time) (org_id : String) (sub : Subscription) where
  abbrev pub start_of : Time
  start_of = period_start month_before now (some sub)

  abbrev pub cents_of : MemoryStore → ℤ
  cents_of s = usage_so_far_cents (records_since s org_id start_of)

  abbrev pub delta_of : MemoryStore → ℤ
  delta_of s = cents_of s -64 reported s org_id start_of

  abbrev pub increment_of : MemoryStore → Increment
  increment_of s = record {
    item_id = sub.stripe_subscription_item_id;
    quantity = delta_of s;
    at = now;
  }

  pub report_usage_lem :
      (s : MemoryStore) (is : List Increment)
      → lookup org_id s.subscriptions ≡ some sub
      → sub.stripe_subscription_item_id ≢ ""
      → report_usage month_before now true org_id (calm s is)
        ≡ report_delta month_before now org_id sub.stripe_subscription_item_id start_of
            (cents_of s)
            (reported s org_id start_of)
            (calm s is)
  unfolding report_usage report_period read get_subscription
  report_usage_lem s is h n =
      rw (h, item, list_usage_all s org_id start_of, already_reported_lem s is org_id start_of)
    where
      item : str_eq sub.stripe_subscription_item_id "" ≡ false
      item = ground (arith, eq_iff sub.stripe_subscription_item_id "")

  -- Where no call fails and there is something new, one increment of the cents that were not
  -- reported yet goes to the subscription item, and the watermark moves to the period's whole usage.
  pub report_usage_pushes :
      (s : MemoryStore) (is : List Increment)
      → lookup org_id s.subscriptions ≡ some sub
      → sub.stripe_subscription_item_id ≢ ""
      → leb_ℤ (delta_of s) (pos 0) ≡ false
      → report_usage month_before now true org_id (calm s is)
        ≡ (ok true, calm (with_report s org_id start_of (cents_of s)) (increment_of s ∷ is))
  report_usage_pushes s is h n d =
      report_usage_lem s is h n
      ∙ report_delta_new month_before now org_id sub.stripe_subscription_item_id start_of
          (cents_of s) (reported s org_id start_of) s is d
