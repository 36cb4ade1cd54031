-- ===== src/Billing/Report.antt =====
-- internal/billing/invoice.go: the usage of a period, reported to the payment provider.
pub mod Step
pub mod Delivery
use viro_coolify.Base.{
  ℕ, suc, String, Bool, true, false, not, List, [], ◌∷◌, Option, none, some, Result, ok, err, Error,
  transient, canceled, is_not_found, str_eq, ltb, if◌then◌else◌,
}
use viro_coolify.Base.Int.{ℤ, pos, leb_ℤ, ◌-64◌}
use viro_coolify.Domain.Scalar.{Time}
use viro_coolify.Domain.Access.{Organization}
use viro_coolify.Domain.Billing.{Subscription, UsageReportState}
use viro_coolify.Store.Page.{all_rows}
use viro_coolify.Store.Tenants.{list_all_orgs}
use viro_coolify.Store.Billing.{
  get_subscription, list_usage_by_org_since, get_usage_report_state, set_usage_report_state,
}
use viro_coolify.Store.Session.{
  M, World, Increment, pure, throw, ◌>>=◌, ◌>>◌, look, may_fail, read, write,
}
use viro_coolify.Billing.Invoice.{usage_so_far_cents}
use viro_coolify.Billing.Account.{period_start}

-- The provider's ReportUsage: it takes the increment, or fails and takes nothing.
unfoldable pub push : Increment → M (Unit {0})
unfolding may_fail
push inc = may_fail transient (λ w. (ok tt, record w { accepted = inc ∷ w.accepted }))

-- `Service.persistReportState`
unfoldable pub persist_report_state : String → Time → ℤ → M (Unit {0})
persist_report_state org_id start cents = write (λ s.
    set_usage_report_state s
      (record { org_id = org_id; period_start = start; reported_cents = cents }))

-- The watermark: none, or one of an earlier period, reads as zero.
abbrev reported_in : Time → Result UsageReportState → M ℤ
reported_in start (ok rs) = pure (if ltb rs.period_start start then pos 0 else rs.reported_cents)
reported_in start (err e) = if is_not_found e then pure (pos 0) else throw e

unfoldable pub already_reported : String → Time → M ℤ
already_reported org_id start =
    look (read (λ s. get_usage_report_state s org_id)) >>= reported_in start

module _ (month_before : Time → Time) (now : Time) where
  -- From the sums on: push what is new, and then move the watermark.
  unfoldable pub report_delta : String → String → Time → ℤ → ℤ → M Bool
  report_delta org_id item_id start cents already =
      let delta = cents -64 already in
      if leb_ℤ delta (pos 0)
      then (persist_report_state org_id start already >> pure false)
      else (push (record { item_id = item_id; quantity = delta; at = now })
          >> (persist_report_state org_id start cents >> pure true))

  unfoldable pub report_period : String → Subscription → M Bool
  report_period org_id sub = do
    let start = period_start month_before now (some sub)
    records ← read (λ s. list_usage_by_org_since s org_id start all_rows)
    already ← already_reported org_id start
    report_delta org_id sub.stripe_subscription_item_id start (usage_so_far_cents records) already

  abbrev report_subscription : String → Result Subscription → M Bool
  report_subscription org_id (ok sub) =
      if str_eq sub.stripe_subscription_item_id "" then pure false else report_period org_id sub
  report_subscription org_id (err e) = if is_not_found e then pure false else throw e

  -- `Service.ReportUsage`; `reports` says whether the provider takes usage reports at all.
  unfoldable pub report_usage : Bool → String → M Bool
  report_usage reports org_id =
      if reports
      then (look (read (λ s. get_subscription s org_id)) >>= report_subscription org_id)
      else pure false

  abbrev first : Option Error → Error → Option Error
  first none e = some e
  first (some e') e = some e'

  -- What a round of `ReportAllUsage` counts: the orgs that were pushed, and the first error.
  abbrev counted : ℕ → Option Error → Result Bool → ℕ × Option Error
  counted reported first_err (ok true) = (suc reported, first_err)
  counted reported first_err (ok false) = (reported, first_err)
  counted reported first_err (err e) = (reported, first first_err e)

  -- The loop of `ReportAllUsage`; each round first asks whether the context was canceled.
  unfoldable pub report_orgs : ℕ → Option Error → List Organization → M (ℕ × Option Error)
  unfolding may_fail
  report_orgs reported first_err [] = pure (reported, first_err)
  report_orgs reported first_err (org ∷ orgs) = do
    alive ← look (may_fail canceled (pure tt))
    elim alive [
      | err e ↦ pure (reported, first first_err e)
      | ok _ ↦ look (report_usage true org.id) >>= λ r.
          report_orgs (counted reported first_err r).0 (counted reported first_err r).1 orgs
    ]

  -- `Service.ReportAllUsage`
  unfoldable pub report_all_usage : Bool → M (ℕ × Option Error)
  unfolding report_orgs
  report_all_usage reports =
      if reports then (read list_all_orgs >>= report_orgs 0 none) else pure (0, none)
