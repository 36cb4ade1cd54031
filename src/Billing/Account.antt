-- ===== src/Billing/Account.antt =====
-- internal/billing/invoice.go and catalog.go: the current invoice, the spend cap and the gate that
-- new deploys pass. `now` is the time that the operation reads from its clock, and `month_before`
-- stands for Go's t.AddDate(0, -1, 0).
use viro_coolify.Base.{
  String, Bool, false, Option, none, some, ok, err, payment_required, is_not_found, ◌==◌,
  if◌then◌else◌,
}
use viro_coolify.Base.Int.{ℤ, pos, ltb_ℤ, leb_ℤ}
use viro_coolify.Domain.Scalar.{Time}
use viro_coolify.Domain.Billing.{Plan, Subscription, SubscriptionStatus}
use viro_coolify.Store.Page.{all_rows}
use viro_coolify.Store.Tenants.{get_organization}
use viro_coolify.Store.Catalog.{get_plan, get_settings}
use viro_coolify.Store.Billing.{get_subscription, list_usage_by_org_since}
use viro_coolify.Store.Session.{M, pure, throw, ◌>>=◌, look, read}
use viro_coolify.Billing.Invoice.{Invoice, invoice_from_records}

-- `Service.PlanByID`
unfoldable pub plan_by_id : String → M (Option Plan)
plan_by_id id = do
  r ← look (read (λ s. get_plan s id))
  elim r [ ok p ↦ pure (some p) | err e ↦ if is_not_found e then pure none else throw e ]

-- `Service.gracePastDue`
unfoldable pub grace_past_due : M Bool
grace_past_due = do
  r ← look (read get_settings)
  elim r [ ok set ↦ pure set.grace_past_due | err e ↦ pure false ]

abbrev default_spend_cap : M ℤ
default_spend_cap = do
  r ← look (read get_settings)
  elim r [ ok set ↦ pure set.default_spend_cap_cents | err e ↦ pure (pos 0) ]

-- `Service.effectiveSpendCap`
unfoldable pub effective_spend_cap : String → M ℤ
effective_spend_cap org_id = do
  r ← look (read (λ s. get_organization s org_id))
  elim r [
    | ok org ↦
        if ltb_ℤ (pos 0) org.spend_cap_cents then pure org.spend_cap_cents else default_spend_cap
    | err e ↦ default_spend_cap
  ]

-- The subscription and its plan, where the org has them.
unfoldable pub subscribed_plan : String → M (Option Subscription × Option Plan)
subscribed_plan org_id = do
  r ← look (read (λ s. get_subscription s org_id))
  elim r [
    | ok sub ↦ plan_by_id sub.plan_id >>= λ plan. pure (some sub, plan)
    | err e ↦ if is_not_found e then pure (none, none) else throw e
  ]

abbrev refuse_over : ℤ → Invoice → M (Unit {0})
refuse_over cap_cents inv =
    if leb_ℤ cap_cents inv.charge_cents then throw payment_required else pure tt

module _ (month_before : Time → Time) (now : Time) where
  -- `Service.periodStart`
  unfoldable pub period_start : Option Subscription → Time
  period_start none = month_before now
  period_start (some sub) =
      if sub.current_period_end == 0 then month_before now else month_before sub.current_period_end

  -- `Service.CurrentInvoice`
  unfoldable pub current_invoice : String → M Invoice
  current_invoice org_id = do
    (sub, plan) ← subscribed_plan org_id
    records ← read (λ s. list_usage_by_org_since s org_id (period_start sub) all_rows)
    pure (invoice_from_records plan records)

  -- `Service.ensureUnderCap`
  unfoldable pub ensure_under_cap : String → M (Unit {0})
  ensure_under_cap org_id = do
    cap_cents ← effective_spend_cap org_id
    if leb_ℤ cap_cents (pos 0) then pure tt else (current_invoice org_id >>= refuse_over cap_cents)

  -- The switch of `EnsureActive` on the status.
  unfoldable pub gate_status : SubscriptionStatus → String → M (Unit {0})
  gate_status SubscriptionStatus.canceled org_id = throw payment_required
  gate_status SubscriptionStatus.unpaid org_id = throw payment_required
  gate_status SubscriptionStatus.past_due org_id = do
    grace ← grace_past_due
    if grace then ensure_under_cap org_id else throw payment_required
  gate_status _ org_id = ensure_under_cap org_id

  -- `Service.EnsureActive`
  unfoldable pub ensure_active : String → M (Unit {0})
  ensure_active org_id = do
    r ← look (read (λ s. get_subscription s org_id))
    elim r [
      | ok sub ↦ gate_status sub.status org_id
      | err e ↦ if is_not_found e then ensure_under_cap org_id else throw e
    ]
