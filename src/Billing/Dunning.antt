-- ===== src/Billing/Dunning.antt =====
-- internal/billing/invoices.go: an org's collections standing, and its two transitions.
pub mod Gate
pub mod Transitions
use viro_coolify.Base.{
  String, Bool, true, false, not, Option, none, some, Result, ok, err, is_not_found, if◌then◌else◌,
}
use viro_coolify.Domain.Billing.{Subscription, SubscriptionStatus}
use viro_coolify.Store.Billing.{get_subscription, upsert_subscription}
use viro_coolify.Store.Session.{M, pure, throw, ◌>>=◌, ◌>>◌, look, read, write}
use viro_coolify.Billing.Account.{grace_past_due}

-- `InvoiceStatus`
pub data InvoiceStatus : Type 0 where
  open_period paid past_due : InvoiceStatus

abbrev in_dunning : SubscriptionStatus → Bool
in_dunning SubscriptionStatus.past_due = true
in_dunning SubscriptionStatus.unpaid = true
in_dunning SubscriptionStatus.canceled = true
in_dunning _ = false

abbrev closed_status : Option Subscription → InvoiceStatus
closed_status none = InvoiceStatus.paid
closed_status (some sub) =
    if in_dunning sub.status then InvoiceStatus.past_due else InvoiceStatus.paid

-- `Service.invoiceStatus`
unfoldable pub invoice_status : Option Subscription → Bool → InvoiceStatus
invoice_status sub current = if current then InvoiceStatus.open_period else closed_status sub

pub record Dunning : Type 0 where
  pub state : SubscriptionStatus
  pub past_due : Bool
  pub blocked : Bool
  pub grace_active : Bool

abbrev good_standing : SubscriptionStatus → Dunning
good_standing status = record {
  state = status;
  past_due = false;
  blocked = false;
  grace_active = false;
}

-- The switch of `DunningStatus` on the status.
unfoldable pub standing : SubscriptionStatus → M Dunning
standing SubscriptionStatus.past_due = do
  grace ← grace_past_due
  pure (record {
    state = SubscriptionStatus.past_due;
    past_due = true;
    blocked = not grace;
    grace_active = grace;
  })
standing SubscriptionStatus.unpaid =
    pure (record (good_standing SubscriptionStatus.unpaid) { past_due = true; blocked = true })
standing SubscriptionStatus.canceled =
    pure (record (good_standing SubscriptionStatus.canceled) { past_due = true; blocked = true })
standing status = pure (good_standing status)

-- `Service.DunningStatus`
unfoldable pub dunning_status : String → M Dunning
dunning_status org_id = do
  r ← look (read (λ s. get_subscription s org_id))
  elim r [
    | ok sub ↦ standing sub.status
    | err e ↦ if is_not_found e then pure (good_standing SubscriptionStatus.active) else throw e
  ]

-- The switch of `AdvanceDunning`: the new status, or none where it returns at once.
unfoldable pub dunned : SubscriptionStatus → Bool → Option SubscriptionStatus
dunned SubscriptionStatus.canceled escalate = none
dunned SubscriptionStatus.unpaid escalate = none
dunned SubscriptionStatus.past_due escalate =
    if escalate then some SubscriptionStatus.unpaid else none
dunned _ escalate = some SubscriptionStatus.past_due

-- The end of `AdvanceDunning`, with the new status.
abbrev store_status : Subscription → Option SubscriptionStatus → M (Unit {0})
store_status sub none = pure tt
store_status sub (some status) = write (λ s. upsert_subscription s (record sub { status = status }))

-- `Service.AdvanceDunning`
unfoldable pub advance_dunning : String → Bool → M (Unit {0})
advance_dunning org_id escalate = do
  r ← look (read (λ s. get_subscription s org_id))
  elim r [
    | ok sub ↦ store_status sub (dunned sub.status escalate)
    | err e ↦ if is_not_found e then pure tt else throw e
  ]

-- The cases of `ClearDunning` that return to active.
abbrev pub clears : SubscriptionStatus → Bool
clears SubscriptionStatus.past_due = true
clears SubscriptionStatus.unpaid = true
clears _ = false

-- `Service.ClearDunning`
unfoldable pub clear_dunning : String → M Bool
clear_dunning org_id = do
  r ← look (read (λ s. get_subscription s org_id))
  elim r [
    | ok sub ↦
        if clears sub.status
        then write (λ s. upsert_subscription s (record sub { status = SubscriptionStatus.active }))
          >> pure true
        else pure false
    | err e ↦ if is_not_found e then pure false else throw e
  ]
