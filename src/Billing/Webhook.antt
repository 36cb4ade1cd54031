-- ===== src/Billing/Webhook.antt =====
-- internal/billing/webhook.go: Stripe events, applied to an org's subscription.
pub mod Dedupe
pub mod Redelivery
pub mod Lost
pub mod Followed
pub mod Apply
use viro_coolify.Base.{
  ℕ, ◌+◌, ◌*◌, String, Bool, true, false, not, ◌||◌, List, [], ◌∷◌, Option, none, some, Result, ok,
  err, not_found, is_not_found, str_eq, if◌then◌else◌,
}
use viro_coolify.Base.Int.{ℤ, pos, pos_part, ltb_ℤ}
use viro_coolify.Domain.Scalar.{Time}
use viro_coolify.Domain.Billing.{Subscription, SubscriptionStatus, from_stripe}
use viro_coolify.Store.Billing.{
  get_subscription, get_subscription_by_stripe_id, get_subscription_by_customer_id,
  upsert_subscription, event_processed, mark_event_processed,
}
use viro_coolify.Store.Session.{M, pure, throw, ◌>>=◌, ◌>>◌, look, read, write, update}
use viro_coolify.Billing.Dunning.{advance_dunning, clear_dunning}

pub record StripeEvent : Type 0 where
  pub id : String
  pub type : String
  pub id2 : String
  pub subscription : String
  pub customer : String
  pub client_reference : String
  pub status : String
  pub current_period_end : ℤ
  pub metadata_org_id : String
  pub subscription_item_id : String
  pub item_current_period_end : ℤ

-- `StripeEvent.periodEnd`
unfoldable pub period_end : StripeEvent → ℤ
period_end evt =
    if ltb_ℤ (pos 0) evt.current_period_end
    then evt.current_period_end
    else evt.item_current_period_end

-- `time.Unix(sec, 0).UTC()`: the Unix epoch lies 62135596800 seconds after the zero time.
unfoldable pub unix : ℤ → Time
unix sec = (62135596800 + pos_part sec) * 1000000000

-- The first of two texts, where the second is empty.
abbrev pub or_keep : String → String → String
or_keep new old = if str_eq new "" then old else new

abbrev pub found_or : M (Option Subscription) → Result Subscription → M (Option Subscription)
found_or rest (ok sub) = pure (some sub)
found_or rest (err e) = rest

-- One attempt of `resolveOrg`: an empty key is passed over, and so is any error of the look-up.
unfoldable pub attempt : String → M Subscription → M (Option Subscription) → M (Option Subscription)
attempt key find rest = if str_eq key "" then rest else (look find >>= found_or rest)

abbrev pub or_not_found : Option Subscription → M Subscription
or_not_found none = throw not_found
or_not_found (some sub) = pure sub

-- `Service.resolveOrg`
unfoldable pub resolve_org : String → String → String → String → M Subscription
unfolding attempt
resolve_org org_id1 org_id2 customer_id sub_id =
    attempt org_id1 (read (λ s. get_subscription s org_id1)) (
      attempt org_id2 (read (λ s. get_subscription s org_id2)) (
        attempt sub_id (read (λ s. get_subscription_by_stripe_id s sub_id)) (
          attempt customer_id (read (λ s. get_subscription_by_customer_id s customer_id))
            (pure none))))
    >>= or_not_found

-- An event that no org matches is a successful no-op.
abbrev pub resolved : (Subscription → M (Unit {0})) → Result Subscription → M (Unit {0})
resolved apply (ok sub) = apply sub
resolved apply (err e) = if is_not_found e then pure tt else throw e

-- What a completed checkout makes of the subscription.
unfoldable pub after_checkout : StripeEvent → Subscription → Subscription
after_checkout evt sub = record sub {
  stripe_subscription_id = or_keep evt.subscription sub.stripe_subscription_id;
  stripe_customer_id = or_keep evt.customer sub.stripe_customer_id;
  status = SubscriptionStatus.active;
}

-- `Service.applyCheckoutCompleted`
unfoldable pub apply_checkout_completed : StripeEvent → M (Unit {0})
apply_checkout_completed evt =
    look (resolve_org evt.client_reference evt.metadata_org_id evt.customer "")
    >>= resolved (λ sub. write (λ s. upsert_subscription s (after_checkout evt sub)))

-- What a subscription event makes of the subscription.
unfoldable pub after_subscription_event : StripeEvent → Subscription → Subscription
unfolding from_stripe period_end unix
after_subscription_event evt sub = record sub {
  status =
      if str_eq evt.type "customer.subscription.deleted"
      then SubscriptionStatus.canceled
      else from_stripe evt.status;
  stripe_subscription_id = or_keep evt.id2 sub.stripe_subscription_id;
  stripe_customer_id = or_keep evt.customer sub.stripe_customer_id;
  stripe_subscription_item_id = or_keep evt.subscription_item_id sub.stripe_subscription_item_id;
  current_period_end =
      if ltb_ℤ (pos 0) (period_end evt) then unix (period_end evt) else sub.current_period_end;
}

-- `Service.applySubscriptionEvent`
unfoldable pub apply_subscription_event : StripeEvent → M (Unit {0})
apply_subscription_event evt =
    look (resolve_org evt.metadata_org_id "" evt.customer evt.id2)
    >>= resolved (λ sub. write (λ s. upsert_subscription s (after_subscription_event evt sub)))

-- `Service.applyInvoicePaymentFailed`
unfoldable pub apply_invoice_payment_failed : StripeEvent → M (Unit {0})
apply_invoice_payment_failed evt =
    look (resolve_org evt.metadata_org_id evt.client_reference evt.customer evt.subscription)
    >>= resolved (λ sub. advance_dunning sub.org_id false)

-- `Service.applyInvoicePaymentSucceeded`
unfoldable pub apply_invoice_payment_succeeded : StripeEvent → M (Unit {0})
apply_invoice_payment_succeeded evt =
    look (resolve_org evt.metadata_org_id evt.client_reference evt.customer evt.subscription)
    >>= resolved (λ sub. clear_dunning sub.org_id >>= λ _. pure tt)

-- The switch of `ProcessEvent` on the type.
unfoldable pub apply_event : StripeEvent → M (Unit {0})
apply_event evt =
    if str_eq evt.type "checkout.session.completed"
    then apply_checkout_completed evt
    else if str_eq evt.type "customer.subscription.created"
        || str_eq evt.type "customer.subscription.updated"
        || str_eq evt.type "customer.subscription.deleted"
    then apply_subscription_event evt
    else if str_eq evt.type "invoice.payment_failed"
    then apply_invoice_payment_failed evt
    else if str_eq evt.type "invoice.payment_succeeded"
    then apply_invoice_payment_succeeded evt
    else pure tt

-- The peek at the ids that were handled; an event with no id is never skipped.
unfoldable pub seen_before : StripeEvent → M Bool
seen_before evt = if str_eq evt.id "" then pure false else read (λ s. event_processed s evt.id)

-- The mark, after the event was applied.
unfoldable pub mark : StripeEvent → M (Unit {0})
mark evt =
    if str_eq evt.id ""
    then pure tt
    else (update (λ s. mark_event_processed s evt.id) >>= λ _. pure tt)

-- `Service.ProcessEvent`
unfoldable pub process_event : StripeEvent → M Bool
process_event evt = do
  seen ← seen_before evt
  if seen then pure false else (apply_event evt >>= λ _. mark evt >>= λ _. pure true)
