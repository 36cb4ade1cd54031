-- ===== src/Billing/Webhook/Dedupe.antt =====
-- Each event is marked once it was applied, and not before.
use viro_coolify.Base.{
  String, Bool, false, ok, err, none, some, Option, not_found, is_not_found, ◌≡◌, refl, str_eq,
  arith,
}
use viro_coolify.Base.Table.{Table}
use viro_coolify.Store.State.{MemoryStore}
use viro_coolify.Store.Session.Keeps.{
  Keeps, pure-Keeps, throw-Keeps, look-Keeps, >>=-Keeps, read-Keeps, write-Keeps, if-Keeps,
}
use viro_coolify.Domain.Billing.{Subscription}
use viro_coolify.Store.Session.{pure, throw, look, ◌>>=◌, M, World, read, write}
use viro_coolify.Store.Billing.{
  get_subscription, get_subscription_by_stripe_id, get_subscription_by_customer_id,
  upsert_subscription,
}
use viro_coolify.Billing.Dunning.{advance_dunning, clear_dunning}
use viro_coolify.Billing.Webhook.{
  StripeEvent, after_checkout, after_subscription_event, found_or, or_not_found, resolved, attempt,
  resolve_org, apply_checkout_completed, apply_subscription_event, apply_invoice_payment_failed,
  apply_invoice_payment_succeeded, apply_event,
}

-- The ids of the events that were handled.
abbrev marks : MemoryStore → Table (Unit {0})
marks s = s.processed_evts

attempt-Keeps :
    (key : String) (find : M Subscription) (rest : M (Option Subscription))
    → Keeps marks find
    → Keeps marks rest
    → Keeps marks (attempt key find rest)
unfolding attempt
attempt-Keeps key find rest h k =
    if-Keeps marks (str_eq key "") rest (look find >>= found_or rest) k (
      >>=-Keeps marks (look find) (found_or rest) (look-Keeps marks find h)
        (elim [ ok sub ↦ pure-Keeps marks (some sub) | err e ↦ k ]))

resolve_org-Keeps : (a b c d : String) → Keeps marks (resolve_org a b c d)
unfolding resolve_org
resolve_org-Keeps a b c d =
    >>=-Keeps marks _ or_not_found
      (attempt-Keeps a (read (λ s. get_subscription s a)) _ (read-Keeps marks _) (
        attempt-Keeps b (read (λ s. get_subscription s b)) _ (read-Keeps marks _) (
          attempt-Keeps d (read (λ s. get_subscription_by_stripe_id s d)) _ (read-Keeps marks _) (
            attempt-Keeps c (read (λ s. get_subscription_by_customer_id s c)) (pure none)
              (read-Keeps marks _) (pure-Keeps marks none)))))
      (elim [ none ↦ throw-Keeps marks not_found | some sub ↦ pure-Keeps marks sub ])

resolved-Keeps :
    (m : M Subscription) (apply : Subscription → M (Unit {0}))
    → Keeps marks m
    → ((sub : Subscription) → Keeps marks (apply sub))
    → Keeps marks (look m >>= resolved apply)
resolved-Keeps m apply h k =
    >>=-Keeps marks (look m) (resolved apply) (look-Keeps marks m h) (elim [
      | ok sub ↦ k sub
      | err e ↦
          if-Keeps marks (is_not_found e) (pure tt) (throw e) (pure-Keeps marks tt)
            (throw-Keeps marks e)
    ])

upsert-Keeps : (sub : Subscription) → Keeps marks (write (λ s. upsert_subscription s sub))
unfolding upsert_subscription
upsert-Keeps sub = write-Keeps marks _ (λ s. refl)

advance_dunning-Keeps :
    (org_id : String) (escalate : Bool) → Keeps marks (advance_dunning org_id escalate)
unfolding advance_dunning read write get_subscription upsert_subscription
advance_dunning-Keeps org_id escalate = record { kept = λ w. ground arith }

clear_dunning-Keeps : (org_id : String) → Keeps marks (clear_dunning org_id)
unfolding clear_dunning read write get_subscription upsert_subscription
clear_dunning-Keeps org_id = record { kept = λ w. ground arith }

checkout-Keeps : (evt : StripeEvent) → Keeps marks (apply_checkout_completed evt)
unfolding apply_checkout_completed
checkout-Keeps evt =
    resolved-Keeps (resolve_org evt.client_reference evt.metadata_org_id evt.customer "") _
      (resolve_org-Keeps _ _ _ _) (λ sub. upsert-Keeps (after_checkout evt sub))

subscription-Keeps : (evt : StripeEvent) → Keeps marks (apply_subscription_event evt)
unfolding apply_subscription_event
subscription-Keeps evt =
    resolved-Keeps (resolve_org evt.metadata_org_id "" evt.customer evt.id2) _
      (resolve_org-Keeps _ _ _ _) (λ sub. upsert-Keeps (after_subscription_event evt sub))

failed-Keeps : (evt : StripeEvent) → Keeps marks (apply_invoice_payment_failed evt)
unfolding apply_invoice_payment_failed
failed-Keeps evt =
    resolved-Keeps
      (resolve_org evt.metadata_org_id evt.client_reference evt.customer evt.subscription) _
      (resolve_org-Keeps _ _ _ _) (λ sub. advance_dunning-Keeps sub.org_id false)

succeeded-Keeps : (evt : StripeEvent) → Keeps marks (apply_invoice_payment_succeeded evt)
unfolding apply_invoice_payment_succeeded
succeeded-Keeps evt =
    resolved-Keeps
      (resolve_org evt.metadata_org_id evt.client_reference evt.customer evt.subscription) _
      (resolve_org-Keeps _ _ _ _)
      (λ sub.
        >>=-Keeps marks (clear_dunning sub.org_id) (λ _. pure tt) (clear_dunning-Keeps sub.org_id)
          (λ b. pure-Keeps marks tt))

-- No handler marks its event.
pub apply_event-Keeps :
    (evt : StripeEvent) (w : World)
    → (apply_event evt w).1.store.processed_evts ≡ w.store.processed_evts
unfolding apply_event
apply_event-Keeps evt w = kept.kept w
  where
    kept : Keeps marks (apply_event evt)
    kept = if-Keeps marks _ _ _ (checkout-Keeps evt) (
        if-Keeps marks _ _ _ (subscription-Keeps evt) (
          if-Keeps marks _ _ _ (failed-Keeps evt)
            (if-Keeps marks _ _ _ (succeeded-Keeps evt) (pure-Keeps marks tt))))
