-- ===== src/Billing/Webhook/Apply.antt =====
-- What ProcessEvent makes of a subscription event, where no call fails.
use viro_coolify.Base.{
  String, Bool, true, false, ◌||◌, List, ok, some, ◌≡◌, ◌≢◌, refl, str_eq, arith, eq_iff,
}
use viro_coolify.Base.Table.{contains, insert, lookup, other_text}
use viro_coolify.Domain.Billing.{Subscription, SubscriptionStatus}
use viro_coolify.Store.State.{MemoryStore}
use viro_coolify.Store.Session.{Increment, calm, read, write, update}
use viro_coolify.Store.Billing.{
  get_subscription, upsert_subscription, event_processed, mark_event_processed,
}
use viro_coolify.Billing.Webhook.{
  StripeEvent, resolve_org, apply_subscription_event, apply_event, seen_before, mark, process_event,
}
use viro_coolify.Billing.Webhook.Followed.{
  IsStatusAfter, followed, status_after, after_lem, status_after-IsStatusAfter,
}
use viro_coolify.Billing.Webhook.Lost.{marked}

resolve_org_by_id :
    (org_id b c d : String) (s : MemoryStore) (is : List Increment) (sub : Subscription)
    → str_eq org_id "" ≡ false
    → lookup org_id s.subscriptions ≡ some sub
    → resolve_org org_id b c d (calm s is) ≡ (ok sub, calm s is)
unfolding resolve_org read get_subscription
resolve_org_by_id org_id b c d s is sub n h = rw (n, h)

abbrev pub is_subscription_event : String → Bool
is_subscription_event type =
    str_eq type "customer.subscription.created"
    || str_eq type "customer.subscription.updated"
    || str_eq type "customer.subscription.deleted"

abbrev pub stored : MemoryStore → Subscription → MemoryStore
stored s sub = record s { subscriptions = insert sub.org_id sub s.subscriptions }

apply_subscription_event_lem :
    (evt : StripeEvent) (s : MemoryStore) (is : List Increment) (sub : Subscription)
    → str_eq evt.metadata_org_id "" ≡ false
    → lookup evt.metadata_org_id s.subscriptions ≡ some sub
    → apply_subscription_event evt (calm s is)
      ≡ (ok tt, calm (stored s (followed evt sub (status_after evt))) is)
unfolding apply_subscription_event write upsert_subscription
apply_subscription_event_lem evt s is sub n h =
    rw
      (
        resolve_org_by_id evt.metadata_org_id "" evt.customer evt.id2 s is sub n h,
        after_lem evt sub,
      )
      refl

apply_event_subscription :
    (evt : StripeEvent)
    → is_subscription_event evt.type ≡ true
    → apply_event evt ≡ apply_subscription_event evt
unfolding apply_event
apply_event_subscription evt h = ground (
  arith,
  other_text evt.type "customer.subscription.created" "checkout.session.completed" refl,
  other_text evt.type "customer.subscription.updated" "checkout.session.completed" refl,
  other_text evt.type "customer.subscription.deleted" "checkout.session.completed" refl,
)

seen_before_new :
    (evt : StripeEvent) (s : MemoryStore) (is : List Increment)
    → contains evt.id s.processed_evts ≡ false
    → seen_before evt (calm s is) ≡ (ok false, calm s is)
unfolding seen_before read event_processed
seen_before_new evt s is h = ground arith

mark_new :
    (evt : StripeEvent) (s : MemoryStore) (is : List Increment)
    → str_eq evt.id "" ≡ false
    → contains evt.id s.processed_evts ≡ false
    → mark evt (calm s is) ≡ (ok tt, calm (marked s evt) is)
unfolding mark update mark_event_processed
mark_new evt s is n h = ground arith

-- A new event of the kinds customer.subscription.created, updated and deleted, with an id and the id
-- of an org that has a subscription: if no call fails, it is answered with success, the subscription
-- gets the status canceled on a deletion, else the one that Stripe reported (incomplete for a word that
-- is none of active, trialing, past_due, unpaid and canceled), the ids and the end of the period that
-- the event has, the event is marked, and nothing else changes.
pub process_event_subscription :
    (evt : StripeEvent) (s : MemoryStore) (is : List Increment) (sub : Subscription)
    → is_subscription_event evt.type ≡ true
    → evt.id ≢ ""
    → evt.metadata_org_id ≢ ""
    → contains evt.id s.processed_evts ≡ false
    → lookup evt.metadata_org_id s.subscriptions ≡ some sub
    → (st : SubscriptionStatus) × IsStatusAfter evt st
      × (process_event evt (calm s is)
          ≡ (ok true, calm (marked (stored s (followed evt sub st)) evt) is))
unfolding process_event
process_event_subscription evt s is sub k n m h l = (
  status_after evt,
  status_after-IsStatusAfter evt,
  rw
      (
        seen_before_new evt s is h,
        apply_event_subscription evt k,
        apply_subscription_event_lem evt s is sub (ground (arith, eq_iff evt.metadata_org_id "")) l,
        mark_new evt (stored s (followed evt sub (status_after evt))) is
            (ground (arith, eq_iff evt.id "")) h,
      )
      refl,
)
