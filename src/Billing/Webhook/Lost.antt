-- ===== src/Billing/Webhook/Lost.antt =====
-- What becomes of an event when the look-ups of its org fail.
use viro_coolify.Base.{true, false, List, [], ◌∷◌, ok, ◌≡◌, ◌≢◌, arith, eq_iff}
use viro_coolify.Base.Table.{contains, insert}
use viro_coolify.Store.State.{MemoryStore}
use viro_coolify.Store.Session.{World, Increment, calm, read, update}
use viro_coolify.Store.Billing.{event_processed, mark_event_processed}
use viro_coolify.Billing.Webhook.{
  StripeEvent, resolve_org, apply_subscription_event, apply_event, seen_before, mark, process_event,
}

-- The database answers the peek at the handled ids, fails three times, and answers again.
abbrev pub outage : MemoryStore → List Increment → World
outage s is = record { store = s; accepted = is; faults = false ∷ true ∷ true ∷ true ∷ [] }

abbrev pub marked : MemoryStore → StripeEvent → MemoryStore
marked s evt = record s { processed_evts = insert evt.id tt s.processed_evts }

-- A cancellation that arrives while the database fails at the three look-ups of its org is answered
-- with success and marked as handled, though no subscription was changed; this for every new event
-- that carries an org, a subscription and a customer id.
pub process_event_loses_cancellation :
    (evt : StripeEvent) (s : MemoryStore) (is : List Increment)
    → evt.type ≡ "customer.subscription.deleted"
    → evt.id ≢ ""
    → evt.metadata_org_id ≢ ""
    → evt.id2 ≢ ""
    → evt.customer ≢ ""
    → contains evt.id s.processed_evts ≡ false
    → process_event evt (outage s is) ≡ (ok true, calm (marked s evt) is)
unfolding process_event seen_before mark apply_event apply_subscription_event resolve_org read
    update event_processed mark_event_processed
process_event_loses_cancellation evt s is t n m i c h = rw t (
    ground (
      arith,
      eq_iff evt.id "",
      eq_iff evt.metadata_org_id "",
      eq_iff evt.id2 "",
      eq_iff evt.customer "",
    ))
