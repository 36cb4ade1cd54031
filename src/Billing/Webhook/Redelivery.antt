-- ===== src/Billing/Webhook/Redelivery.antt =====
-- ProcessEvent over the deliveries of one event.
use viro_coolify.Base.{true, false, List, Error, ok, err, ◌≡◌, ◌≢◌, str_eq, arith, eq_iff, eq_refl}
use viro_coolify.Base.Table.{contains, contains-insert}
use viro_coolify.Store.State.{MemoryStore}
use viro_coolify.Store.Session.{World, Increment, calm, read, update}
use viro_coolify.Store.Billing.{event_processed, mark_event_processed}
use viro_coolify.Billing.Webhook.{StripeEvent, apply_event, seen_before, mark, process_event}
use viro_coolify.Billing.Webhook.Dedupe.{apply_event-Keeps}

seen_before_store : (evt : StripeEvent) (w : World) → (seen_before evt w).1.store ≡ w.store
unfolding seen_before read event_processed
seen_before_store evt w = ground arith

-- A mark that fails leaves the marks alone, and one that succeeds is there.
mark_fails :
    (evt : StripeEvent) (w : World) (e : Error)
    → (mark evt w).0 ≡ err e
    → (mark evt w).1.store.processed_evts ≡ w.store.processed_evts
unfolding mark update mark_event_processed
mark_fails evt w e h = ground arith

mark_succeeds :
    (evt : StripeEvent) (w : World)
    → str_eq evt.id "" ≡ false
    → (mark evt w).0 ≡ ok tt
    → contains evt.id (mark evt w).1.store.processed_evts ≡ true
unfolding mark update mark_event_processed
mark_succeeds evt w n h =
    ground (arith, contains-insert evt.id evt.id tt w.store.processed_evts, eq_refl evt.id)

-- A delivery that fails, at whatever call, leaves the ids of the handled events as they were.
pub process_event_unmarked :
    (evt : StripeEvent) (w : World) (e : Error)
    → (process_event evt w).0 ≡ err e
    → (process_event evt w).1.store.processed_evts ≡ w.store.processed_evts
unfolding process_event
process_event_unmarked evt w e h = ground (
  arith,
  seen_before_store evt w,
  apply_event-Keeps evt (seen_before evt w).1,
  mark_fails evt (apply_event evt (seen_before evt w).1).1 e,
)

applied_is_marked :
    (evt : StripeEvent) (w : World)
    → str_eq evt.id "" ≡ false
    → (process_event evt w).0 ≡ ok true
    → contains evt.id (process_event evt w).1.store.processed_evts ≡ true
unfolding process_event
applied_is_marked evt w n h =
    ground (arith, mark_succeeds evt (apply_event evt (seen_before evt w).1).1 n)

marked_is_skipped :
    (evt : StripeEvent) (s : MemoryStore) (is : List Increment)
    → str_eq evt.id "" ≡ false
    → contains evt.id s.processed_evts ≡ true
    → process_event evt (calm s is) ≡ (ok false, calm s is)
unfolding process_event seen_before read event_processed
marked_is_skipped evt s is n h = ground arith

-- Once a delivery of an event with an id was answered with success, whatever calls failed on the
-- way, the next delivery is answered as handled and changes nothing, if its calls do not fail.
pub process_event_redelivered :
    (evt : StripeEvent) (w : World) (is : List Increment)
    → evt.id ≢ ""
    → (process_event evt w).0 ≡ ok true
    → let s = (process_event evt w).1.store in process_event evt (calm s is) ≡ (ok false, calm s is)
process_event_redelivered evt w is n h =
    marked_is_skipped evt (process_event evt w).1.store is named (applied_is_marked evt w named h)
  where
    named : str_eq evt.id "" ≡ false
    named = ground (arith, eq_iff evt.id "")
