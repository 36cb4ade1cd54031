-- ===== src/Tests/Webhook.antt =====
-- The webhook theorems at the deletion of one org's subscription.
use viro_coolify.Base.{true, false, [], some, ok, err, transient, ◌≡◌, refl, ap, ◌∷◌}
use viro_coolify.Base.Table.{lookup, contains}
use viro_coolify.Domain.Billing.{SubscriptionStatus}
use viro_coolify.Store.Session.{World, calm, read, may_fail}
use viro_coolify.Billing.Webhook.{seen_before, process_event}
use viro_coolify.Billing.Webhook.Lost.{outage, marked, process_event_loses_cancellation}
use viro_coolify.Billing.Webhook.Redelivery.{process_event_unmarked, process_event_redelivered}
use viro_coolify.Billing.Webhook.Followed.{IsStatusAfter, followed}
use viro_coolify.Billing.Webhook.Apply.{stored, process_event_subscription}
use viro_coolify.Tests.Data.{text_ne, sub, billed, deletion}

new : contains "evt_1" billed.processed_evts ≡ false
unfolding contains
new = refl

process_event_loses_cancellation_example :
    process_event deletion (outage billed []) ≡ (ok true, calm (marked billed deletion) [])
process_event_loses_cancellation_example =
    process_event_loses_cancellation deletion billed [] refl (text_ne "evt_1" "" refl)
      (text_ne "acme" "" refl) (text_ne "sub_1" "" refl) (text_ne "cus_1" "" refl) new

has_sub : lookup "acme" billed.subscriptions ≡ some sub
unfolding lookup
has_sub = refl

process_event_subscription_example :
    (st : SubscriptionStatus) × IsStatusAfter deletion st
    × (process_event deletion (calm billed [])
        ≡ (ok true, calm (marked (stored billed (followed deletion sub st)) deletion) []))
process_event_subscription_example =
    process_event_subscription deletion billed [] sub refl (text_ne "evt_1" "" refl)
      (text_ne "acme" "" refl) new has_sub

-- The look-up of the handled ids fails.
abbrev down : World
down = record { store = billed; accepted = []; faults = true ∷ [] }

fails : (process_event deletion down).0 ≡ err transient
unfolding process_event seen_before read may_fail
fails = refl

process_event_unmarked_example :
    (process_event deletion down).1.store.processed_evts ≡ billed.processed_evts
process_event_unmarked_example = process_event_unmarked deletion down transient fails

succeeds : (process_event deletion (outage billed [])).0 ≡ ok true
succeeds = ap (λ r. r.0) process_event_loses_cancellation_example

process_event_redelivered_example :
    let s = (process_event deletion (outage billed [])).1.store in
    process_event deletion (calm s []) ≡ (ok false, calm s [])
process_event_redelivered_example =
    process_event_redelivered deletion (outage billed []) [] (text_ne "evt_1" "" refl) succeeds
