-- ===== src/Billing/Dunning/Transitions.antt =====
-- Where AdvanceDunning and ClearDunning take a subscription.
use viro_coolify.Base.{
  ℕ, ◌<◌, String, Bool, true, false, List, none, some, ok, ◌≡◌, ◌≢◌, refl, ◌⊎◌, inl, inr, arith,
  eq_iff, ap, ◌∙◌,
}
use viro_coolify.Base.Table.{lookup, insert, lookup-insert, insert-insert, Table}
use viro_coolify.Domain.Billing.{Subscription, SubscriptionStatus}
use viro_coolify.Store.State.{MemoryStore}
use viro_coolify.Store.Session.{Increment, World, calm, read, write}
use viro_coolify.Store.Billing.{get_subscription, upsert_subscription}
use viro_coolify.Billing.Dunning.{dunned, advance_dunning, clears, clear_dunning}

-- How far along collections a status is.
abbrev pub severity : SubscriptionStatus → ℕ
severity SubscriptionStatus.canceled = 3
severity SubscriptionStatus.unpaid = 2
severity SubscriptionStatus.past_due = 1
severity _ = 0

-- The status that a dunning step aims at, where it takes one.
abbrev pub next_status : SubscriptionStatus → SubscriptionStatus
next_status SubscriptionStatus.past_due = SubscriptionStatus.unpaid
next_status SubscriptionStatus.unpaid = SubscriptionStatus.unpaid
next_status SubscriptionStatus.canceled = SubscriptionStatus.canceled
next_status _ = SubscriptionStatus.past_due

abbrev pub with_status : MemoryStore → Subscription → SubscriptionStatus → MemoryStore
with_status s sub status = record s {
  subscriptions = insert sub.org_id (record sub { status = status }) s.subscriptions;
}

-- Whatever calls fail, a dunning step of an org with a subscription leaves the store as it was, or
-- moves that subscription to the next status, which is a more severe one, and changes nothing else.
pub advance_dunning_forward :
    (org_id : String) (escalate : Bool) (w : World) (sub : Subscription)
    → lookup org_id w.store.subscriptions ≡ some sub
    → let after = (advance_dunning org_id escalate w).1.store in
      (after ≡ w.store)
      ⊎ (((after ≡ with_status w.store sub (next_status sub.status))
          × (severity sub.status < severity (next_status sub.status))))
unfolding advance_dunning dunned read write get_subscription upsert_subscription
advance_dunning_forward org_id escalate w sub h = ground arith

advance_dunning_moves :
    (org_id : String) (escalate : Bool) (s : MemoryStore) (is : List Increment) (sub : Subscription)
    (status : SubscriptionStatus)
    → lookup org_id s.subscriptions ≡ some sub
    → dunned sub.status escalate ≡ some status
    → advance_dunning org_id escalate (calm s is) ≡ (ok tt, calm (with_status s sub status) is)
unfolding advance_dunning read write get_subscription upsert_subscription
advance_dunning_moves org_id escalate s is sub status h d = rw (h, d)

advance_dunning_stays :
    (org_id : String) (escalate : Bool) (s : MemoryStore) (is : List Increment) (sub : Subscription)
    → lookup org_id s.subscriptions ≡ some sub
    → dunned sub.status escalate ≡ none
    → advance_dunning org_id escalate (calm s is) ≡ (ok tt, calm s is)
unfolding advance_dunning read write get_subscription upsert_subscription
advance_dunning_stays org_id escalate s is sub h d = rw (h, d)

clear_dunning-clears :
    (org_id : String) (s : MemoryStore) (is : List Increment) (sub : Subscription)
    → lookup org_id s.subscriptions ≡ some sub
    → clears sub.status ≡ true
    → clear_dunning org_id (calm s is)
      ≡ (ok true, calm (with_status s sub SubscriptionStatus.active) is)
unfolding clear_dunning read write get_subscription upsert_subscription
clear_dunning-clears org_id s is sub h d = rw (h, d)

-- The statuses that a dunning step may find, the canceled one left out.
dunned_cases :
    (status : SubscriptionStatus) (escalate : Bool)
    → status ≢ SubscriptionStatus.canceled
    → ((dunned status escalate ≡ none) × (clears status ≡ true))
      ⊎ ((next : SubscriptionStatus) × (dunned status escalate ≡ some next) × (clears next ≡ true))
unfolding dunned
dunned_cases SubscriptionStatus.canceled escalate h = absurd (h refl)
dunned_cases SubscriptionStatus.unpaid escalate h = inl (refl, refl)
dunned_cases SubscriptionStatus.past_due true h = inr (SubscriptionStatus.unpaid, refl, refl)
dunned_cases SubscriptionStatus.past_due false h = inl (refl, refl)
dunned_cases _ escalate h = inr (SubscriptionStatus.past_due, refl, refl)

lookup-with_status :
    (org_id : String) (s : MemoryStore) (sub : Subscription) (status : SubscriptionStatus)
    → sub.org_id ≡ org_id
    → lookup org_id (with_status s sub status).subscriptions ≡ some (record sub { status = status })
lookup-with_status org_id s sub status k =
    lookup-insert sub.org_id org_id (record sub { status = status }) s.subscriptions
    ∙ ground (arith, eq_iff sub.org_id org_id)

-- Where no call fails, a payment that comes after a dunning step, escalated or not, makes the
-- subscription active, and nothing else of the store has changed: for a subscription that is stored
-- under its org and is not canceled.
pub clear_dunning-advance_dunning :
    (org_id : String) (escalate : Bool) (s : MemoryStore) (is : List Increment) (sub : Subscription)
    → lookup org_id s.subscriptions ≡ some sub
    → sub.org_id ≡ org_id
    → sub.status ≢ SubscriptionStatus.canceled
    → clear_dunning org_id (advance_dunning org_id escalate (calm s is)).1
      ≡ (ok true, calm (with_status s sub SubscriptionStatus.active) is)
clear_dunning-advance_dunning org_id escalate s is sub h k c =
    elim (dunned_cases sub.status escalate c) [
      | inl (stays, clears) ↦
          rw (advance_dunning_stays org_id escalate s is sub h stays)
            (clear_dunning-clears org_id s is sub h clears)
      | inr (next, moves, clears) ↦
          rw (advance_dunning_moves org_id escalate s is sub next h moves) (
            clear_dunning-clears org_id (with_status s sub next) is (record sub { status = next })
              (lookup-with_status org_id s sub next k) clears
            ∙ ap (λ (t : Table Subscription). (ok true, calm (record s { subscriptions = t }) is))
                (insert-insert sub.org_id _ _ s.subscriptions))
    ]
