-- ===== src/Billing/Webhook/Followed.antt =====
-- internal/billing/webhook.go: what a subscription event makes of a subscription, described without the
-- code's helpers.
use viro_coolify.Base.{
  zero, suc, ◌+◌, ◌*◌, ◌⊎◌, [], ◌∷◌, ap, inl, inr, Bool-cases, if◌then◌else◌, String, false, List,
  ◌≡◌, ◌≢◌, refl, sym, str_eq, arith, eq_iff,
}
use viro_coolify.Domain.Billing.{Subscription, SubscriptionStatus, from_stripe}
use viro_coolify.Domain.Scalar.{Time}
use viro_coolify.Base.Int.{ℤ, pos, negsuc, ltb_ℤ, pos_part}
use viro_coolify.Base.Member.{All}
use mathlib.Core.List.{Memᴰ}
use viro_coolify.Billing.Webhook.{StripeEvent, period_end, unix, after_subscription_event}

-- Stripe's words for a status.
abbrev pub words : List String
words = "active" ∷ "trialing" ∷ "past_due" ∷ "unpaid" ∷ "canceled" ∷ []

abbrev pub word_of : SubscriptionStatus → String
word_of SubscriptionStatus.active = "active"
word_of SubscriptionStatus.trialing = "trialing"
word_of SubscriptionStatus.past_due = "past_due"
word_of SubscriptionStatus.unpaid = "unpaid"
word_of SubscriptionStatus.canceled = "canceled"
word_of SubscriptionStatus.incomplete = "incomplete"
word_of (SubscriptionStatus.other t) = t

-- The status that Stripe reports, or incomplete for a word that is none of those five.
abbrev pub IsReported : String → SubscriptionStatus → Type 0
IsReported word st =
    (word_of st ≡ word × Memᴰ word words)
    ⊎ ((st ≡ SubscriptionStatus.incomplete) × All (λ w. w ≢ word) words)

-- The status after an event: canceled on a deletion, else the one that Stripe reports.
abbrev pub IsStatusAfter : StripeEvent → SubscriptionStatus → Type 0
IsStatusAfter evt st =
    ((evt.type ≡ "customer.subscription.deleted") × (st ≡ SubscriptionStatus.canceled))
    ⊎ ((evt.type ≢ "customer.subscription.deleted") × IsReported evt.status st)

-- The end of the period: the event's own, or else its item's, in seconds of the Unix epoch, where it is
-- positive, or else the one from before.
abbrev pub ends_at : ℤ → ℤ → Time → Time
ends_at (pos (suc n)) item old = (62135596800 + suc n) * 1000000000
ends_at (pos zero) (pos (suc n)) old = (62135596800 + suc n) * 1000000000
ends_at (negsuc m) (pos (suc n)) old = (62135596800 + suc n) * 1000000000
ends_at _ _ old = old

-- A subscription with a new status, and with the ids that the event has in place of the old ones.
abbrev pub followed : StripeEvent → Subscription → SubscriptionStatus → Subscription
followed evt sub st = record {
  org_id = sub.org_id;
  plan_id = sub.plan_id;
  status = st;
  stripe_customer_id = if str_eq evt.customer "" then sub.stripe_customer_id else evt.customer;
  stripe_subscription_id = if str_eq evt.id2 "" then sub.stripe_subscription_id else evt.id2;
  stripe_subscription_item_id =
      if str_eq evt.subscription_item_id ""
      then sub.stripe_subscription_item_id
      else evt.subscription_item_id;
  created_at = sub.created_at;
  current_period_end =
      ends_at evt.current_period_end evt.item_current_period_end sub.current_period_end;
}

-- The same, computed.
unfoldable pub status_after : StripeEvent → SubscriptionStatus
status_after evt =
    if str_eq evt.type "customer.subscription.deleted"
    then SubscriptionStatus.canceled
    else from_stripe evt.status

period_lem :
    (evt : StripeEvent) (old : Time)
    → (if ltb_ℤ (pos 0) (period_end evt) then unix (period_end evt) else old)
      ≡ ends_at evt.current_period_end evt.item_current_period_end old
unfolding period_end unix
period_lem evt old = at evt.current_period_end evt.item_current_period_end
  where
    at :
        (c i : ℤ)
        → (let e = if ltb_ℤ (pos 0) c then c else i in
            if ltb_ℤ (pos 0) e then (62135596800 + pos_part e) * 1000000000 else old)
          ≡ ends_at c i old
    at (pos (suc n)) i = ground arith
    at (pos zero) (pos (suc n)) = ground arith
    at (pos zero) (pos zero) = ground arith
    at (pos zero) (negsuc n) = ground arith
    at (negsuc m) (pos (suc n)) = ground arith
    at (negsuc m) (pos zero) = ground arith
    at (negsuc m) (negsuc n) = ground arith

pub after_lem :
    (evt : StripeEvent) (sub : Subscription)
    → after_subscription_event evt sub ≡ followed evt sub (status_after evt)
unfolding after_subscription_event status_after
after_lem evt sub =
    ap (λ t. record (followed evt sub (status_after evt)) { current_period_end = t })
      (period_lem evt sub.current_period_end)

differs : (w word : String) → str_eq word w ≡ false → w ≢ word
differs w word e q = ground (arith, e, (eq_iff word w).1 (sym q))

from_stripe-IsReported : (word : String) → IsReported word (from_stripe word)
unfolding from_stripe
from_stripe-IsReported word = elim (Bool-cases (str_eq word "active")) [
  | inl e ↦ rw (e) (inl (sym ((eq_iff word "active").0 e), Memᴰ.head ((eq_iff word "active").0 e)))
  | inr e0 ↦ elim (Bool-cases (str_eq word "trialing")) [
    | inl e ↦
        rw (e0, e)
          (inl (
            sym ((eq_iff word "trialing").0 e),
            Memᴰ.tail (Memᴰ.head ((eq_iff word "trialing").0 e)),
          ))
    | inr e1 ↦ elim (Bool-cases (str_eq word "past_due")) [
      | inl e ↦
          rw (e0, e1, e)
            (inl (
              sym ((eq_iff word "past_due").0 e),
              Memᴰ.tail (Memᴰ.tail (Memᴰ.head ((eq_iff word "past_due").0 e))),
            ))
      | inr e2 ↦ elim (Bool-cases (str_eq word "unpaid")) [
        | inl e ↦
            rw (e0, e1, e2, e)
              (inl (
                sym ((eq_iff word "unpaid").0 e),
                Memᴰ.tail (Memᴰ.tail (Memᴰ.tail (Memᴰ.head ((eq_iff word "unpaid").0 e)))),
              ))
        | inr e3 ↦ elim (Bool-cases (str_eq word "canceled")) [
          | inl e ↦
              rw (e0, e1, e2, e3, e)
                (inl (
                  sym ((eq_iff word "canceled").0 e),
                  Memᴰ.tail (
                      Memᴰ.tail (Memᴰ.tail (Memᴰ.tail (Memᴰ.head ((eq_iff word "canceled").0 e))))),
                ))
          | inr e4 ↦
              rw (e0, e1, e2, e3, e4)
                (inr (
                  refl,
                  (
                    differs "active" word e0,
                    (
                      differs "trialing" word e1,
                      (
                        differs "past_due" word e2,
                        (differs "unpaid" word e3, (differs "canceled" word e4, tt)),
                      ),
                    ),
                  ),
                ))
        ]
      ]
    ]
  ]
]

pub status_after-IsStatusAfter : (evt : StripeEvent) → IsStatusAfter evt (status_after evt)
unfolding status_after
status_after-IsStatusAfter evt =
    elim (Bool-cases (str_eq evt.type "customer.subscription.deleted")) [
      | inl e ↦ rw e (inl ((eq_iff evt.type "customer.subscription.deleted").0 e, refl))
      | inr e ↦ rw e (
          inr (
            λ q. ground (arith, e, (eq_iff evt.type "customer.subscription.deleted").1 q),
            from_stripe-IsReported evt.status,
          ))
    ]
