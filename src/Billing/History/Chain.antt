-- ===== src/Billing/History/Chain.antt =====
-- internal/billing/invoices.go: the periods of the history follow one another.
use viro_coolify.Base.{
  ℕ, zero, suc, ◌≤◌, String, Bool, true, false, List, [], ◌∷◌, Option, none, some, Error, Result,
  ok, err, length, if◌then◌else◌, ◌≡◌, ◌⊎◌, refl, ap, inl, inr, is_not_found, ltb, arith,
}
use viro_coolify.Base.Int.{ℤ, pos, negsuc}
use mathlib.Core.Path.{subst}
use viro_coolify.Domain.Scalar.{Time}
use viro_coolify.Domain.Billing.{Plan, Subscription, UsageRecord}
use viro_coolify.Store.State.{MemoryStore}
use viro_coolify.Store.Page.{all_rows}
use viro_coolify.Store.Session.{M, World, pure, throw, ◌>>=◌, look, read}
use viro_coolify.Store.Session.Outcomes.{
  Ends, Ends-ok, pure-Ends, if-Ends, throw-Ends, any-Ends, >>=-Ends, stronger-Ends, weaker-Ends,
  fact-Ends, look_read-Ends,
}
use viro_coolify.Store.Billing.{list_usage_by_org_since, get_subscription}
use viro_coolify.Billing.Account.{plan_by_id, subscribed_plan}
use viro_coolify.Billing.Dunning.{InvoiceStatus, invoice_status}
use viro_coolify.Billing.Pricing.{pricing_currency}
use viro_coolify.Billing.History.{
  PeriodInvoice, periods_for, current_period_end, period_invoice, is_last, history, invoice_history,
}

abbrev Anything : MemoryStore → Type 0
Anything s = Unit {0}

abbrev is_open : InvoiceStatus → Bool
is_open InvoiceStatus.open_period = true
is_open _ = false

-- The number of periods that a limit asks for: 12 where it is not positive, and 24 at most.
abbrev pub asked : ℤ → ℕ
asked (negsuc n) = 12
asked (pos zero) = 12
asked (pos (suc n)) = if ltb 24 (suc n) then 24 else suc n

periods_for_lem : (limit : ℤ) → periods_for limit ≡ asked limit
unfolding periods_for
periods_for_lem (negsuc n) = ground arith
periods_for_lem (pos zero) = ground arith
periods_for_lem (pos (suc n)) = ground arith

at_most : (limit : ℤ) → asked limit ≤ 24
at_most (negsuc n) = omega arith
at_most (pos zero) = omega arith
at_most (pos (suc n)) = ground arith

abbrev pub subscription_of : Result Subscription → Option Subscription
subscription_of (ok sub) = some sub
subscription_of (err e) = none

module _ (month_before : Time → Time) where
  -- Each period is the month before the time where the one before it starts; the first may be open.
  abbrev pub Chained : Bool → Time → List PeriodInvoice → Type 0
  Chained current end [] = Unit {0}
  Chained current end (pi ∷ pis) =
      (pi.period_end ≡ end)
      × (pi.period_start ≡ month_before end)
      × (is_open pi.status ≡ current)
      × Chained false (month_before end) pis

  open_status :
      (sub : Option Subscription) (current : Bool) → is_open (invoice_status sub current) ≡ current
  unfolding invoice_status
  open_status none true = refl
  open_status none false = refl
  open_status (some sub) true = refl
  open_status (some sub) false = ground arith

  module _ (sub : Option Subscription) (plan : Option Plan) (org_id currency : String) where
    abbrev row : Bool → Time → List UsageRecord → PeriodInvoice
    row current end records = period_invoice month_before sub plan currency current end records

    row-Chained :
        (current : Bool) (end : Time) (records : List UsageRecord) (rest : List PeriodInvoice)
        → Chained false (month_before end) rest
        → Chained current end (row current end records ∷ rest)
    unfolding period_invoice
    row-Chained current end records rest h = (refl, refl, open_status sub current, h)

    history-Chained :
        (left : ℕ) (current : Bool) (end : Time)
        → Ends Anything
            (history month_before org_id sub plan currency left current end)
            (λ pis _. Chained current end pis × (length pis ≤ left))
    unfolding history
    history-Chained zero current end = pure-Ends _ _ [] (λ s i. (tt, omega arith))
    history-Chained (suc left) current end =
        >>=-Ends {A = List UsageRecord} _ (λ _. Anything) _
          (read (λ s. list_usage_by_org_since s org_id (month_before end) all_rows)) _
          (any-Ends _ _)
          (λ records.
            if-Ends _ _ (is_last month_before current (row current end records)) _ _
              (λ _.
                pure-Ends _ _ (row current end records ∷ [])
                  (λ s i. (row-Chained current end records [] tt, omega arith)))
              (λ _.
                >>=-Ends {A = List PeriodInvoice} _
                  (λ rest _. Chained false (month_before end) rest × (length rest ≤ left)) _ _ _
                  (history-Chained left false (month_before end))
                  (λ rest.
                    pure-Ends _ _ (row current end records ∷ rest)
                      (λ s i. (row-Chained current end records rest i.0, omega (arith, i.1))))))

  module _ (org_id : String) (r : Result Subscription) where
    abbrev Before : MemoryStore → Type 0
    Before s = get_subscription s org_id ≡ r

    seen-Ends :
        (q : Result Subscription)
        → (q ≡ r) ⊎ (q ≡ err Error.transient)
        → (let next : M (Option Subscription × Option Plan) = elim q [
          | ok sub ↦ plan_by_id sub.plan_id >>= λ plan. pure (some sub, plan)
          | err e ↦ if is_not_found e then pure (none, none) else throw e
        ] in
            Ends Anything next (λ p _. p.0 ≡ subscription_of r))
    seen-Ends (ok sub) h =
        >>=-Ends {A = Option Plan} _ (λ _. Anything) _ (plan_by_id sub.plan_id) _ (any-Ends _ _)
          (λ plan. pure-Ends _ _ (some sub, plan) (λ s i. found h))
      where
        found :
            (Result.ok sub ≡ r) ⊎ (Result.ok sub ≡ err Error.transient)
            → some sub ≡ subscription_of r
        found (inl e) = ap subscription_of e
        found (inr e) = ground (arith, e)
    seen-Ends (err e) h =
        if-Ends _ _ (is_not_found e) _ _ (λ n. pure-Ends _ _ (none, none) (λ s i. missing h n))
          (λ _. throw-Ends _ _ e)
      where
        missing :
            (◌≡◌ {A = Result Subscription} (err e) r)
              ⊎ ◌≡◌ {A = Result Subscription} (err e) (err Error.transient)
            → is_not_found e ≡ true
            → none ≡ subscription_of r
        missing (inl q) n = ap subscription_of q
        missing (inr q) n = ground (arith, q, n)

    subscribed_plan-Ends : Ends Before (subscribed_plan org_id) (λ p _. p.0 ≡ subscription_of r)
    unfolding subscribed_plan
    subscribed_plan-Ends =
        >>=-Ends {A = Result Subscription} _ (λ q _. (q ≡ r) ⊎ (q ≡ err Error.transient)) _
          (look (read (λ s. get_subscription s org_id))) _
          (look_read-Ends _ _ _ (λ s b. inl b) (λ s b. inr refl))
          (λ q.
            stronger-Ends _ _ (λ s. Anything s × ((q ≡ r) ⊎ (q ≡ err Error.transient))) _
              (fact-Ends _ _ _ _ (seen-Ends q)) (λ s h. (tt, h)))

    invoice_history-Ends :
        (now : Time) (limit : ℤ)
        → Ends Before (invoice_history month_before now org_id limit) (λ pis _.
          Chained true (current_period_end now (subscription_of r)) pis
          × (length pis ≤ periods_for limit))
    unfolding invoice_history
    invoice_history-Ends now limit =
        >>=-Ends {A = Option Subscription × Option Plan} _
          (λ p s. Anything s × (p.0 ≡ subscription_of r)) _ (subscribed_plan org_id) _
          (weaker-Ends _ _ (λ p _. p.0 ≡ subscription_of r) _ subscribed_plan-Ends
            (λ p s e. (tt, e)))
          (λ p. fact-Ends _ _ _ _ (λ e. rw⁻¹ e (
            >>=-Ends {A = String} _ (λ _. Anything) _ pricing_currency _ (any-Ends _ _)
              (λ currency.
                history-Chained p.0 p.1 org_id currency (periods_for limit) true
                  (current_period_end now p.0)))))

  -- The invoices that InvoiceHistory returns, whatever calls fail before, are of months that
  -- follow one another back from the end of the current period, each ending where the one
  -- before it starts; the first and no other is open, and there are no more of them than the
  -- limit asks for (12 where it is not positive) and than 24.
  pub invoice_history-Chained :
      (now : Time) (org_id : String) (limit : ℤ) (w : World) (pis : List PeriodInvoice)
      → (invoice_history month_before now org_id limit w).0 ≡ ok pis
      → Chained true
          (current_period_end now (subscription_of (get_subscription w.store org_id)))
          pis
        × (length pis ≤ asked limit)
        × (asked limit ≤ 24)
  invoice_history-Chained now org_id limit w pis done =
      let (c, l) =
        Ends-ok _ _ _ w pis
          (invoice_history-Ends org_id (get_subscription w.store org_id) now limit) refl done in
      (c, subst (λ n. length pis ≤ n) (periods_for_lem limit) l, at_most limit)
