-- ===== src/Billing/Metering/Tick/Works.antt =====
-- internal/billing/pricing.go: where no call fails, the loops of a tick reach their end.
use viro_coolify.Base.{
  ℕ, ◌+◌, String, Bool, true, false, List, [], ◌∷◌, ◌++◌, Option, none, Error, Result, ok, ◌≡◌,
  refl, ◌∙◌, ap, inl, inr, Bool-cases, str_eq, if◌then◌else◌,
}
use viro_coolify.Base.Int.{pos, leb_ℤ}
use viro_coolify.Base.Table.{Table, insert, any}
use viro_coolify.Domain.Scalar.{Time, Float64}
use viro_coolify.Domain.Access.{Organization}
use viro_coolify.Domain.Billing.{UsageRecord, PricingComponent}
use viro_coolify.Domain.Deploy.{App, Service, Database}
use viro_coolify.Store.State.{MemoryStore}
use viro_coolify.Store.Session.{
  Increment, M, calm, pure, continue_with, ◌>>=◌, read, update, may_fail,
}
use viro_coolify.Store.Billing.{add_usage_if_absent, usage_of}
use viro_coolify.Store.Catalog.{list_pricing_components}
use viro_coolify.Store.Workloads.{list_apps_by_org, list_services_by_org, list_databases_by_org}
use viro_coolify.Billing.Invoice.{meter_metric, meter_metric_storage}
use viro_coolify.Billing.Pricing.{
  Floats, pricing_components, price_map, org_hourly_cost, org_storage_hourly_cost, micro_cents,
}
use viro_coolify.Billing.Metering.Tick.{
  Progress, write_cost_bucket, meter_org_hour, meter_orgs, meter_hours,
}

-- Where no call fails, the operation succeeds and leaves the watermark as it is.
abbrev pub Kept : MemoryStore → MemoryStore → Type 0
Kept s t = t.meter_state ≡ s.meter_state

record Works {A : Type 0} (m : M A) : Type 0 where
  works :
      (s : MemoryStore) (is : List Increment)
      → (a : A) × (t : MemoryStore) × (m (calm s is) ≡ (ok a, calm t is)) × Kept s t

pure-Works : {A : Type 0} (a : A) → Works (pure a)
pure-Works a = record { works = λ s is. (a, s, refl, refl) }

>>=-Works :
    {A B : Type 0} (m : M A) (f : A → M B) → Works m → ((a : A) → Works (f a)) → Works (m >>= f)
>>=-Works m f h k = record {
  works = λ s is.
      let (a, t, e, q) = h.works s is in
      let (b, u, g, r) = (k a).works t is in (b, u, ap (λ p. continue_with p f) e ∙ g, r ∙ q);
}

read-Works :
    {A : Type 0} (f : MemoryStore → Result A)
    → ((s : MemoryStore) → (a : A) × (f s ≡ ok a))
    → Works (read f)
unfolding read may_fail
read-Works f h = record { works = λ s is. ((h s).0, s, ap (λ r. (r, calm s is)) (h s).1, refl) }

if-Works : {A : Type 0} (b : Bool) (m n : M A) → Works m → Works n → Works (if b then m else n)
if-Works true m n h k = h
if-Works false m n h k = k

price_map-Works : Works price_map
unfolding price_map pricing_components list_pricing_components
price_map-Works =
    >>=-Works {A = List PricingComponent} _ _
      (>>=-Works {A = List PricingComponent} _ _ (read-Works _ (λ s. (_, refl)))
        (λ cs. pure-Works _))
      (λ cs. pure-Works _)

-- The last hour of a list, if there is one.
abbrev pub last_of : Time → List Time → Time
last_of h [] = h
last_of h (k ∷ ks) = last_of k ks

-- The variables of the loop after hours that were all complete
abbrev pub on_track : ℕ → Time → Progress
on_track n h = record { written = n; first = none; last_done = h; fully_ok = true }

module _ (fl : Floats) (format : Time → String) (cancel : Time → String → Option Error) where
  org_hourly_cost-Works : (org_id : String) → Works (org_hourly_cost fl org_id)
  unfolding org_hourly_cost list_apps_by_org list_services_by_org list_databases_by_org
  org_hourly_cost-Works org_id = >>=-Works {A = Table Float64} _ _ price_map-Works (λ prices.
      >>=-Works {A = List App} _ _ (read-Works _ (λ s. (_, refl))) (λ apps.
        >>=-Works {A = List Service} _ _ (read-Works _ (λ s. (_, refl))) (λ svcs.
          >>=-Works {A = List Database} _ _ (read-Works _ (λ s. (_, refl))) (λ dbs. pure-Works _))))

  org_storage_hourly_cost-Works : (org_id : String) → Works (org_storage_hourly_cost fl org_id)
  unfolding org_storage_hourly_cost list_databases_by_org
  org_storage_hourly_cost-Works org_id =
      >>=-Works {A = Table Float64} _ _ price_map-Works (λ prices.
        if-Works _ _ _ (pure-Works _)
          (>>=-Works {A = List Database} _ _ (read-Works _ (λ s. (_, refl))) (λ dbs. pure-Works _)))

  abbrev added : UsageRecord → MemoryStore → MemoryStore
  added u s = record s { usage = insert u.org_id (usage_of s u.org_id ++ (u ∷ [])) s.usage }

  add_usage_if_absent-Works : (u : UsageRecord) → Works (update (λ s. add_usage_if_absent s u))
  unfolding update may_fail add_usage_if_absent
  add_usage_if_absent-Works u = record {
    works = λ s is. elim (Bool-cases (any (λ r. str_eq r.id u.id) (usage_of s u.org_id))) [
      | inl e ↦ (false, s, rw (add_usage_if_absent, e) refl, refl)
      | inr e ↦ (true, added u s, rw (add_usage_if_absent, e) refl, refl)
    ];
  }

  write_cost_bucket-Works :
      (id org_id metric : String) (cost : Float64) (h : Time)
      → Works (write_cost_bucket fl format cancel id org_id metric cost h)
  unfolding write_cost_bucket
  write_cost_bucket-Works id org_id metric cost h =
      if-Works (leb_ℤ (micro_cents fl cost) (pos 0)) _ _ (pure-Works 0) (
        >>=-Works {A = Bool} _ _
          (add_usage_if_absent-Works (record {
            id = id;
            org_id = org_id;
            metric = metric;
            quantity = micro_cents fl cost;
            at = h;
          }))
          (λ inserted. pure-Works _))

  meter_org_hour-Works :
      (org_id : String) (h : Time) → Works (meter_org_hour fl format cancel org_id h)
  unfolding meter_org_hour
  meter_org_hour-Works org_id h =
      >>=-Works {A = Float64} _ _ (org_hourly_cost-Works org_id) (λ compute.
        >>=-Works {A = ℕ} _ _ (write_cost_bucket-Works _ org_id meter_metric compute h) (λ n.
          >>=-Works {A = Float64} _ _ (org_storage_hourly_cost-Works org_id) (λ storage.
            >>=-Works {A = ℕ} _ _ (write_cost_bucket-Works _ org_id meter_metric_storage storage h)
              (λ m. pure-Works _))))

  module _ (going : (h : Time) (id : String) → cancel h id ≡ none) where
    meter_orgs_lem :
        (h : Time) (os : List Organization) (p : Progress) (s : MemoryStore) (is : List Increment)
        → (n : ℕ) × (t : MemoryStore) × (meter_orgs fl format cancel h os p true (calm s is)
            ≡ (ok (record p { written = n }, true, false), calm t is))
          × Kept s t
    unfolding meter_orgs
    meter_orgs_lem h [] p s is = (p.written, s, refl, refl)
    meter_orgs_lem h (o ∷ os) p s is =
        let (m, t, e, q) = (meter_org_hour-Works o.id h).works s is in
        let (n, u, g, r) = meter_orgs_lem h os (record p { written = p.written + m }) t is in
        (n, u, rw (meter_orgs, going h o.id, e) g, r ∙ q)

    pub meter_hours_lem :
        (orgs : List Organization) (hs : List Time) (n : ℕ) (d : Time) (s : MemoryStore)
        (is : List Increment)
        → (m : ℕ) × (t : MemoryStore) × (meter_hours fl format cancel orgs hs
              (on_track n d)
              (calm s is)
            ≡ (ok (on_track m (last_of d hs)), calm t is))
          × Kept s t
    unfolding meter_hours
    meter_hours_lem orgs [] n d s is = (n, s, refl, refl)
    meter_hours_lem orgs (k ∷ ks) n d s is =
        let (m, t, e, q) = meter_orgs_lem k orgs (on_track n d) s is in
        let (o, u, g, r) = meter_hours_lem orgs ks m k t is in (o, u, rw (meter_hours, e) g, r ∙ q)
