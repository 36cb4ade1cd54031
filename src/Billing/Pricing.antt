-- ===== src/Billing/Pricing.antt =====
-- internal/billing/pricing.go: the price list and what workloads cost in an hour. Go's arithmetic on
-- float64 is a parameter.
use viro_coolify.Base.{String, Bool, not, ◌&&◌, List, [], ◌∷◌, none, some, str_eq, if◌then◌else◌}
use viro_coolify.Base.Int.{ℤ, pos, ltb_ℤ, leb_ℤ}
use viro_coolify.Base.Table.{Table, lookup, insert, select}
use viro_coolify.Base.Sort.{sort_by}
use viro_coolify.Domain.Scalar.{Time, Float64}
use viro_coolify.Domain.Billing.{PricingComponent}
use viro_coolify.Domain.Deploy.{App, Service, Database}
use viro_coolify.Billing.Invoice.{meter_metric_egress}
use viro_coolify.Store.Session.{M, pure, ◌>>=◌, read, write}
use viro_coolify.Store.Billing.{add_usage}
use viro_coolify.Store.Catalog.{list_pricing_components}
use viro_coolify.Store.Workloads.{list_apps_by_org, list_services_by_org, list_databases_by_org}

-- float64: sum, product, quotient, conversion from an integer, `x <= 0`, and int64(math.Round(x)).
pub record Floats : Type 0 where
  pub add : Float64 → Float64 → Float64
  pub mul : Float64 → Float64 → Float64
  pub div : Float64 → Float64 → Float64
  pub of_int : ℤ → Float64
  pub at_most_zero : Float64 → Bool
  pub round : Float64 → ℤ

-- `Service.PricingComponents`
unfoldable pub pricing_components : M (List PricingComponent)
pricing_components = read list_pricing_components >>= λ comps.
    pure (sort_by (λ a b. ltb_ℤ a.sort_order b.sort_order) (select (λ c. c.active) comps))

unfoldable pub prices_of : List PricingComponent → Table Float64 → Table Float64
prices_of [] m = m
prices_of (c ∷ cs) m = prices_of cs (insert c.key c.price_per_hour m)

-- `Service.priceMap`
unfoldable pub price_map : M (Table Float64)
unfolding pricing_components prices_of
price_map = pricing_components >>= λ comps. pure (prices_of comps [])

-- A missing key reads as 0.0, whose bits are 0.
abbrev pub price : String → Table Float64 → Float64
price key m = elim (lookup key m) [ none ↦ 0 | some p ↦ p ]

abbrev first_currency : List PricingComponent → String
first_currency [] = "usd"
first_currency (c ∷ cs) =
    let rest = first_currency cs in if not (str_eq c.currency "") then c.currency else rest

-- `Service.pricingCurrency`
unfoldable pub pricing_currency : M String
unfolding pricing_components
pricing_currency = pricing_components >>= λ comps. pure (first_currency comps)

unfoldable pub billable : String → String → Bool
billable release status = not (str_eq release "") && not (str_eq status "stopped")

module _ (fl : Floats) where
  -- The `hourly` of `orgHourlyCost`, which is also the formula of `HourlyCost`
  unfoldable pub hourly : Table Float64 → Float64 → ℤ → Float64
  hourly prices cpu mem_mb =
      fl.add (fl.mul cpu (price "cpu" prices))
        (fl.mul (fl.div (fl.of_int mem_mb) (fl.of_int (pos 1024))) (price "memory" prices))

  -- `Service.HourlyCost`
  unfoldable pub hourly_cost : Float64 → ℤ → M Float64
  unfolding price_map hourly
  hourly_cost cpu mem_mb = price_map >>= λ prices. pure (hourly prices cpu mem_mb)

  -- `hoursPerMonth` hours, in cents
  unfoldable pub monthly_cents : Float64 → ℤ
  monthly_cents x = fl.round (fl.mul (fl.mul x (fl.of_int (pos 730))) (fl.of_int (pos 100)))

  -- `Service.MonthlyCostCents`
  unfoldable pub monthly_cost_cents : Float64 → ℤ → M ℤ
  unfolding hourly_cost monthly_cents
  monthly_cost_cents cpu mem_mb = hourly_cost cpu mem_mb >>= λ x. pure (monthly_cents x)

  -- The sums over the workloads that accrue cost, from a sum so far
  unfoldable pub apps_cost : Table Float64 → Float64 → List App → Float64
  unfolding hourly billable
  apps_cost prices total [] = total
  apps_cost prices total (a ∷ xs) =
      apps_cost prices
        (if billable a.release a.status
          then fl.add total (hourly prices a.cpu a.memory_mb)
          else total)
        xs

  unfoldable pub services_cost : Table Float64 → Float64 → List Service → Float64
  unfolding hourly billable
  services_cost prices total [] = total
  services_cost prices total (v ∷ vs) =
      services_cost prices
        (if billable v.release v.status
          then fl.add total (hourly prices v.cpu v.memory_mb)
          else total)
        vs

  unfoldable pub databases_cost : Table Float64 → Float64 → List Database → Float64
  unfolding hourly billable
  databases_cost prices total [] = total
  databases_cost prices total (d ∷ ds) =
      databases_cost prices
        (if billable d.release d.status
          then fl.add total (hourly prices d.cpu d.memory_mb)
          else total)
        ds

  -- `Service.orgHourlyCost`
  unfoldable pub org_hourly_cost : String → M Float64
  unfolding price_map apps_cost services_cost databases_cost
  org_hourly_cost org_id = price_map >>= λ prices. read (λ s. list_apps_by_org s org_id) >>= λ apps.
      read (λ s. list_services_by_org s org_id) >>= λ svcs.
      read (λ s. list_databases_by_org s org_id) >>= λ dbs.
      pure (databases_cost prices (services_cost prices (apps_cost prices 0 apps) svcs) dbs)

  unfoldable pub volumes_cost : Float64 → Float64 → List Database → Float64
  unfolding billable
  volumes_cost rate total [] = total
  volumes_cost rate total (d ∷ ds) =
      volumes_cost rate
        (if ltb_ℤ (pos 0) d.storage_gb && billable d.release d.status
          then fl.add total (fl.mul (fl.of_int d.storage_gb) rate)
          else total)
        ds

  -- `Service.orgStorageHourlyCost`
  unfoldable pub org_storage_hourly_cost : String → M Float64
  unfolding price_map volumes_cost
  org_storage_hourly_cost org_id = price_map >>= λ prices.
      let rate = price "storage" prices in
      if fl.at_most_zero rate
      then pure 0
      else (read (λ s. list_databases_by_org s org_id) >>= λ dbs. pure (volumes_cost rate 0 dbs))

  -- `Service.OrgMonthlyEstimateCents`
  unfoldable pub org_monthly_estimate_cents : String → M ℤ
  unfolding org_hourly_cost monthly_cents
  org_monthly_estimate_cents org_id = org_hourly_cost org_id >>= λ x. pure (monthly_cents x)

  unfoldable pub micro_cents : Float64 → ℤ
  micro_cents x = fl.round (fl.mul (fl.mul x (fl.of_int (pos 100))) (fl.of_int (pos 1000)))

  -- `Service.RecordEgressGB`, with the new id and the time as arguments
  unfoldable pub record_egress_gb : String → Float64 → String → Time → M (Unit {0})
  unfolding price_map micro_cents
  record_egress_gb org_id gb id now =
      if fl.at_most_zero gb
      then pure tt
      else (price_map >>= λ prices.
          let rate = price "egress" prices in
          let quantity = micro_cents (fl.mul gb rate) in
          if fl.at_most_zero rate
          then pure tt
          else if leb_ℤ quantity (pos 0)
          then pure tt
          else write (λ s. add_usage s (record {
            id = id;
            org_id = org_id;
            metric = meter_metric_egress;
            quantity = quantity;
            at = now;
          })))
