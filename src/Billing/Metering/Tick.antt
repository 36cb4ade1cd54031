-- ===== src/Billing/Metering/Tick.antt =====
-- internal/billing/pricing.go: a tick of the meter, which records what each org costs in each hour that
-- is due.
pub mod Works
pub mod CatchUp
use Prim.Native.String.{◌++◌ as join}
use viro_coolify.Base.{
  ℕ, zero, suc, ◌+◌, ◌-◌, String, Bool, true, false, ◌&&◌, List, [], ◌∷◌, Option, none, some, Error,
  Result, ok, err, if◌then◌else◌,
}
use viro_coolify.Base.Int.{ℤ, pos, leb_ℤ}
use viro_coolify.Domain.Scalar.{Time, Float64}
use viro_coolify.Domain.Access.{Organization}
use viro_coolify.Domain.Billing.{UsageRecord}
use viro_coolify.Store.Session.{M, pure, ◌>>=◌, look, read, update}
use viro_coolify.Store.Billing.{add_usage_if_absent}
use viro_coolify.Store.Tenants.{list_all_orgs}
use viro_coolify.Billing.Metering.{truncate, hours_to_meter, persist_and_return}
use viro_coolify.Billing.Invoice.{meter_metric, meter_metric_storage}
use viro_coolify.Billing.Pricing.{Floats, org_hourly_cost, org_storage_hourly_cost, micro_cents}

-- The variables of `MeterUsage`
pub record Progress : Type 0 where
  pub written : ℕ
  pub first : Option Error
  pub last_done : Time
  pub fully_ok : Bool

abbrev pub noted : Error → Progress → Progress
noted e p = record p { first = elim p.first [ none ↦ some e | some f ↦ some f ] }

-- `hour` is written by `format`, Go's t.UTC().Format("20060102T15").
module _ (format : Time → String) where
  unfoldable pub meter_bucket_id : String → Time → String
  meter_bucket_id org_id h = join "meter-" (join org_id (join "-" (format h)))

  unfoldable pub dim_bucket_id : String → String → Time → String
  dim_bucket_id org_id metric h =
      join "meter-" (join metric (join "-" (join org_id (join "-" (format h)))))

-- `cancel` tells the error of the context, if any, when the turn of an org comes in an hour.
module _ (fl : Floats) (format : Time → String) (cancel : Time → String → Option Error) where
  -- `Service.writeCostBucket`
  unfoldable pub write_cost_bucket : String → String → String → Float64 → Time → M ℕ
  unfolding micro_cents
  write_cost_bucket id org_id metric cost h =
      if leb_ℤ (micro_cents fl cost) (pos 0)
      then pure 0
      else (update (λ s. add_usage_if_absent s (record {
        id = id;
        org_id = org_id;
        metric = metric;
        quantity = micro_cents fl cost;
        at = h;
      }))
          >>= λ inserted. pure (if inserted then 1 else 0))

  -- `Service.meterOrgHour`. On an error its count is not used.
  unfoldable pub meter_org_hour : String → Time → M ℕ
  unfolding write_cost_bucket meter_bucket_id dim_bucket_id
  meter_org_hour org_id h = org_hourly_cost fl org_id >>= λ compute.
      write_cost_bucket (meter_bucket_id format org_id h) org_id meter_metric compute h >>= λ n.
      org_storage_hourly_cost fl org_id >>= λ storage.
      write_cost_bucket (dim_bucket_id format org_id meter_metric_storage h) org_id
        meter_metric_storage storage h
      >>= λ m. pure (n + m)

  -- The loop over the orgs: the progress, whether the hour is complete, and whether the context ended.
  unfoldable pub meter_orgs :
      Time → List Organization → Progress → Bool → M (Progress × Bool × Bool)
  unfolding meter_org_hour
  meter_orgs h [] p hour_ok = pure (p, hour_ok, false)
  meter_orgs h (o ∷ os) p hour_ok = elim (cancel h o.id) [
    | some e ↦ pure (noted e p, hour_ok, true)
    | none ↦ look (meter_org_hour o.id h) >>= λ r. elim r [
      | ok n ↦ meter_orgs h os (record p { written = p.written + n }) hour_ok
      | err e ↦ meter_orgs h os (noted e p) false
    ]
  ]

  abbrev pub advanced : Time → Bool → Progress → Progress
  advanced h hour_ok p =
      if p.fully_ok && hour_ok then record p { last_done = h } else record p { fully_ok = false }

  -- The loop over the hours
  unfoldable pub meter_hours : List Organization → List Time → Progress → M Progress
  unfolding meter_orgs
  meter_hours orgs [] p = pure p
  meter_hours orgs (h ∷ hs) p = meter_orgs h orgs p true >>= λ r.
      if r.2 then pure r.0 else meter_hours orgs hs (advanced h r.1 r.0)

  abbrev pub at_start : Progress
  at_start = record { written = 0; first = none; last_done = 0; fully_ok = true }

  -- `Service.MeterUsage`: the count of records, and the first error.
  unfoldable pub meter_usage : Time → M (ℕ × Option Error)
  unfolding meter_hours
  meter_usage now = read list_all_orgs >>= λ orgs. hours_to_meter (truncate now) >>= λ hours.
      meter_hours orgs hours at_start >>= λ p.
      persist_and_return p.last_done p.first >>= λ e. pure (p.written, e)
