-- ===== src/Billing/Plans.antt =====
-- internal/billing/catalog.go and quota.go: the catalog of plans and the limits of a plan.
use viro_coolify.Base.{String, List, [], ◌∷◌, Option, none, some, ok, err}
use viro_coolify.Base.Int.{ℤ, pos, ltb_ℤ}
use viro_coolify.Base.Table.{find, select}
use viro_coolify.Base.Sort.{sort_by}
use viro_coolify.Domain.Scalar.{Float64}
use viro_coolify.Domain.Billing.{Plan}
use viro_coolify.Store.Session.{M, pure, ◌>>=◌, look, read}
use viro_coolify.Store.Catalog.{get_plan, list_plans}

pub record Limits : Type 0 where
  pub max_cpu : Float64
  pub max_memory_mb : ℤ
  pub max_apps : ℤ

-- `Service.Catalog`
unfoldable pub catalog : M (List Plan)
catalog = read list_plans >>= λ plans.
    pure (sort_by (λ a b. ltb_ℤ a.sort_order b.sort_order) (select (λ p. p.active) plans))

abbrev pub first_plan : List Plan → Option Plan
first_plan [] = none
first_plan (p ∷ ps) = some p

-- The default among the plans, or the first of them
unfoldable pub default_of : List Plan → Option Plan
default_of ps = elim (find (λ p. p.is_default) ps) [ some p ↦ some p | none ↦ first_plan ps ]

-- `Service.defaultPlan`
unfoldable pub default_plan : M (Option Plan)
unfolding default_of
default_plan =
    look (read list_plans) >>= λ r. elim r [ ok ps ↦ pure (default_of ps) | err e ↦ pure none ]

-- `limitsOf`
unfoldable pub limits_of : Plan → Limits
limits_of p = record { max_cpu = p.max_cpu; max_memory_mb = p.max_memory_mb; max_apps = p.max_apps }

-- Go's zero limits, where there is no plan at all
abbrev pub limits_or_zero : Option Plan → Limits
limits_or_zero none = record { max_cpu = 0; max_memory_mb = pos 0; max_apps = pos 0 }
limits_or_zero (some p) = limits_of p

-- `Service.PlanLimits`
unfoldable pub plan_limits : String → M Limits
unfolding default_plan limits_of
plan_limits plan_id = look (read (λ s. get_plan s plan_id)) >>= λ r. elim r [
  | ok p ↦ pure (limits_of p)
  | err e ↦ default_plan >>= λ d. pure (limits_or_zero d)
]
