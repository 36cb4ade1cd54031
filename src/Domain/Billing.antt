-- ===== src/Domain/Billing.antt =====
-- internal/domain/domain.go: plans, prices, subscriptions, usage and the platform settings.
use Prim.Native.String.{String}
use mathlib.Core.Bool.{Bool}
use mathlib.Core.List.{List}
use text.Mathlib.Text.{◌==◌}
use viro_coolify.Base.Tests.{if◌then◌else◌}
use viro_coolify.Base.Int.{ℤ}
use viro_coolify.Domain.Scalar.{Time, Float64}

-- `SubscriptionStatus`. A stored text outside the constants is `other`.
pub data SubscriptionStatus : Type 0 where
  active trialing incomplete past_due unpaid canceled : SubscriptionStatus
  other : String → SubscriptionStatus

pub record Subscription : Type 0 where
  pub org_id : String
  pub plan_id : String
  pub status : SubscriptionStatus
  pub stripe_customer_id : String
  pub stripe_subscription_id : String
  pub stripe_subscription_item_id : String
  pub created_at : Time
  pub current_period_end : Time

pub record UsageRecord : Type 0 where
  pub id : String
  pub org_id : String
  pub metric : String
  pub quantity : ℤ
  pub at : Time

pub record MeterState : Type 0 where
  pub last_metered_hour : Time

pub record UsageReportState : Type 0 where
  pub org_id : String
  pub period_start : Time
  pub reported_cents : ℤ

pub record Plan : Type 0 where
  pub id : String
  pub name : String
  pub description : String
  pub price_cents : ℤ
  pub currency : String
  pub included_hours : ℤ
  pub overage_per_hour_cents : ℤ
  pub stripe_price_id : String
  pub max_cpu : Float64
  pub max_memory_mb : ℤ
  pub max_apps : ℤ
  pub is_default : Bool
  pub sort_order : ℤ
  pub active : Bool

pub record PricingComponent : Type 0 where
  pub key : String
  pub name : String
  pub unit : String
  pub price_per_hour : Float64
  pub currency : String
  pub active : Bool
  pub sort_order : ℤ

pub record PlatformSettings : Type 0 where
  pub default_cpu : Float64
  pub default_memory_mb : ℤ
  pub default_plan_id : String
  pub cpu_overcommit_factor : Float64
  pub memory_overcommit_factor : Float64
  pub default_region : String
  pub regions : List String
  pub grace_past_due : Bool
  pub default_spend_cap_cents : ℤ
  pub keda_default_min_replicas : ℤ
  pub keda_default_max_replicas : ℤ
  pub keda_max_replicas_ceiling : ℤ
  pub keda_polling_interval : ℤ
  pub keda_cooldown_period : ℤ
  pub keda_cpu_utilization : ℤ
  pub keda_http_trigger : Bool

-- `SubscriptionStatusFromStripe`
unfoldable pub from_stripe : String → SubscriptionStatus
from_stripe s =
    if s == "active"
    then active
    else if s == "trialing"
    then trialing
    else if s == "past_due"
    then past_due
    else if s == "unpaid"
    then unpaid
    else if s == "canceled"
    then canceled
    else incomplete
