-- ===== src/Tests/Data.antt =====
-- A small platform: one org on a plan, with usage, tokens and releases.
use viro_coolify.Base.{
  String, true, false, List, [], ◌∷◌, none, ◌≡◌, ◌≢◌, str_eq, arith, eq_iff, ◌-◌,
}
use viro_coolify.Base.Int.{pos}
use viro_coolify.Domain.Scalar.{Time}
use viro_coolify.Domain.Access.{RefreshToken, PasswordResetToken}
use viro_coolify.Domain.Billing.{
  Subscription, SubscriptionStatus, UsageRecord, Plan, PlatformSettings,
}
use viro_coolify.Domain.Deploy.{App, Release, ReleaseStatus}
use viro_coolify.Store.State.{MemoryStore}
use viro_coolify.Billing.Webhook.{StripeEvent}
use viro_coolify.Platform.Releases.{Snapshot}

pub text_ne : (a b : String) → str_eq a b ≡ false → a ≢ b
text_ne a b h = ground (arith, eq_iff a b)

abbrev pub thirty_days_before : Time → Time
thirty_days_before t = t - 2592000000000000

abbrev pub settings : PlatformSettings
settings = record {
  default_cpu = 0;
  default_memory_mb = pos 512;
  default_plan_id = "free";
  cpu_overcommit_factor = 0;
  memory_overcommit_factor = 0;
  default_region = "";
  regions = [];
  grace_past_due = true;
  default_spend_cap_cents = pos 0;
  keda_default_min_replicas = pos 0;
  keda_default_max_replicas = pos 3;
  keda_max_replicas_ceiling = pos 10;
  keda_polling_interval = pos 30;
  keda_cooldown_period = pos 300;
  keda_cpu_utilization = pos 70;
  keda_http_trigger = false;
}

abbrev pub empty : MemoryStore
empty = record {
  users = [];
  users_by_email = [];
  organizations = [];
  memberships = [];
  apps = [];
  builds = [];
  releases = [];
  databases = [];
  subscriptions = [];
  usage = [];
  projects = [];
  project_members = [];
  invitations = [];
  services = [];
  app_env = [];
  audit_events = [];
  domains = [];
  plans = [];
  templates = [];
  pricing = [];
  refresh_tokens = [];
  reset_tokens = [];
  api_tokens = [];
  settings = settings;
  processed_evts = [];
  meter_state = none;
  report_state = [];
}

abbrev pub plan : Plan
plan = record {
  id = "pro";
  name = "Pro";
  description = "";
  price_cents = pos 2000;
  currency = "usd";
  included_hours = pos 1;
  overage_per_hour_cents = pos 5;
  stripe_price_id = "price_1";
  max_cpu = 0;
  max_memory_mb = pos 0;
  max_apps = pos 0;
  is_default = false;
  sort_order = pos 1;
  active = true;
}

abbrev pub sub : Subscription
sub = record {
  org_id = "acme";
  plan_id = "pro";
  status = SubscriptionStatus.active;
  stripe_customer_id = "cus_1";
  stripe_subscription_id = "sub_1";
  stripe_subscription_item_id = "si_1";
  created_at = 1000;
  current_period_end = 9000000000000000;
}

abbrev pub compute : UsageRecord
compute = record {
  id = "u1";
  org_id = "acme";
  metric = "compute_cost_microcents";
  quantity = pos 7600;
  at = 8000000000000000;
}

abbrev pub storage : UsageRecord
storage = record compute { id = "u2"; metric = "storage_cost_microcents"; quantity = pos 1500 }

abbrev pub records : List UsageRecord
records = compute ∷ storage ∷ []

abbrev pub billed : MemoryStore
billed = record empty {
  subscriptions = ("acme", sub) ∷ [];
  plans = ("pro", plan) ∷ [];
  usage = ("acme", records) ∷ [];
}

abbrev pub deletion : StripeEvent
deletion = record {
  id = "evt_1";
  type = "customer.subscription.deleted";
  id2 = "sub_1";
  subscription = "";
  customer = "cus_1";
  client_reference = "";
  status = "canceled";
  current_period_end = pos 0;
  metadata_org_id = "acme";
  subscription_item_id = "";
  item_current_period_end = pos 0;
}

abbrev pub session : RefreshToken
session = record { id = "r1"; user_id = "ann"; revoked = false; created_at = 1; expires_at = 100 }

abbrev pub reset : PasswordResetToken
reset = record {
  id = "p1";
  user_id = "ann";
  token_hash = "h1";
  expires_at = 100;
  used_at = 0;
  created_at = 1;
}

abbrev pub with_tokens : MemoryStore
with_tokens = record empty {
  refresh_tokens = ("r1", session) ∷ [];
  reset_tokens = ("p1", reset) ∷ [];
}

abbrev pub app : App
app = record {
  id = "web";
  org_id = "acme";
  project_id = "main";
  name = "web";
  image = "web:2";
  git_repository = "";
  git_branch = "main";
  build_pack = "";
  cpu = 0;
  memory_mb = pos 256;
  status = "running";
  min_replicas = pos 0;
  max_replicas = pos 1;
  region = "";
  namespace = "acme";
  release = "web";
  host = "web.test";
  created_at = 1;
}

abbrev pub first_release : Release
first_release = record {
  id = "rel1";
  app_id = "web";
  org_id = "acme";
  revision = pos 1;
  image = "web:1";
  git_ref = "main";
  config_hash = "c1";
  cpu = 0;
  memory_mb = pos 256;
  status = ReleaseStatus.active;
  note = "";
  created_at = 1;
}

abbrev pub deployed : MemoryStore
deployed = record empty { releases = ("rel1", first_release) ∷ [] }

abbrev pub snapshot : Snapshot
snapshot = record { image = "web:2"; config_hash = "c2"; cpu = 0; memory_mb = pos 256 }
