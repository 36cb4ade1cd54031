-- ===== src/Tests/Cluster.antt =====
-- The theorems on gateways, the ticks of the meter, the index of users and the audit log at concrete inputs.
use Prim.Native.String.{◌++◌ as join, len}
use text.Mathlib.TextPositions.{len-append}
use viro_coolify.Base.{
  take, drop, str_eq, ℕ, zero, suc, ◌+◌, ◌*◌, String, true, false, [], ◌∷◌, none, some, not_found,
  Result, ok, or_error, ◌==◌, ◌≡◌, ◌↔◌, refl, ◌∙◌, ap, inr, arith,
}
use viro_coolify.Base.Int.{ℤ, pos, pos_part}
use viro_coolify.Base.Table.{select, Table, lookup, insert, erase, values, contains}
use viro_coolify.Domain.Access.{User, AuditEvent, AuditFilter}
use viro_coolify.Store.Audit.{list_audit_events}
use viro_coolify.Store.Audit.Paging.{newest_first, list_audit_events_lem}
use viro_coolify.Store.State.{MemoryStore}
use viro_coolify.Store.Session.Reads.{Leaves}
use viro_coolify.Store.Users.{create_user, update_user, get_user_by_email}
use viro_coolify.Store.Users.Index.{
  HasAddress, Indexed, users-Indexed, get_user_by_email-HasAddress,
}
use viro_coolify.Kube.Shards.{Config, Gateway, Listener, gateway_shard_name, gateway_shard_index}
use viro_coolify.Kube.Shards.Naming.{gateway_shard_index-gateway_shard_name}
use viro_coolify.Kube.Placement.{K, Api, Texts, ensure_gateway_listener}
use viro_coolify.Kube.Placement.Cluster.{rerun, Cluster}
use viro_coolify.Kube.Placement.Ceiling.{Within, ensure_gateway_listener-Within}
use viro_coolify.Billing.Pricing.{Floats}
use viro_coolify.Billing.Metering.{hour, truncate}
use viro_coolify.Billing.Metering.Tick.CatchUp.{after_ticks, after_ticks-watermark}
use viro_coolify.Tests.Data.{empty}

-- Gateways. A number is written by so many strokes.

strokes : ℕ → String
strokes zero = ""
strokes (suc n) = join "|" (strokes n)

abbrev count : String → Result ℤ
count s = ok (pos (len s))

len-strokes : (n : ℕ) → len (strokes n) ≡ n
unfolding strokes
len-strokes zero = refl
len-strokes (suc n) = len-append "|" (strokes n) ∙ (ap (λ k. 1 + k) (len-strokes n) ∙ omega arith)

gateway_shard_index-gateway_shard_name_example :
    gateway_shard_index count "edge" (gateway_shard_name strokes "edge" 2) ≡ some 2
gateway_shard_index-gateway_shard_name_example =
    gateway_shard_index-gateway_shard_name strokes count "edge" 2
      (ap (λ n. ok (pos n)) (len-strokes 2))

abbrev put : String → Gateway → K (Table Gateway) (Unit {0})
put name g s = (ok tt, insert name g s)

abbrev server : Api (Table Gateway)
server = record {
  list = λ s. (ok s, s);
  get = λ name s. (or_error not_found (lookup name s), s);
  create = put;
  update = put;
  delete = λ name s. (ok tt, erase name s);
  retry_on_conflict = λ m s. rerun 4 m s;
}

abbrev server_cluster : Cluster server
server_cluster = record {
  gateways = λ s. s;
  list_view = λ s. refl;
  get_view = λ name s. refl;
  create_view = λ name g s. inr refl;
  update_view = λ name g s. inr refl;
  retry_runs = λ m s. (4, refl);
}

abbrev texts : Texts
texts = record {
  to_lower = λ t. t;
  trim_space = λ t. t;
  itoa = strokes;
  atoi = count;
  domain_slug = λ t. t;
}

abbrev config : Config
config = record {
  gateway_name = "edge";
  shard_max_listeners = pos 3;
  shard_lb_sharing = false;
  connected = true;
}

abbrev wildcard : Listener
wildcard = record { name = "https"; hostname = "*.example.org"; cert_secret = "wildcard" }

abbrev edge : Table Gateway
edge =
    (
      "edge",
      record {
        class_name = "eg";
        infrastructure = none;
        is_shard = false;
        listeners = wildcard ∷ [];
      },
    )
    ∷ []

edge-Within : Within server texts config server_cluster edge
unfolding values
edge-Within = (omega arith, tt)

ensure_gateway_listener-Within_example :
    Within server texts config server_cluster
      (ensure_gateway_listener server texts config "shop.example.com" "" edge).1
ensure_gateway_listener-Within_example =
    ensure_gateway_listener-Within server texts config server_cluster "shop.example.com" "" edge
      edge-Within

-- Ticks of the meter

abbrev whole : Floats
whole = record {
  add = λ a b. a + b;
  mul = λ a b. a * b;
  div = λ a b. a;
  of_int = λ n. pos_part n;
  at_most_zero = λ a. a == 0;
  round = λ a. pos a;
}

abbrev metered : MemoryStore
metered = record empty { meter_state = some (record { last_metered_hour = 5 * hour }) }

sixty : truncate (60 * hour) ≡ 60 * hour
unfolding truncate
sixty = refl

after_ticks-watermark_example :
    (after_ticks whole (λ t. "h") (λ t o. none) (λ t o. refl) 2 (60 * hour) [] metered).meter_state
    ≡ some (record { last_metered_hour = 60 * hour })
after_ticks-watermark_example =
    after_ticks-watermark whole (λ t. "h") (λ t o. none) (λ t o. refl) 2 metered [] (60 * hour) 5 60
      refl (omega arith) (omega arith) (omega arith) sixty

-- The index of users

abbrev alice : User
alice = record {
  id = "alice";
  email = "alice@example.org";
  name = "Alice";
  password_hash = "hash";
  is_admin = false;
  created_at = 1;
}

empty-Indexed : Indexed (λ t. t) empty
unfolding lookup
empty-Indexed = (λ e id h. ground (arith, h), λ id u h. ground (arith, h))

abbrev registered : MemoryStore
registered = record empty {
  users = ("alice", alice) ∷ [];
  users_by_email = ("alice@example.org", "alice") ∷ [];
}

users-Indexed_example :
    Leaves (Indexed (λ t. t)) (create_user (λ t. t) empty alice)
    × Leaves (Indexed (λ t. t)) (update_user empty alice)
users-Indexed_example = users-Indexed (λ t. t) empty alice empty-Indexed

registered-Indexed : Indexed (λ t. t) registered
unfolding create_user update_user insert contains
registered-Indexed = (users-Indexed (λ t. t) empty alice empty-Indexed).0

get_user_by_email-HasAddress_example :
    (get_user_by_email (λ t. t) alice registered "alice@example.org" ≡ ok alice)
    ↔ HasAddress (λ t. t) registered "alice@example.org" alice
get_user_by_email-HasAddress_example =
    get_user_by_email-HasAddress (λ t. t) alice registered "alice@example.org" alice
      registered-Indexed

-- The audit log

abbrev event : String → AuditEvent
event id = record {
  id = id;
  org_id = "org";
  actor_user_id = "alice";
  actor_email = "alice@example.org";
  action = "app.deploy";
  target_type = "app";
  target_id = "web";
  metadata = "";
  at = 1000;
}

abbrev audited : MemoryStore
audited = record empty { audit_events = event "a" ∷ event "b" ∷ event "c" ∷ [] }

abbrev filter : AuditFilter
filter = record { org_id = "org"; limit = pos 1; offset = pos 1 }

list_audit_events_lem_example :
    list_audit_events audited filter
    ≡ ok (take 1 (drop 1 (select (λ e. str_eq e.org_id "org") (newest_first audited.audit_events))))
list_audit_events_lem_example = list_audit_events_lem audited filter
