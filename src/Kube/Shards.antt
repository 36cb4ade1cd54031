-- ===== src/Kube/Shards.antt =====
-- internal/kube/gateway_shard.go: the pool of gateways, the names of its members and how many
-- listeners each of them still takes.
pub mod Naming
use Prim.Native.String.{◌++◌ as join, len, slice}
use text.Mathlib.Text.{starts_with}
use viro_coolify.Base.{
  ℕ, zero, suc, ◌+◌, ◌-◌, String, Bool, true, false, not, ◌||◌, List, [], ◌∷◌, Option, none, some,
  Result, ok, err, str_eq, ltb, leb, ◌==◌, length, if◌then◌else◌,
}
use viro_coolify.Base.Int.{ℤ, pos, pos_part, leb_ℤ, ltb_ℤ}
use viro_coolify.Base.Sort.{sort_by}

-- The fields of `Config` that placement depends on. `connected` tells that there is a dynamic client.
pub record Config : Type 0 where
  pub gateway_name : String
  pub shard_max_listeners : ℤ
  pub shard_lb_sharing : Bool
  pub connected : Bool

-- `domainListener`, less what all listeners have in common
pub record Listener : Type 0 where
  pub name : String
  pub hostname : String
  pub cert_secret : String

-- What the backend reads and writes of a Gateway
pub record Gateway : Type 0 where
  pub class_name : String
  pub infrastructure : Option String
  pub is_shard : Bool
  pub listeners : List Listener

-- `gatewayShard`
pub record GatewayShard : Type 0 where
  pub index : ℕ
  pub name : String
  pub custom : ℕ
  pub total : ℕ

abbrev pub max_gateway_listeners : ℕ
max_gateway_listeners = 64

abbrev pub base_listener_reserve : ℕ
base_listener_reserve = 2

abbrev pub domain_listener_prefix : String
domain_listener_prefix = "d-"

-- strings.TrimPrefix
abbrev pub trim_prefix : String → String → String
trim_prefix s prefix = if starts_with s prefix then slice s (len prefix) (len s) else s

-- `itoa` and `atoi` stand for strconv.Itoa and strconv.Atoi.
unfoldable pub gateway_shard_name : (ℕ → String) → String → ℕ → String
gateway_shard_name itoa base zero = base
gateway_shard_name itoa base (suc n) = join (join base "-shard-") (itoa (suc n))

abbrev pub positive : Result ℤ → Option ℕ
positive (ok n) = if leb_ℤ n (pos 0) then none else some (pos_part n)
positive (err e) = none

-- What Atoi gives is an int, so the index fits one.
unfoldable pub gateway_shard_index : (String → Result ℤ) → String → String → Option ℕ
gateway_shard_index atoi base name =
    if str_eq name base
    then some 0
    else (let suffix = trim_prefix name (join base "-shard-") in
        if str_eq suffix name then none else positive (atoi suffix))

unfoldable pub per_shard_listener_budget : Config → ℕ
per_shard_listener_budget cfg =
    if leb_ℤ cfg.shard_max_listeners (pos 0)
      || ltb_ℤ (pos max_gateway_listeners) cfg.shard_max_listeners
    then max_gateway_listeners
    else pos_part cfg.shard_max_listeners

-- Go's differences may be negative and are raised to 0 at the end; these stop at 0 on the way.
unfoldable pub shard_custom_domain_capacity : Config → ℕ → ℕ → ℕ → ℕ
unfolding per_shard_listener_budget
shard_custom_domain_capacity cfg idx custom total =
    let budget = per_shard_listener_budget cfg in
    let free = (if idx == 0 then budget - base_listener_reserve else budget) - custom in
    let ceiling_free = max_gateway_listeners - total in
    if ltb ceiling_free free then ceiling_free else free

unfoldable pub custom_listener_count : List Listener → ℕ
custom_listener_count [] = 0
custom_listener_count (l ∷ ls) =
    let n = custom_listener_count ls in
    if starts_with l.name domain_listener_prefix then suc n else n

abbrev pub has_listener : String → List Listener → Bool
has_listener name [] = false
has_listener name (l ∷ ls) = str_eq l.name name || has_listener name ls

module _ (atoi : String → Result ℤ) (cfg : Config) where
  -- The view of a gateway of the pool.
  unfoldable pub shards_of : List (String × Gateway) → List GatewayShard
  unfolding gateway_shard_index custom_listener_count
  shards_of [] = []
  shards_of ((name, gw) ∷ gws) =
      let rest = shards_of gws in
      elim (gateway_shard_index atoi cfg.gateway_name name) [
        | none ↦ rest
        | some index ↦
            (record {
              index = index;
              name = name;
              custom = custom_listener_count gw.listeners;
              total = length gw.listeners;
            })
            ∷ rest
      ]

  unfoldable pub sorted_shards : List (String × Gateway) → List GatewayShard
  unfolding shards_of
  sorted_shards gws = sort_by (λ a b. ltb a.index b.index) (shards_of gws)

  -- The loop of `shardForHost`
  unfoldable pub holder : String → List (String × Gateway) → Option String
  unfolding gateway_shard_index
  holder listener [] = none
  holder listener ((name, gw) ∷ gws) =
      let rest = holder listener gws in
      elim (gateway_shard_index atoi cfg.gateway_name name) [
        | none ↦ rest
        | some _ ↦ if has_listener listener gw.listeners then some name else rest
      ]

  -- The first shard with room, and the last of all
  unfoldable pub with_capacity : List GatewayShard → Option String
  unfolding shard_custom_domain_capacity
  with_capacity [] = none
  with_capacity (s ∷ ss) =
      let rest = with_capacity ss in
      if ltb 0 (shard_custom_domain_capacity cfg s.index s.custom s.total)
      then some s.name
      else rest

abbrev pub last_index : ℕ → List GatewayShard → ℕ
last_index n [] = n
last_index n (s ∷ ss) = last_index s.index ss
