-- ===== src/Kube/Placement.antt =====
-- internal/kube/gateway_shard.go and kube.go: a listener is placed on a gateway of the pool and taken
-- away again. The API server and the retry of client-go are parameters.
pub mod Cluster
pub mod Ceiling
use Prim.Native.String.{◌++◌ as join}
use viro_coolify.Base.{
  ℕ, zero, suc, ◌+◌, String, Bool, true, false, not, ◌||◌, List, [], ◌∷◌, ◌++◌, Option, none, some,
  Error, invalid, shard_full, already_exists, is_not_found, Result, ok, err, str_eq, ltb, length,
  if◌then◌else◌,
}
use viro_coolify.Base.Int.{ℤ}
use viro_coolify.Kube.Shards.{
  Config, Listener, Gateway, GatewayShard, gateway_shard_name, gateway_shard_index,
  shard_custom_domain_capacity, custom_listener_count, has_listener, sorted_shards, holder,
  with_capacity, last_index,
}

-- A call that reads and changes the cluster, which may fail.
abbrev pub K : Type 0 → Type 0 → Type 0
K State A = State → Result A × State

abbrev pub unit : {State A : Type 0} → A → K State A
unit a s = (ok a, s)

abbrev pub fail : {State A : Type 0} → Error → K State A
fail e s = (err e, s)

abbrev pub and_then : {State A B : Type 0} → Result A × State → (A → K State B) → Result B × State
and_then (ok a, s) f = f a s
and_then (err e, s) f = (err e, s)

infixl 5 ◌>>=◌
abbrev pub ◌>>=◌ : {State A B : Type 0} → K State A → (A → K State B) → K State B
◌>>=◌ m f s = and_then (m s) f

-- The calls of the API server on the gateways of one namespace, and retry.RetryOnConflict with its
-- default policy.
pub record Api (State : Type 0) : Type 0 where
  pub list : K State (List (String × Gateway))
  pub get : String → K State Gateway
  pub create : String → Gateway → K State (Unit {0})
  pub update : String → Gateway → K State (Unit {0})
  pub delete : String → K State (Unit {0})
  pub retry_on_conflict : K State (Unit {0}) → K State (Unit {0})

-- Texts: strings.ToLower, strings.TrimSpace, strconv.Itoa, strconv.Atoi, and `domainSlug`, which rests
-- on SHA-256.
pub record Texts : Type 0 where
  pub to_lower : String → String
  pub trim_space : String → String
  pub itoa : ℕ → String
  pub atoi : String → Result ℤ
  pub domain_slug : String → String

abbrev pub max_alloc_attempts : ℕ
max_alloc_attempts = 8

unfoldable pub domain_listener_name : Texts → String → String
domain_listener_name t host = join "d-" (t.domain_slug host)

unfoldable pub domain_cert_secret : Texts → String → String
domain_cert_secret t host = join "vortex-dom-tls-" (t.domain_slug host)

-- The index of a gateway, and Go's 0 for one outside the pool
abbrev pub or_zero : Option ℕ → ℕ
or_zero none = 0
or_zero (some n) = n

-- An error that says that the gateway is there already is none.
abbrev pub created : {State : Type 0} → Result (Unit {0}) × State → Result (Unit {0}) × State
created (err already_exists, s) = (ok tt, s)
created p = p

module _ {State : Type 0} (api : Api State) (t : Texts) (cfg : Config) where
  unfoldable pub shard_for_host : String → K State (Option String)
  unfolding domain_listener_name
  shard_for_host raw =
      let host = t.to_lower (t.trim_space raw) in
      if str_eq host "" || not cfg.connected
      then unit none
      else (api.list >>= λ gws. unit (holder t.atoi cfg (domain_listener_name t host) gws))

  unfoldable pub ensure_shard_gateway : String → K State (Unit {0})
  ensure_shard_gateway name = api.get cfg.gateway_name >>= λ primary s. created (
      api.create name
        (record {
          class_name = primary.class_name;
          infrastructure = if cfg.shard_lb_sharing then primary.infrastructure else none;
          is_shard = true;
          listeners = [];
        })
        s)

  -- `allocateListenerShard` among the shards of the pool
  unfoldable pub pick_shard : List GatewayShard → K State String
  unfolding ensure_shard_gateway
  pick_shard [] = unit cfg.gateway_name
  pick_shard (s ∷ ss) = elim (with_capacity t.atoi cfg (s ∷ ss)) [
    | some name ↦ unit name
    | none ↦
        let name = gateway_shard_name t.itoa cfg.gateway_name (suc (last_index s.index ss)) in
        ensure_shard_gateway name >>= λ _. unit name
  ]

  unfoldable pub allocate_listener_shard : String → K State String
  unfolding shard_for_host pick_shard
  allocate_listener_shard host = shard_for_host host >>= λ r. elim r [
    | some name ↦ unit name
    | none ↦ api.list >>= λ gws. pick_shard (sorted_shards t.atoi cfg gws)
  ]

  -- One attempt of `mergeListenerIntoGateway`
  unfoldable pub merge_once : String → String → String → K State (Unit {0})
  merge_once gw_name host cert_secret = api.get gw_name >>= λ gw.
      let name = domain_listener_name t host in
      let idx = or_zero (gateway_shard_index t.atoi cfg.gateway_name gw_name) in
      let custom = custom_listener_count gw.listeners in
      let added : Listener = record { name = name; hostname = host; cert_secret = cert_secret } in
      if has_listener name gw.listeners
      then unit tt
      else if ltb 0 (shard_custom_domain_capacity cfg idx custom (length gw.listeners))
      then api.update gw_name (record gw { listeners = gw.listeners ++ (added ∷ []) })
      else fail shard_full

  unfoldable pub merge_listener_into_gateway : String → String → String → K State (Unit {0})
  unfolding merge_once
  merge_listener_into_gateway gw_name host cert_secret =
      api.retry_on_conflict (merge_once gw_name host cert_secret)

  -- Whether `EnsureGatewayListener` goes on after the outcome of a merge
  abbrev pub is_full : Error → Bool
  is_full shard_full = true
  is_full _ = false

  abbrev pub again : Result (Unit {0}) × State → K State (Unit {0}) → Result (Unit {0}) × State
  again (ok u, s) rest = (ok tt, s)
  again (err e, s) rest = if is_full e then rest s else (err e, s)

  -- The loop of `EnsureGatewayListener`, with so many attempts left
  unfoldable pub attempts : ℕ → String → String → K State (Unit {0})
  unfolding allocate_listener_shard merge_listener_into_gateway
  attempts zero host cert_secret = fail shard_full
  attempts (suc left) host cert_secret = allocate_listener_shard host >>= λ gw_name s.
      again (merge_listener_into_gateway gw_name host cert_secret s)
        (attempts left host cert_secret)

  unfoldable pub ensure_gateway_listener : String → String → K State (Unit {0})
  unfolding attempts
  ensure_gateway_listener raw cert_secret =
      let host = t.to_lower (t.trim_space raw) in
      let secret = if str_eq cert_secret "" then domain_cert_secret t host else cert_secret in
      if str_eq host ""
      then fail invalid
      else if not cfg.connected
      then unit tt
      else attempts max_alloc_attempts host secret
