-- ===== src/Kube/Placement/Ceiling.antt =====
-- internal/kube: no gateway is pushed over the limit of 64 listeners, whatever calls fail.
use mathlib.Core.Path.{subst}
use viro_coolify.Base.{
  ℕ, zero, suc, ◌<◌, ◌≤◌, String, Bool, true, false, not, ◌||◌, List, [], ◌∷◌, ◌++◌, Option, none,
  some, conflict, already_exists, Result, ok, err, str_eq, ltb, length, if◌then◌else◌, ◌≡◌, ◌⊎◌,
  refl, sym, ap, inl, inr, Bool-cases, Option-cases, arith,
}
use viro_coolify.Base.Table.{Table, insert, values}
use viro_coolify.Base.Member.{All}
use viro_coolify.Kube.Shards.{
  Config, Gateway, GatewayShard, gateway_shard_name, gateway_shard_index,
  shard_custom_domain_capacity, custom_listener_count, has_listener, sorted_shards, with_capacity,
  last_index,
}
use viro_coolify.Kube.Placement.{
  K, unit, and_then, ◌>>=◌, Api, Texts, shard_for_host, ensure_shard_gateway, pick_shard,
  allocate_listener_shard, merge_once, merge_listener_into_gateway, again, is_full, attempts,
  ensure_gateway_listener, created, or_zero, domain_listener_name,
}
use viro_coolify.Kube.Placement.Cluster.{on_conflict, rerun, Cluster}

abbrev pub IsWithin : Gateway → Type 0
IsWithin g = length g.listeners ≤ 64

insert-IsWithin :
    (k : String) (g : Gateway) (m : Table Gateway)
    → IsWithin g
    → All IsWithin (values m)
    → All IsWithin (values (insert k g m))
unfolding insert values
insert-IsWithin k g [] h a = (h, tt)
insert-IsWithin k g ((j, v) ∷ m) h (b, a) = elim (Bool-cases (str_eq j k)) [
  | inl e ↦ rw e (h, a)
  | inr e ↦ rw e (b, insert-IsWithin k g m h a)
]

length-snoc : {A : Type 0} (xs : List A) (x : A) → length (xs ++ (x ∷ [])) ≡ suc (length xs)
length-snoc [] x = refl
length-snoc (y ∷ xs) x = ap suc (length-snoc xs x)

-- A gateway with room has fewer than 64 listeners.
room :
    (cfg : Config) (idx custom total : ℕ)
    → ltb 0 (shard_custom_domain_capacity cfg idx custom total) ≡ true
    → total < 64
unfolding shard_custom_domain_capacity
room cfg idx custom total h = ground (arith, h)

module _ {State : Type 0} (api : Api State) (t : Texts) (cfg : Config) (c : Cluster api) where
  abbrev pub Within : State → Type 0
  Within s = All IsWithin (values (c.gateways s))

  same-Within : {s u : State} → c.gateways u ≡ c.gateways s → Within s → Within u
  same-Within e w = subst (λ g. All IsWithin (values g)) (sym e) w

  and_then-Within :
      {A B : Type 0} (p : Result A × State) (f : A → K State B)
      → Within p.1
      → ((a : A) (s : State) → p.0 ≡ ok a → Within s → Within (f a s).1)
      → Within (and_then p f).1
  and_then-Within (ok a, s) f w k = k a s refl w
  and_then-Within (err e, s) f w k = w

  -- A write of a gateway within the limit.
  written-Within :
      (name : String) (g : Gateway) (s u : State)
      → IsWithin g
      → (c.gateways u ≡ c.gateways s) ⊎ (c.gateways u ≡ insert name g (c.gateways s))
      → Within s
      → Within u
  written-Within name g s u h (inl e) w = same-Within e w
  written-Within name g s u h (inr e) w =
      subst (λ g. All IsWithin (values g)) (sym e) (insert-IsWithin name g (c.gateways s) h w)

  if-Within :
      {A : Type 0} (b : Bool) (m n : K State A) (s : State)
      → (b ≡ true → Within (m s).1)
      → (b ≡ false → Within (n s).1)
      → Within ((if b then m else n) s).1
  if-Within true m n s h k = h refl
  if-Within false m n s h k = k refl

  merge_once-Within :
      (gw_name host cert_secret : String) (s : State)
      → Within s
      → Within (merge_once api t cfg gw_name host cert_secret s).1
  unfolding merge_once
  merge_once-Within gw_name host cert_secret s w =
      and_then-Within (api.get gw_name s) _ (same-Within (c.get_view gw_name s) w) (λ gw u found v.
        let idx = or_zero (gateway_shard_index t.atoi cfg.gateway_name gw_name) in
        if-Within (has_listener (domain_listener_name t host) gw.listeners) _ _ u (λ _. v)
          (λ _.
            if-Within
              (ltb 0 (
                shard_custom_domain_capacity cfg idx (custom_listener_count gw.listeners)
                  (length gw.listeners)))
              _ _ u
              (λ free.
                written-Within gw_name _ u _
                  (omega (
                    arith,
                    length-snoc gw.listeners (record {
                      name = domain_listener_name t host;
                      hostname = host;
                      cert_secret = cert_secret;
                    }),
                    room cfg idx _ _ free,
                  ))
                  (c.update_view gw_name _ u) v)
              (λ _. v)))

  rerun-Within :
      (m : K State (Unit {0}))
      → ((s : State) → Within s → Within (m s).1)
      → (n : ℕ) (s : State) → Within s
      → Within (rerun n m s).1
  rerun-Within m h zero s w = h s w
  rerun-Within m h (suc n) s w = after (m s) (rerun-Within m h n) (h s w)
    where
      after :
          (p : Result (Unit {0}) × State)
          → ((s : State) → Within s → Within (rerun n m s).1)
          → Within p.1
          → Within (on_conflict p (rerun n m)).1
      after (ok a, s) k v = v
      after (err conflict, s) k v = k s v
      after (err e, s) k v = v

  merge-Within :
      (gw_name host cert_secret : String) (s : State)
      → Within s
      → Within (merge_listener_into_gateway api t cfg gw_name host cert_secret s).1
  unfolding merge_listener_into_gateway
  merge-Within gw_name host cert_secret s w =
      let (n, e) = c.retry_runs (merge_once api t cfg gw_name host cert_secret) s in
      subst (λ p. Within p.1) (sym e)
        (rerun-Within _ (merge_once-Within gw_name host cert_secret) n s w)

  created-Within : (p : Result (Unit {0}) × State) → Within p.1 → Within (created p).1
  created-Within (ok u, s) w = w
  created-Within (err already_exists, s) w = w
  created-Within (err e, s) w = w

  shard_for_host-Within :
      (host : String) (s : State) → Within s → Within (shard_for_host api t cfg host s).1
  unfolding shard_for_host
  shard_for_host-Within raw s w =
      if-Within (str_eq (t.to_lower (t.trim_space raw)) "" || not cfg.connected) _ _ s (λ _. w)
        (λ _. and_then-Within (api.list s) _ (same-Within (c.list_view s) w) (λ gws u _ v. v))

  ensure_shard_gateway-Within :
      (name : String) (s : State) → Within s → Within (ensure_shard_gateway api t cfg name s).1
  unfolding ensure_shard_gateway
  ensure_shard_gateway-Within name s w =
      and_then-Within (api.get cfg.gateway_name s) _ (same-Within (c.get_view cfg.gateway_name s) w)
        (λ primary u _ v.
          created-Within _ (written-Within name _ u _ (omega arith) (c.create_view name _ u) v))

  pick_shard-Within :
      (ss : List GatewayShard) (s : State) → Within s → Within (pick_shard api t cfg ss s).1
  unfolding pick_shard
  pick_shard-Within [] s w = w
  pick_shard-Within (x ∷ ss) s w = elim (Option-cases (with_capacity t.atoi cfg (x ∷ ss))) [
    | inl e ↦
        let name = gateway_shard_name t.itoa cfg.gateway_name (suc (last_index x.index ss)) in
        rw (pick_shard, e)
          (and_then-Within (ensure_shard_gateway api t cfg name s) _
            (ensure_shard_gateway-Within name s w) (λ _ u _ v. v))
    | inr (name, e) ↦ rw (pick_shard, e) w
  ]

  allocate-Within :
      (host : String) (s : State) → Within s → Within (allocate_listener_shard api t cfg host s).1
  unfolding allocate_listener_shard
  allocate-Within host s w =
      and_then-Within (shard_for_host api t cfg host s) _ (shard_for_host-Within host s w)
        (λ r u _ v. found r u v)
    where
      found :
          (r : Option String) (u : State)
          → Within u
          → (let next : K State String = elim r [
            | some name ↦ unit name
            | none ↦ api.list >>= λ gws. pick_shard api t cfg (sorted_shards t.atoi cfg gws)
          ] in
              Within (next u).1)
      found (some n) u v = v
      found none u v =
          and_then-Within (api.list u) _ (same-Within (c.list_view u) v)
            (λ gws x _ y. pick_shard-Within (sorted_shards t.atoi cfg gws) x y)

  attempts-Within :
      (left : ℕ) (host cert_secret : String) (s : State)
      → Within s
      → Within (attempts api t cfg left host cert_secret s).1
  unfolding attempts
  attempts-Within zero host cert_secret s w = w
  attempts-Within (suc left) host cert_secret s w =
      and_then-Within (allocate_listener_shard api t cfg host s) _ (allocate-Within host s w)
        (λ gw_name u found v.
          after _ (attempts-Within left host cert_secret)
            (merge-Within gw_name host cert_secret u v))
    where
      after :
          (p : Result (Unit {0}) × State)
          → ((s : State) → Within s → Within (attempts api t cfg left host cert_secret s).1)
          → Within p.1
          → Within (again api t cfg p (attempts api t cfg left host cert_secret)).1
      after (ok a, s) k v = v
      after (err e, s) k v = elim (Bool-cases (is_full api t cfg e)) [
        | inl q ↦ rw q (k s v)
        | inr q ↦ rw q v
      ]

-- EnsureGatewayListener keeps every gateway at 64 listeners at most, whatever the configured
-- budget, whatever calls of the API server fail and however often client-go retries, where
-- reads change nothing and a write writes what it is given or nothing.
pub ensure_gateway_listener-Within :
    {State : Type 0} (api : Api State) (t : Texts) (cfg : Config) (c : Cluster api)
    (host cert_secret : String) (s : State)
    → Within api t cfg c s
    → Within api t cfg c (ensure_gateway_listener api t cfg host cert_secret s).1
unfolding ensure_gateway_listener
ensure_gateway_listener-Within api t cfg c raw cert_secret s w =
    if-Within api t cfg c (str_eq (t.to_lower (t.trim_space raw)) "") _ _ s (λ _. w)
      (λ _.
        if-Within api t cfg c (not cfg.connected) _ _ s (λ _. w)
          (λ _. attempts-Within api t cfg c 8 _ _ s w))
