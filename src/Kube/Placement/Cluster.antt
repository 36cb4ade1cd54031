-- ===== src/Kube/Placement/Cluster.antt =====
-- internal/kube: what the placement of listeners relies on, the API server of Kubernetes and the retry
-- of client-go.
use viro_coolify.Base.{ℕ, zero, suc, String, conflict, Result, err, ◌≡◌, ◌⊎◌}
use viro_coolify.Base.Table.{Table, insert}
use viro_coolify.Kube.Shards.{Gateway}
use viro_coolify.Kube.Placement.{K, Api}

-- A function that is run again so many times while it meets a conflict.
abbrev pub on_conflict :
    {State : Type 0} → Result (Unit {0}) × State → K State (Unit {0}) → Result (Unit {0}) × State
on_conflict (err conflict, s) rest = rest s
on_conflict p rest = p

abbrev pub rerun : {State : Type 0} → ℕ → K State (Unit {0}) → K State (Unit {0})
rerun zero m s = m s
rerun (suc n) m s = on_conflict (m s) (rerun n m)

-- What the API server and client-go document: a read changes nothing, a write
-- that fails changes nothing, one that succeeds writes what it is given, and a retry runs its function
-- some times in a row.
pub record Cluster {State : Type 0} (api : Api State) : Type 0 where
  pub gateways : State → Table Gateway
  pub list_view : (s : State) → gateways (api.list s).1 ≡ gateways s
  pub get_view : (name : String) (s : State) → gateways (api.get name s).1 ≡ gateways s
  pub create_view :
      (name : String) (g : Gateway) (s : State)
      → (gateways (api.create name g s).1 ≡ gateways s)
        ⊎ (gateways (api.create name g s).1 ≡ insert name g (gateways s))
  pub update_view :
      (name : String) (g : Gateway) (s : State)
      → (gateways (api.update name g s).1 ≡ gateways s)
        ⊎ (gateways (api.update name g s).1 ≡ insert name g (gateways s))
  pub retry_runs :
      (m : K State (Unit {0})) (s : State) → (n : ℕ) × (api.retry_on_conflict m s ≡ rerun n m s)
