-- ===== src/LoadBalancer/Guards.antt =====
-- The guards of src/pooling/load_balancer.rs: `select` makes one and counts a connection, dropping it
-- takes the connection off. The other operations come between them in any order.
use rust_network_system.Base.{
  ℕ, ◌+◌, ◌-◌, ◌%◌, ◌<◌, ◌≡◌, Bool, List, [], ◌∷◌, ◌++◌, ◌==◌, if◌then◌else◌, length, u64_mod,
  String,
}
use rust_network_system.LoadBalancer.{
  Backend, BackendState, LoadBalancer, update, active, record_request, add_backend, remove_backend,
  set_backend_health, probe,
}
use rust_network_system.LoadBalancer.Choice.{picked, select}

-- `fetch_sub`, which wraps around.
unfoldable pub disconnect : BackendState → BackendState
disconnect b = record b { active_connections = (b.active_connections + (u64_mod - 1)) % u64_mod }

unfoldable pub drop_guard : ℕ → LoadBalancer → LoadBalancer
unfolding disconnect
drop_guard i l = record l { states = update i disconnect l.states }

unfoldable pub record_on : ℕ → Bool → LoadBalancer → LoadBalancer
record_on i success l = record l { states = update i (record_request success) l.states }

unfoldable pub probe_on : ℕ → (threshold now : ℕ) → Bool → LoadBalancer → LoadBalancer
probe_on i threshold now answer l = record l {
  states = update i (probe threshold now answer) l.states;
}

unfoldable pub live_on : ℕ → List ℕ → ℕ
live_on i [] = 0
live_on i (j ∷ live) = (if i == j then 1 else 0) + live_on i live

-- The balancer with the guards that are live, by their backends. There are fewer guards than 2 ^ 64.
pub data Step : LoadBalancer × List ℕ → LoadBalancer × List ℕ → Type 0 where
  selects :
      (draw i : ℕ) (l : LoadBalancer) (live : List ℕ)
      → length live + 1 < u64_mod
      → (select draw l).0 ≡ picked i
      → Step (l, live) ((select draw l).1, i ∷ live)
  selects_none :
      (draw : ℕ) (l : LoadBalancer) (live : List ℕ)
      → ((i : ℕ) → ¬ ((select draw l).0 ≡ picked i))
      → Step (l, live) ((select draw l).1, live)
  drops :
      (l : LoadBalancer) (i : ℕ) (front back : List ℕ)
      → Step (l, front ++ (i ∷ back)) (drop_guard i l, front ++ back)
  records :
      (i : ℕ) (success : Bool) (l : LoadBalancer) (live : List ℕ)
      → Step (l, live) (record_on i success l, live)
  probes :
      (i threshold now : ℕ) (answer : Bool) (l : LoadBalancer) (live : List ℕ)
      → Step (l, live) (probe_on i threshold now answer l, live)
  sets_health :
      (address : String) (healthy : Bool) (now : ℕ) (l : LoadBalancer) (live : List ℕ)
      → Step (l, live) (set_backend_health address healthy now l, live)
  adds :
      (b : Backend) (now : ℕ) (l : LoadBalancer) (live : List ℕ)
      → Step (l, live) (add_backend b now l, live)
  removes :
      (address : String) (l : LoadBalancer) (live : List ℕ)
      → Step (l, live) (remove_backend address l, live)

-- Every state counts as many active connections as there are live guards on it.
abbrev pub IsCounted : LoadBalancer × List ℕ → Type 0
IsCounted (l, live) = (length live < u64_mod) × ((i : ℕ) → active l.states i ≡ live_on i live)
