-- ===== src/Tests/BalancerRuns.antt =====
-- src/pooling/load_balancer.rs with three backends, one of them unhealthy.
use rust_network_system.Base.{
  ℕ, zero, suc, ◌+◌, ◌%◌, ◌≡◌, refl, Bool, true, false, none, some, List, [], ◌∷◌, arith, get_elem?,
}
use rust_network_system.LoadBalancer.{
  BackendState, Strategy, LoadBalancer, round_robin, update, healthy_backends, is_healthy, active,
  check, number,
}
use rust_network_system.LoadBalancer.Choice.{picked, select, connect, outcome}
use rust_network_system.LoadBalancer.Select
use rust_network_system.LoadBalancer.Shares
use rust_network_system.LoadBalancer.Guards
use rust_network_system.LoadBalancer.Counted

abbrev backend : (weight : ℕ) → Bool → (connections : ℕ) → BackendState
backend w h n = record {
  backend = record { address = "10.0.0.1:80"; weight = w };
  healthy = h;
  active_connections = n;
  total_requests = 0;
  failed_requests = 0;
  consecutive_failures = 0;
  last_check = 0;
}

abbrev three : ℕ → List BackendState
three w = backend w true 2 ∷ backend 5 false 0 ∷ backend (w + w) true 1 ∷ []

abbrev balancer : Strategy → ℕ → LoadBalancer
balancer s w = record {
  config = record { strategy = s; health_check = none };
  states = three w;
  backends = 0 ∷ 1 ∷ 2 ∷ [];
  round_robin_index = 4;
}

select_serves_example :
    (i : ℕ) × ((select 0 (balancer round_robin 1)).0 ≡ picked i)
    × Select.Among i (0 ∷ 1 ∷ 2 ∷ [])
    × (is_healthy (three 1) i ≡ true)
    × ((select 0 (balancer round_robin 1)).1.states ≡ update i connect (three 1))
unfolding healthy_backends is_healthy check
select_serves_example =
    Select.select_serves 0 (balancer round_robin 1) 0 (2 ∷ []) refl (omega arith) (λ e. cc)

turns_example :
    (select 0 (Shares.selects 3 (balancer round_robin 1))).0
    ≡ outcome (get_elem? (0 ∷ 2 ∷ []) ((4 + 3) % 2))
unfolding healthy_backends is_healthy check
turns_example = Shares.turns 3 (balancer round_robin 1) 0 (2 ∷ []) refl refl (omega arith)

-- The balancer with a guard on the first backend, which is dropped.
abbrev guarded : LoadBalancer
guarded = record (balancer round_robin 1) { states = backend 1 true 1 ∷ []; backends = 0 ∷ [] }

one_connection : (i : ℕ) → active guarded.states i ≡ Guards.live_on i (0 ∷ [])
unfolding active number Guards.live_on
one_connection zero = refl
one_connection (suc i) = ground arith

guarded-IsCounted : Guards.IsCounted (guarded, 0 ∷ [])
unfolding active number Guards.live_on
guarded-IsCounted = (omega arith, one_connection)

step-IsCounted_example : Guards.IsCounted (Guards.drop_guard 0 guarded, [])
step-IsCounted_example =
    Counted.step-IsCounted (guarded, 0 ∷ []) (Guards.drop_guard 0 guarded, [])
      (Guards.Step.drops guarded 0 [] []) guarded-IsCounted

-- Backends that are checked every 10 s, and marked unhealthy after 3 failures.
abbrev checked : LoadBalancer
checked = record (balancer round_robin 1) {
  config = record {
    strategy = round_robin;
    health_check =
        some
          (record { interval = 10; timeout = 5; unhealthy_threshold = 3; healthy_threshold = 2 });
  };
}

abbrev dead : ℕ → Bool
dead i = false
