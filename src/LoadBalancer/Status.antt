-- ===== src/LoadBalancer/Status.antt =====
-- What src/pooling/load_balancer.rs reports of its backends, and its default configurations.
use rust_network_system.Base.{
  ℕ, suc, ◌≡◌, refl, arith, Bool, Option, none, some, List, [], ◌∷◌, length, get_elem?,
  if◌then◌else◌,
}
use rust_network_system.LoadBalancer.{
  Backend, BackendState, Strategy, HealthCheckConfig, LoadBalancerConfig, LoadBalancer, round_robin,
  is_healthy, healthy_backends,
}

pub record HealthStatus : Type 0 where
  pub healthy : Bool
  pub last_check : ℕ
  pub consecutive_failures : ℕ
  pub total_requests : ℕ
  pub failed_requests : ℕ

unfoldable pub get_status : BackendState → HealthStatus
get_status b = record {
  healthy = b.healthy;
  last_check = b.last_check;
  consecutive_failures = b.consecutive_failures;
  total_requests = b.total_requests;
  failed_requests = b.failed_requests;
}

add_status : Option BackendState → List (Backend × HealthStatus) → List (Backend × HealthStatus)
add_status none rest = rest
add_status (some b) rest = (b.backend, get_status b) ∷ rest

statuses : List BackendState → List ℕ → List (Backend × HealthStatus)
statuses states [] = []
statuses states (i ∷ is) = add_status (get_elem? states i) (statuses states is)

unfoldable pub health_statuses : LoadBalancer → List (Backend × HealthStatus)
unfolding statuses add_status get_status
health_statuses l = statuses l.states l.backends

unfoldable pub backend_count : LoadBalancer → ℕ
backend_count l = length l.backends

count_healthy : List BackendState → List ℕ → ℕ
count_healthy states [] = 0
count_healthy states (i ∷ is) =
    (let rest = count_healthy states is in if is_healthy states i then suc rest else rest)

unfoldable pub healthy_backend_count : LoadBalancer → ℕ
unfolding count_healthy
healthy_backend_count l = count_healthy l.states l.backends

unfoldable pub default_health_check : HealthCheckConfig
default_health_check = record {
  interval = 10000;
  timeout = 2000;
  unhealthy_threshold = 3;
  healthy_threshold = 2;
}

unfoldable pub new_config : Strategy → LoadBalancerConfig
unfolding default_health_check
new_config s = record { strategy = s; health_check = some default_health_check }

unfoldable pub default_config : LoadBalancerConfig
unfolding new_config
default_config = new_config round_robin

unfoldable pub without_health_checks : LoadBalancerConfig → LoadBalancerConfig
without_health_checks c = record c { health_check = none }

-- The count of the healthy backends is the number of backends that `select` chooses from.
count_healthy_lem :
    (states : List BackendState) (bs : List ℕ)
    → count_healthy states bs ≡ length (healthy_backends states bs)
unfolding healthy_backends count_healthy
count_healthy_lem states [] = refl
count_healthy_lem states (i ∷ is) = ground (arith, count_healthy_lem states is)

pub healthy_backend_count_lem :
    (l : LoadBalancer) → healthy_backend_count l ≡ length (healthy_backends l.states l.backends)
unfolding healthy_backend_count
healthy_backend_count_lem l = count_healthy_lem l.states l.backends
