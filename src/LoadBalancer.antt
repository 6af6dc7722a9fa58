-- ===== src/LoadBalancer.antt =====
-- src/pooling/load_balancer.rs: the choice of a backend, the counters that the guards keep, and the
-- health of the backends.
-- A backend's state is shared by the list of the balancer and by the guards (`Arc`), also after the
-- backend was removed from the list. So the states are in a store in which nothing is ever removed, and the list and the
-- guards hold positions in it. Additions on words wrap around, and so does the sum of
-- the weights, as in a release build.
pub mod Store
pub mod Choice
pub mod Select
pub mod Shares
pub mod Guards
pub mod Counters
pub mod Counted
pub mod Health
pub mod Checks
pub mod Status
use rust_network_system.Base.{
  ℕ, zero, suc, ◌+◌, ◌-◌, ◌%◌, Bool, true, false, not, Option, none, some, List, [], ◌∷◌, ◌++◌,
  String, ltb, leb, if◌then◌else◌, length, get_elem?, u32_mod, u64_mod, add_u32, add_u64,
}
use text.Mathlib.Text.{◌==◌}

pub record Backend : Type 0 where
  pub address : String
  pub weight : ℕ

pub record BackendState : Type 0 where
  pub backend : Backend
  pub healthy : Bool
  pub active_connections : ℕ
  pub total_requests : ℕ
  pub failed_requests : ℕ
  pub consecutive_failures : ℕ
  pub last_check : ℕ

pub data Strategy : Type 0 where
  round_robin : Strategy
  least_connections : Strategy
  weighted_round_robin : Strategy
  random : Strategy

pub record HealthCheckConfig : Type 0 where
  pub interval : ℕ
  pub timeout : ℕ
  pub unhealthy_threshold : ℕ
  pub healthy_threshold : ℕ

pub record LoadBalancerConfig : Type 0 where
  pub strategy : Strategy
  pub health_check : Option HealthCheckConfig

pub record LoadBalancer : Type 0 where
  pub config : LoadBalancerConfig
  pub states : List BackendState
  pub backends : List ℕ
  pub round_robin_index : ℕ

unfoldable pub new_state : Backend → ℕ → BackendState
new_state b now = record {
  backend = b;
  healthy = true;
  active_connections = 0;
  total_requests = 0;
  failed_requests = 0;
  consecutive_failures = 0;
  last_check = now;
}

unfoldable pub mark_healthy : ℕ → BackendState → BackendState
mark_healthy now b = record b { healthy = true; consecutive_failures = 0; last_check = now }

unfoldable pub mark_unhealthy : ℕ → BackendState → BackendState
mark_unhealthy now b = record b { healthy = false; last_check = now }

unfoldable pub record_request : Bool → BackendState → BackendState
record_request success b =
    if success
    then record b { total_requests = add_u64 b.total_requests 1; consecutive_failures = 0 }
    else record b {
      total_requests = add_u64 b.total_requests 1;
      failed_requests = add_u64 b.failed_requests 1;
      consecutive_failures = add_u32 b.consecutive_failures 1;
    }

-- The store: a read, and a change in place.
unfoldable pub update : ℕ → (BackendState → BackendState) → List BackendState → List BackendState
update i f [] = []
update zero f (b ∷ bs) = f b ∷ bs
update (suc i) f (b ∷ bs) = b ∷ update i f bs

unfoldable pub check : Option BackendState → (BackendState → Bool) → Bool
check none f = false
check (some b) f = f b

unfoldable pub number : Option BackendState → (BackendState → ℕ) → ℕ
number none f = 0
number (some b) f = f b

unfoldable pub is_healthy : List BackendState → ℕ → Bool
is_healthy states i = check (get_elem? states i) (λ b. b.healthy)

unfoldable pub active : List BackendState → ℕ → ℕ
active states i = number (get_elem? states i) (λ b. b.active_connections)

unfoldable pub weight_of : List BackendState → ℕ → ℕ
weight_of states i = number (get_elem? states i) (λ b. b.backend.weight)

unfoldable pub healthy_backends : List BackendState → List ℕ → List ℕ
healthy_backends states [] = []
healthy_backends states (i ∷ is) =
    (let rest = healthy_backends states is in if is_healthy states i then i ∷ rest else rest)

add_backends : List Backend → ℕ → LoadBalancer → LoadBalancer
add_backends [] now l = l
add_backends (b ∷ bs) now l = add_backends bs now (record l {
  states = l.states ++ (new_state b now ∷ []);
  backends = l.backends ++ (length l.states ∷ []);
})

unfoldable pub add_backend : Backend → ℕ → LoadBalancer → LoadBalancer
add_backend b now l = record l {
  states = l.states ++ (new_state b now ∷ []);
  backends = l.backends ++ (length l.states ∷ []);
}

unfoldable pub new : LoadBalancerConfig → List Backend → ℕ → LoadBalancer
unfolding add_backends new_state
new c bs now =
    add_backends bs now (record { config = c; states = []; backends = []; round_robin_index = 0 })

has_address : String → List BackendState → ℕ → Bool
has_address address states i = check (get_elem? states i) (λ b. b.backend.address == address)

retain : String → List BackendState → List ℕ → List ℕ
retain address states [] = []
retain address states (i ∷ is) =
    (let rest = retain address states is in if has_address address states i then rest else i ∷ rest)

unfoldable pub remove_backend : String → LoadBalancer → LoadBalancer
unfolding retain has_address
remove_backend address l = record l { backends = retain address l.states l.backends }

find_address : String → List BackendState → List ℕ → Option ℕ
find_address address states [] = none
find_address address states (i ∷ is) =
    (let rest = find_address address states is in
      if has_address address states i then some i else rest)

unfoldable pub set_health : Bool → ℕ → Option ℕ → List BackendState → List BackendState
set_health healthy now none states = states
set_health healthy now (some i) states =
    update i (if healthy then mark_healthy now else mark_unhealthy now) states

unfoldable pub set_backend_health : String → Bool → ℕ → LoadBalancer → LoadBalancer
unfolding set_health find_address has_address mark_healthy mark_unhealthy
set_backend_health address healthy now l = record l {
  states = set_health healthy now (find_address address l.states l.backends) l.states;
}

-- One probe of `start_health_checks` on one backend's state, with what the check answered.
unfoldable pub probe : (threshold now : ℕ) → Bool → BackendState → BackendState
unfolding mark_healthy mark_unhealthy
probe threshold now is_healthy b =
    if is_healthy
    then mark_healthy now b
    else if leb threshold b.consecutive_failures
    then mark_unhealthy now b
    else b
