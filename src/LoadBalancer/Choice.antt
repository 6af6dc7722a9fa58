-- ===== src/LoadBalancer/Choice.antt =====
-- `LoadBalancer::select` of src/pooling/load_balancer.rs and its four strategies.
-- The random index is an argument, `draw`, of which the source relies on being below the number
-- of healthy backends. A remainder by 0, which panics, is the outcome `panicked`.
use rust_network_system.Base.{
  ℕ, ◌-◌, ◌%◌, Option, none, some, List, [], ◌∷◌, ltb, ◌==◌, if◌then◌else◌, length, get_elem?,
  u32_mod, add_u32, add_u64,
}
use rust_network_system.LoadBalancer.{
  BackendState, Strategy, LoadBalancer, round_robin, least_connections, weighted_round_robin,
  random, update, active, weight_of, healthy_backends,
}

pub data Outcome : Type 0 where
  no_backend : Outcome
  panicked : Outcome
  picked : ℕ → Outcome

unfoldable pub take_turn : LoadBalancer → LoadBalancer
take_turn l = record l { round_robin_index = add_u64 l.round_robin_index 1 }

unfoldable pub outcome : Option ℕ → Outcome
outcome none = no_backend
outcome (some i) = picked i

unfoldable pub select_round_robin : ℕ → List ℕ → Outcome
unfolding outcome
select_round_robin index hs = outcome (get_elem? hs (index % length hs))

-- `min_by_key`, which keeps the first of several minima.
unfoldable pub least : List BackendState → ℕ → List ℕ → ℕ
least states best [] = best
least states best (i ∷ is) =
    least states (if ltb (active states i) (active states best) then i else best) is

unfoldable pub select_least_connections : List BackendState → List ℕ → Outcome
unfolding least
select_least_connections states [] = no_backend
select_least_connections states (i ∷ is) = picked (least states i is)

unfoldable pub total_weight : List BackendState → List ℕ → ℕ
total_weight states [] = 0
total_weight states (i ∷ is) = add_u32 (weight_of states i) (total_weight states is)

unfoldable pub walk : List BackendState → ℕ → List ℕ → Option ℕ
walk states target [] = none
walk states target (i ∷ is) =
    (let rest = walk states (target - weight_of states i) is in
      if ltb target (weight_of states i) then some i else rest)

unfoldable pub or_first : Option ℕ → List ℕ → Outcome
or_first none [] = no_backend
or_first none (i ∷ is) = picked i
or_first (some i) is = picked i

unfoldable pub select_weighted_round_robin : List BackendState → ℕ → List ℕ → Outcome
unfolding total_weight walk or_first
select_weighted_round_robin states index hs =
    if total_weight states hs == 0
    then panicked
    else or_first (walk states ((index % u32_mod) % total_weight states hs) hs) hs

unfoldable pub select_random : ℕ → List ℕ → Outcome
unfolding outcome
select_random draw hs = outcome (get_elem? hs draw)

-- The choice among the healthy backends, with the balancer after `fetch_add` on the index.
unfoldable pub choose : Strategy → ℕ → LoadBalancer → List ℕ → Outcome × LoadBalancer
unfolding select_round_robin select_least_connections select_weighted_round_robin select_random
    take_turn
choose round_robin draw l hs = (select_round_robin l.round_robin_index hs, take_turn l)
choose least_connections draw l hs = (select_least_connections l.states hs, l)
choose weighted_round_robin draw l hs =
    (select_weighted_round_robin l.states l.round_robin_index hs, take_turn l)
choose random draw l hs = (select_random draw hs, l)

unfoldable pub connect : BackendState → BackendState
connect b = record b { active_connections = add_u64 b.active_connections 1 }

unfoldable pub count_connection : Outcome × LoadBalancer → Outcome × LoadBalancer
unfolding connect
count_connection (no_backend, l) = (no_backend, l)
count_connection (panicked, l) = (panicked, l)
count_connection (picked i, l) = (picked i, record l { states = update i connect l.states })

unfoldable pub select_among : ℕ → LoadBalancer → List ℕ → Outcome × LoadBalancer
unfolding choose count_connection
select_among draw l [] = (no_backend, l)
select_among draw l (i ∷ is) = count_connection (choose l.config.strategy draw l (i ∷ is))

-- An empty list of backends has no healthy one, so that the source's two early returns are one.
unfoldable pub select : ℕ → LoadBalancer → Outcome × LoadBalancer
unfolding select_among
select draw l = select_among draw l (healthy_backends l.states l.backends)
