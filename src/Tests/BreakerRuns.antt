-- ===== src/Tests/BreakerRuns.antt =====
-- src/stability/circuit_breaker.rs at concrete histories.
use rust_network_system.Base.{ℕ, ◌≡◌, refl, List, [], ◌∷◌, some, arith, true}
use rust_network_system.CircuitBreaker.{
  closed, open_circuit, half_open, CircuitBreakerConfig, CircuitBreakerState, initial,
  is_request_allowed,
}
use rust_network_system.CircuitBreaker.Invariant
use rust_network_system.CircuitBreaker.Invariant.{Event, IsValid, Edge, step, run}
use rust_network_system.CircuitBreaker.Trip.{failures, run_failures}
use rust_network_system.CircuitBreaker.Recovery.{successes, run_recovers}

abbrev config : CircuitBreakerConfig
config = record { failure_threshold = 3; success_threshold = 2; timeout = 100; window_size = 10 }

abbrev tripped : CircuitBreakerState
tripped = record {
  state = open_circuit;
  failure_count = 3;
  success_count = 0;
  last_failure_time = some 20;
  opened_at = some 20;
}

abbrev history : List (ℕ × Event)
history = (0, Event.fails) ∷ (10, Event.fails) ∷ (11, Event.asks) ∷ (20, Event.fails) ∷ []

run-IsValid_example : IsValid config (run config initial history)
run-IsValid_example =
    Invariant.run-IsValid config initial history (Invariant.initial-IsValid config)

-- The three failures span twice the window.
run_failures_example :
    ((run config initial (failures (0 ∷ 10 ∷ []))).state ≡ closed)
    × ((run config initial (failures (0 ∷ 10 ∷ 20 ∷ []))).state ≡ open_circuit)
    × ((run config initial (failures (0 ∷ 10 ∷ 20 ∷ []))).opened_at ≡ some 20)
run_failures_example = run_failures config (0 ∷ 10 ∷ []) 20 (omega arith) refl (omega arith)

abbrev meanwhile : List (ℕ × Event)
meanwhile = (30, Event.succeeds) ∷ (50, Event.asks) ∷ (60, Event.fails) ∷ []

run_recovers_example :
    let probed = (is_request_allowed config tripped 120).0 in
    ((is_request_allowed config tripped 120).1 ≡ true)
    × ((run config probed (successes 1)).state ≡ half_open)
    × ((run config probed (successes 2)).state ≡ closed)
    × ((run config probed (successes 2)).failure_count ≡ 0)
run_recovers_example =
    run_recovers config tripped 20 120 1 (omega arith) refl refl refl (omega arith)
