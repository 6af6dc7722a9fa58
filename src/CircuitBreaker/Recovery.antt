-- ===== src/CircuitBreaker/Recovery.antt =====
-- How a circuit of src/stability/circuit_breaker.rs that has opened blocks requests and recovers.
use rust_network_system.Base.{
  ℕ, zero, suc, ◌+◌, ◌-◌, ◌^◌, ◌≤◌, ◌<◌, ◌≡◌, refl, ◌≢◌, true, false, none, some, List, [], ◌∷◌,
  arith, All,
}
use rust_network_system.CircuitBreaker.{
  closed, open_circuit, half_open, CircuitBreakerConfig, CircuitBreakerState, is_request_allowed,
  record_success, record_failure,
}
use rust_network_system.CircuitBreaker.Invariant.{Event, step, run, expire_window_keeps}

-- The events that come before the timeout is over, resets excepted.
abbrev pub Early : CircuitBreakerConfig → ℕ → ℕ × Event → Type 0
Early c t e = (e.0 - t < c.timeout) × (e.1 ≢ Event.resets)

record OpenSince (t : ℕ) (s : CircuitBreakerState) : Type 0 where
  state : s.state ≡ open_circuit
  at : s.opened_at ≡ some t

step-OpenSince :
    (c : CircuitBreakerConfig) (s : CircuitBreakerState) (t : ℕ) (e : ℕ × Event)
    → Early c t e
    → OpenSince t s
    → OpenSince t (step c s e)
unfolding step is_request_allowed record_success record_failure
step-OpenSince c s t (now, Event.asks) h o = ground arith
step-OpenSince c s t (now, Event.succeeds) h o = ground arith
step-OpenSince c s t (now, Event.fails) h o = ground (arith, expire_window_keeps c s now)
step-OpenSince c s t (now, Event.resets) h o = absurd (h.1 refl)

run-OpenSince :
    (c : CircuitBreakerConfig) (t : ℕ) (es : List (ℕ × Event)) (s : CircuitBreakerState)
    → All (Early c t) es
    → OpenSince t s
    → OpenSince t (run c s es)
unfolding run
run-OpenSince c t [] s h o = o
run-OpenSince c t (e ∷ es) s h o =
    run-OpenSince c t es (step c s e) h.1 (step-OpenSince c s t e h.0 o)

-- A circuit that opened at `t` turns down every request until the timeout is over, whatever the tasks
-- report in between and however often they ask, unless one of them resets it.
pub run_blocked :
    (c : CircuitBreakerConfig) (t now : ℕ) (es : List (ℕ × Event)) (s : CircuitBreakerState)
    → s.state ≡ open_circuit
    → s.opened_at ≡ some t
    → All (Early c t) es
    → now - t < c.timeout
    → is_request_allowed c (run c s es) now ≡ (run c s es, false)
unfolding is_request_allowed
run_blocked c t now es s e f h early =
    let o = run-OpenSince c t es s h (record { state = e; at = f }) in ground (arith, o.state, o.at)

abbrev pub successes : ℕ → List (ℕ × Event)
successes zero = []
successes (suc n) = (0, Event.succeeds) ∷ successes n

-- A half-open circuit with `n` successes counted.
record Probing (n : ℕ) (s : CircuitBreakerState) : Type 0 where
  state : s.state ≡ half_open
  count : s.success_count ≡ n

record Fresh (s : CircuitBreakerState) : Type 0 where
  state : s.state ≡ closed
  none_failed : s.failure_count ≡ 0
  none_open : s.opened_at ≡ none

run-Probing :
    (c : CircuitBreakerConfig)
    → c.success_threshold < 2 ^ 32
    → (k n : ℕ) (s : CircuitBreakerState) → n + suc k ≡ c.success_threshold
    → Probing n s
    → ((run c s (successes k)).state ≡ half_open) × Fresh (run c s (successes (suc k)))
unfolding run step record_success
run-Probing c u zero n s h p = (p.state, ground arith)
run-Probing c u (suc k) n s h p =
    run-Probing c u k (suc n) (record_success c s) (omega arith) (ground arith)

-- Once the timeout is over, the next request is let through as a probe, and then as many successes as
-- the threshold asks for, and no fewer, close the circuit with its failure count at 0.
pub run_recovers :
    (c : CircuitBreakerConfig) (s : CircuitBreakerState) (t now k : ℕ)
    → c.success_threshold < 2 ^ 32
    → suc k ≡ c.success_threshold
    → s.state ≡ open_circuit
    → s.opened_at ≡ some t
    → c.timeout ≤ now - t
    → let probed = (is_request_allowed c s now).0 in
      ((is_request_allowed c s now).1 ≡ true)
      × ((run c probed (successes k)).state ≡ half_open)
      × ((run c probed (successes (suc k))).state ≡ closed)
      × ((run c probed (successes (suc k))).failure_count ≡ 0)
unfolding is_request_allowed
run_recovers c s t now k u h e f late =
    let (half, fresh) =
      run-Probing c u k 0 (is_request_allowed c s now).0 (omega arith) (ground arith) in
    (ground arith, half, fresh.state, fresh.none_failed)
