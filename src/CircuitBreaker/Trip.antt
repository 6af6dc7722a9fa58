-- ===== src/CircuitBreaker/Trip.antt =====
-- When the failures recorded by src/stability/circuit_breaker.rs open the circuit.
use rust_network_system.Base.{
  ℕ, suc, ◌+◌, ◌-◌, ◌^◌, ◌≤◌, ◌<◌, ◌≡◌, refl, Option, none, some, List, [], ◌∷◌, ◌++◌, map, arith,
  length,
}
use rust_network_system.CircuitBreaker.{
  closed, open_circuit, CircuitBreakerConfig, CircuitBreakerState, initial, expire_window,
  record_failure,
}
use rust_network_system.CircuitBreaker.Invariant.{Event, step, run}

abbrev pub failures : List ℕ → List (ℕ × Event)
failures = map λ t. (t, Event.fails)

-- Each failure comes no later than the window after the one before it.
abbrev pub Paced : (window : ℕ) → Option ℕ → List ℕ → Type 0
Paced window last [] = Unit
Paced window none (t ∷ ts) = Paced window (some t) ts
Paced window (some last) (t ∷ ts) = (t - last ≤ window) × Paced window (some t) ts

-- A closed circuit with `n` failures counted, the last of them at `last`.
record Counting (n : ℕ) (last : Option ℕ) (s : CircuitBreakerState) : Type 0 where
  state : s.state ≡ closed
  count : s.failure_count ≡ n
  time : s.last_failure_time ≡ last

-- The head condition of `Paced`.
abbrev InWindow : ℕ → Option ℕ → ℕ → Type 0
InWindow window none t = Unit
InWindow window (some last) t = t - last ≤ window

Paced-head :
    (window : ℕ) (last : Option ℕ) (t : ℕ) (ts : List ℕ)
    → Paced window last (t ∷ ts)
    → InWindow window last t × Paced window (some t) ts
Paced-head window none t ts p = (tt, p)
Paced-head window (some last) t ts p = p

fails-Counting :
    (c : CircuitBreakerConfig) (s : CircuitBreakerState) (n t : ℕ) (last : Option ℕ)
    → suc n < c.failure_threshold
    → c.failure_threshold < 2 ^ 32
    → InWindow c.window_size last t
    → Counting n last s
    → Counting (suc n) (some t) (record_failure c s t)
unfolding record_failure expire_window
fails-Counting c s n t none h u p k = ground arith
fails-Counting c s n t (some last) h u p k = ground arith

fails_full :
    (c : CircuitBreakerConfig) (s : CircuitBreakerState) (n t : ℕ) (last : Option ℕ)
    → suc n ≡ c.failure_threshold
    → c.failure_threshold < 2 ^ 32
    → InWindow c.window_size last t
    → Counting n last s
    → ((record_failure c s t).state ≡ open_circuit) × ((record_failure c s t).opened_at ≡ some t)
unfolding record_failure expire_window
fails_full c s n t none h u p k = ground arith
fails_full c s n t (some last) h u p k = ground arith

run-Counting :
    (c : CircuitBreakerConfig)
    → c.failure_threshold < 2 ^ 32
    → (ts : List ℕ) (s : CircuitBreakerState) (n t : ℕ) (last : Option ℕ)
    → suc (n + length ts) ≡ c.failure_threshold
    → Paced c.window_size last (ts ++ (t ∷ []))
    → Counting n last s
    → ((run c s (failures ts)).state ≡ closed)
      × ((run c s (failures (ts ++ (t ∷ [])))).state ≡ open_circuit)
      × ((run c s (failures (ts ++ (t ∷ [])))).opened_at ≡ some t)
unfolding run step
run-Counting c u [] s n t last h p k =
    let (near, _) = Paced-head c.window_size last t [] p in
    let (opened, at) = fails_full c s n t last (omega arith) u near k in (k.state, opened, at)
run-Counting c u (t' ∷ ts) s n t last h p k =
    let (near, paced) = Paced-head c.window_size last t' (ts ++ (t ∷ [])) p in
    run-Counting c u ts (record_failure c s t') (suc n) t (some t') (omega arith) paced
      (fails-Counting c s n t' last (omega arith) u near k)

-- A new breaker opens at the failure that reaches the threshold, at no earlier one, and notes its
-- time, where no failure comes later than the window after the one before it. It is the
-- gap between neighbours that counts: the failures together may span any multiple of the window.
pub run_failures :
    (c : CircuitBreakerConfig) (ts : List ℕ) (t : ℕ)
    → c.failure_threshold < 2 ^ 32
    → suc (length ts) ≡ c.failure_threshold
    → Paced c.window_size none (ts ++ (t ∷ []))
    → ((run c initial (failures ts)).state ≡ closed)
      × ((run c initial (failures (ts ++ (t ∷ [])))).state ≡ open_circuit)
      × ((run c initial (failures (ts ++ (t ∷ [])))).opened_at ≡ some t)
unfolding initial
run_failures c ts t u h p =
    run-Counting c u ts initial 0 t none (omega arith) p
      (record { state = refl; count = refl; time = refl })
