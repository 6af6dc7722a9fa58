-- ===== src/CircuitBreaker/Invariant.antt =====
-- Which transitions the methods of src/stability/circuit_breaker.rs make, and what every reachable state
-- satisfies.
use rust_network_system.Base.{
  ℕ, ◌+◌, ◌-◌, ◌^◌, ◌≤◌, ◌<◌, ◌≡◌, refl, sym, ◌∙◌, ◌⊎◌, inl, inr, none, some, List, [], ◌∷◌, arith,
  subst, leb, Bool-cases,
}
use rust_network_system.CircuitBreaker.{
  CircuitState, closed, open_circuit, half_open, CircuitBreakerConfig, CircuitBreakerState, initial,
  inc_u32, failure_in, expire_window, is_request_allowed, record_success, record_failure, reset,
}

-- One call on the breaker by any task, at a time.
pub data Event : Type 0 where
  asks succeeds fails resets : Event

unfoldable pub step : CircuitBreakerConfig → CircuitBreakerState → ℕ × Event → CircuitBreakerState
step c s (now, Event.asks) = (is_request_allowed c s now).0
step c s (now, Event.succeeds) = record_success c s
step c s (now, Event.fails) = record_failure c s now
step c s (now, Event.resets) = reset s

unfoldable pub run :
    CircuitBreakerConfig → CircuitBreakerState → List (ℕ × Event) → CircuitBreakerState
run c s [] = s
run c s (e ∷ es) = run c (step c s e) es

-- The thresholds are `u32`.
pub record IsU32 (c : CircuitBreakerConfig) : Type 0 where
  pub failures : c.failure_threshold < 2 ^ 32
  pub successes : c.success_threshold < 2 ^ 32

-- A counter that is compared with a threshold stays below it, or at 0 if the threshold is 0.
abbrev pub Below : ℕ → ℕ → Type 0
Below n threshold = (n < threshold) ⊎ (n ≡ 0)

-- What holds in each state of the circuit: a closed one has no opening time and fewer failures
-- than the threshold; an open one has its opening time; a half-open one has fewer successes than the
-- threshold and no failure since it was probed.
abbrev pub Holds : CircuitState → CircuitBreakerConfig → CircuitBreakerState → Type 0
Holds closed c s =
    Below s.failure_count c.failure_threshold × (s.opened_at ≡ none) × (s.success_count ≡ 0)
Holds open_circuit c s = ((t : ℕ) × (s.opened_at ≡ some t)) × (s.success_count ≡ 0)
Holds half_open c s =
    Below s.success_count c.success_threshold
    × (s.failure_count ≡ 0)
    × ((t : ℕ) × (s.opened_at ≡ some t))

pub record IsValid (c : CircuitBreakerConfig) (s : CircuitBreakerState) : Type 0 where
  pub holds : Holds s.state c s
  pub u32 : s.failure_count < 2 ^ 32

pub initial-IsValid : (c : CircuitBreakerConfig) → IsValid c initial
unfolding initial
initial-IsValid c = record { holds = (inr refl, refl, refl); u32 = omega arith }

-- The window changes the failure count only, and only to 0.
pub expire_window_keeps :
    (c : CircuitBreakerConfig) (s : CircuitBreakerState) (now : ℕ)
    → let q = expire_window c s now in
      (q.state ≡ s.state)
      × (q.opened_at ≡ s.opened_at)
      × (q.success_count ≡ s.success_count)
      × ((q.failure_count ≡ s.failure_count) ⊎ (q.failure_count ≡ 0))
unfolding expire_window
expire_window_keeps c s now = ground arith

fails_closed :
    (c : CircuitBreakerConfig) (s : CircuitBreakerState) (now : ℕ)
    → s.state ≡ closed
    → s.opened_at ≡ none
    → s.success_count ≡ 0
    → IsValid c (failure_in closed c s now)
unfolding failure_in inc_u32
fails_closed c s now e none_open none_won =
    elim (Bool-cases (leb c.failure_threshold (inc_u32 s.failure_count))) [
      | inl full ↦
          rw (full, failure_in) (record { holds = ((now, refl), none_won); u32 = omega arith })
      | inr room ↦
          rw (room, failure_in)
            (record {
              holds =
                  subst (λ q. Holds q c (record s { failure_count = inc_u32 s.failure_count }))
                    (sym e) (inl (ground arith), none_open, none_won);
              u32 = omega arith;
            })
    ]

fails_open :
    (c : CircuitBreakerConfig) (s : CircuitBreakerState) (now t : ℕ)
    → s.state ≡ open_circuit
    → s.opened_at ≡ some t
    → s.success_count ≡ 0
    → IsValid c (failure_in open_circuit c s now)
unfolding failure_in inc_u32
fails_open c s now t e opened none_won = record {
  holds =
      subst (λ q. Holds q c (record s { failure_count = inc_u32 s.failure_count })) (sym e)
        ((t, opened), none_won);
  u32 = omega arith;
}

fails-IsValid :
    (c : CircuitBreakerConfig) (s s' : CircuitBreakerState) (now : ℕ) (q : CircuitState)
    → s'.state ≡ q
    → s'.opened_at ≡ s.opened_at
    → s'.success_count ≡ s.success_count
    → Holds q c s
    → IsValid c (failure_in q c s' now)
fails-IsValid c s s' now closed e o w h = fails_closed c s' now e (o ∙ h.1) (w ∙ h.2)
fails-IsValid c s s' now open_circuit e o w h = fails_open c s' now h.0.0 e (o ∙ h.0.1) (w ∙ h.1)
fails-IsValid c s s' now half_open e o w h =
    unfold failure_in in record { holds = ((now, refl), refl); u32 = omega arith }

-- A call on a consistent breaker leaves it consistent.
step-IsValid :
    (c : CircuitBreakerConfig) (s : CircuitBreakerState) (e : ℕ × Event)
    → IsValid c s
    → IsValid c (step c s e)
unfolding step is_request_allowed record_success reset
step-IsValid c s (now, Event.asks) v = ground arith
step-IsValid c s (now, Event.succeeds) v = ground arith
step-IsValid c s (now, Event.fails) v =
    let (q, o, w, _) = expire_window_keeps c s now in
    unfold record_failure in
    fails-IsValid c s (record (expire_window c s now) { last_failure_time = some now }) now s.state
      q o w v.holds
step-IsValid c s (now, Event.resets) v = record {
  holds = (inr refl, refl, refl);
  u32 = omega arith;
}

-- Whatever the tasks call, and whenever, the breaker stays consistent: the counters stay below
-- their thresholds in the states that use them, and the opening time is known exactly while the
-- circuit is not closed.
pub run-IsValid :
    (c : CircuitBreakerConfig) (s : CircuitBreakerState) (es : List (ℕ × Event))
    → IsValid c s
    → IsValid c (run c s es)
unfolding run
run-IsValid c s [] v = v
run-IsValid c s (e ∷ es) v = run-IsValid c (step c s e) es (step-IsValid c s e v)

-- The diagram of the circuit: which event at which time leads from a state to which circuit state.
pub data Edge (c : CircuitBreakerConfig) (s : CircuitBreakerState) (now : ℕ) (e : Event)
    (q : CircuitState) : Type 0 where
  stay : q ≡ s.state → Edge c s now e q
  trip :
      e ≡ Event.fails
      → s.state ≡ closed
      → c.failure_threshold ≤ s.failure_count + 1
      → q ≡ open_circuit
      → Edge c s now e q
  probe :
      (t : ℕ)
      → e ≡ Event.asks
      → s.state ≡ open_circuit
      → s.opened_at ≡ some t
      → c.timeout ≤ now - t
      → q ≡ half_open
      → Edge c s now e q
  recover :
      e ≡ Event.succeeds
      → s.state ≡ half_open
      → c.success_threshold ≤ s.success_count + 1
      → q ≡ closed
      → Edge c s now e q
  relapse : e ≡ Event.fails → s.state ≡ half_open → q ≡ open_circuit → Edge c s now e q
  clear : e ≡ Event.resets → q ≡ closed → Edge c s now e q

asks_cases :
    (c : CircuitBreakerConfig) (s : CircuitBreakerState) (now : ℕ)
    → let q = (is_request_allowed c s now).0.state in
      (q ≡ s.state)
      ⊎ ((t : ℕ) × (s.opened_at ≡ some t)
          × (s.state ≡ open_circuit)
          × (c.timeout ≤ now - t)
          × (q ≡ half_open))
unfolding is_request_allowed
asks_cases c s now = ground arith

succeeds_cases :
    (c : CircuitBreakerConfig) (s : CircuitBreakerState)
    → let q = (record_success c s).state in
      (q ≡ s.state)
      ⊎ ((s.state ≡ half_open) × (c.success_threshold ≤ s.success_count + 1) × (q ≡ closed))
unfolding record_success
succeeds_cases c s = ground arith

fails_cases :
    (c : CircuitBreakerConfig) (s : CircuitBreakerState) (now : ℕ)
    → let q = (record_failure c s now).state in
      (q ≡ s.state)
      ⊎ (((s.state ≡ closed) × (c.failure_threshold ≤ s.failure_count + 1) × (q ≡ open_circuit))
          ⊎ ((s.state ≡ half_open) × (q ≡ open_circuit)))
unfolding record_failure failure_in inc_u32
fails_cases c s now = ground (arith, expire_window_keeps c s now)

-- Each call moves the circuit along the diagram, and only if the diagram's condition holds. In
-- particular an open circuit is left by a probe after the timeout or by a reset only, and only
-- successes close a half-open one.
pub step-Edge :
    (c : CircuitBreakerConfig) (s : CircuitBreakerState) (now : ℕ) (e : Event)
    → Edge c s now e (step c s (now, e)).state
unfolding step
step-Edge c s now Event.asks = elim (asks_cases c s now) [
  | inl e ↦ stay e
  | inr (t, at, here, late, to) ↦ probe t refl here at late to
]
step-Edge c s now Event.succeeds = elim (succeeds_cases c s) [
  | inl e ↦ stay e
  | inr (here, enough, to) ↦ recover refl here enough to
]
step-Edge c s now Event.fails = elim (fails_cases c s now) [
  | inl e ↦ stay e
  | inr (inl (here, enough, to)) ↦ trip refl here enough to
  | inr (inr (here, to)) ↦ relapse refl here to
]
step-Edge c s now Event.resets = clear refl (unfold reset in refl)
