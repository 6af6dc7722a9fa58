-- ===== src/CircuitBreaker.antt =====
-- src/stability/circuit_breaker.rs. Each method holds the write lock, so it is one atomic step on the
-- state; the clock is an argument, in nanoseconds. Counters are `u32` and wrap around, as in a release
-- build; `elapsed` and `duration_since` stop at 0.
pub mod Invariant
pub mod Trip
pub mod Recovery
use rust_network_system.Base.{
  ℕ, ◌+◌, ◌-◌, ◌*◌, ◌%◌, ◌^◌, Bool, true, false, Option, none, some, ltb, leb, if◌then◌else◌,
}

pub data CircuitState : Type 0 where
  closed open_circuit half_open : CircuitState

pub record CircuitBreakerConfig : Type 0 where
  pub failure_threshold : ℕ
  pub success_threshold : ℕ
  pub timeout : ℕ
  pub window_size : ℕ

abbrev pub second : ℕ
second = 10 ^ 9

unfoldable pub default_config : CircuitBreakerConfig
default_config = record {
  failure_threshold = 5;
  success_threshold = 2;
  timeout = 60 * second;
  window_size = 10 * second;
}

unfoldable pub with_failure_threshold : CircuitBreakerConfig → ℕ → CircuitBreakerConfig
with_failure_threshold c n = record c { failure_threshold = n }

unfoldable pub with_success_threshold : CircuitBreakerConfig → ℕ → CircuitBreakerConfig
with_success_threshold c n = record c { success_threshold = n }

unfoldable pub with_timeout : CircuitBreakerConfig → ℕ → CircuitBreakerConfig
with_timeout c t = record c { timeout = t }

unfoldable pub with_window_size : CircuitBreakerConfig → ℕ → CircuitBreakerConfig
with_window_size c t = record c { window_size = t }

pub record CircuitBreakerState : Type 0 where
  pub state : CircuitState
  pub failure_count : ℕ
  pub success_count : ℕ
  pub last_failure_time : Option ℕ
  pub opened_at : Option ℕ

-- `x += 1` on a `u32`.
unfoldable pub inc_u32 : ℕ → ℕ
inc_u32 n = (n + 1) % 2 ^ 32

-- The state of `with_config`.
unfoldable pub initial : CircuitBreakerState
initial = record {
  state = closed;
  failure_count = 0;
  success_count = 0;
  last_failure_time = none;
  opened_at = none;
}

allowed_in :
    CircuitState → CircuitBreakerConfig → CircuitBreakerState → ℕ → CircuitBreakerState × Bool
allowed_in closed c s now = (s, true)
allowed_in open_circuit c s now = elim s.opened_at [
  | some opened_at ↦
      if leb c.timeout (now - opened_at)
      then (record s { state = half_open; success_count = 0; failure_count = 0 }, true)
      else (s, false)
  | none ↦ (s, false)
]
allowed_in half_open c s now = (s, true)

-- The state after the call, and its answer.
unfoldable pub is_request_allowed :
    CircuitBreakerConfig → CircuitBreakerState → ℕ → CircuitBreakerState × Bool
unfolding allowed_in
is_request_allowed c s now = allowed_in s.state c s now

success_in : CircuitState → CircuitBreakerConfig → CircuitBreakerState → CircuitBreakerState
success_in closed c s = record s { failure_count = 0; last_failure_time = none }
success_in half_open c s =
    let s' = record s { success_count = inc_u32 s.success_count } in
    if leb c.success_threshold s'.success_count
    then record s' { state = closed; failure_count = 0; success_count = 0; opened_at = none }
    else s'
success_in open_circuit c s = s

unfoldable pub record_success : CircuitBreakerConfig → CircuitBreakerState → CircuitBreakerState
unfolding success_in inc_u32
record_success c s = success_in s.state c s

-- The reset of the failure count when the last failure lies outside the window.
unfoldable pub expire_window : CircuitBreakerConfig → CircuitBreakerState → ℕ → CircuitBreakerState
expire_window c s now = elim s.last_failure_time [
  | some last_failure ↦
      if ltb c.window_size (now - last_failure) then record s { failure_count = 0 } else s
  | none ↦ s
]

failure_in : CircuitState → CircuitBreakerConfig → CircuitBreakerState → ℕ → CircuitBreakerState
failure_in closed c s now =
    let s' = record s { failure_count = inc_u32 s.failure_count } in
    if leb c.failure_threshold s'.failure_count
    then record s' { state = open_circuit; opened_at = some now }
    else s'
failure_in half_open c s now = record s {
  state = open_circuit;
  opened_at = some now;
  failure_count = 1;
  success_count = 0;
}
failure_in open_circuit c s now = record s { failure_count = inc_u32 s.failure_count }

unfoldable pub record_failure : CircuitBreakerConfig → CircuitBreakerState → ℕ → CircuitBreakerState
unfolding failure_in inc_u32
record_failure c s now =
    failure_in s.state c (record (expire_window c s now) { last_failure_time = some now }) now

unfoldable pub reset : CircuitBreakerState → CircuitBreakerState
reset s = record s {
  state = closed;
  failure_count = 0;
  success_count = 0;
  last_failure_time = none;
  opened_at = none;
}

pub data CircuitBreakerError {ℓ} (E : Type ℓ) : Type ℓ where
  circuit_open : CircuitBreakerError E
  inner_error : E → CircuitBreakerError E

-- The outcome of a future, and of `call`.
pub data Outcome {ℓ} (T E : Type ℓ) : Type ℓ where
  done : T → Outcome T E
  failed : E → Outcome T E

-- What `call` does once the future has ended, at time `now`.
unfoldable pub conclude {ℓ} :
    {T E : Type ℓ}
    → CircuitBreakerConfig
    → CircuitBreakerState
    → Outcome T E
    → ℕ
    → CircuitBreakerState × Outcome T (CircuitBreakerError E)
conclude c s (done result) now = (record_success c s, done result)
conclude c s (failed e) now = (record_failure c s now, failed (inner_error e))

-- `call` while no other task uses the breaker: it starts at `now` and the future ends at `later`.
unfoldable pub call {ℓ} :
    {T E : Type ℓ}
    → CircuitBreakerConfig
    → CircuitBreakerState
    → Outcome T E
    → (now later : ℕ) → CircuitBreakerState × Outcome T (CircuitBreakerError E)
call c s outcome now later =
    let (s', allowed) = is_request_allowed c s now in
    if allowed then conclude c s' outcome later else (s', failed circuit_open)
