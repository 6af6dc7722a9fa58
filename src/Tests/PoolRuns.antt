-- ===== src/Tests/PoolRuns.antt =====
-- src/pooling/connection_pool.rs with connections that are numbers.
use rust_network_system.Base.{ℕ, ◌+◌, ◌≤◌, ◌≡◌, refl, some, List, [], ◌∷◌, length}
use rust_network_system.ConnectionPool.{
  PoolConfig, PooledConnection, PoolState, new, new_pooled, is_expired, outlives, expired_indices,
  remove_at, remove_indices, collect, remove_expired, pop, reuse, track, give_back,
}
use rust_network_system.ConnectionPool.System.{no_tasks, System, Tasks, Step, Reach, start}
use rust_network_system.ConnectionPool.Balance

abbrev config : PoolConfig
config = record {
  min_size = 0;
  max_size = 2;
  acquire_timeout = 5;
  idle_timeout = 10;
  max_lifetime = some 20;
}

abbrev pooled : ℕ → ℕ → PooledConnection ℕ
pooled x at = record { connection = x; created_at = at; last_used = at }

abbrev mixed : PoolState ℕ
mixed = record { available = pooled 7 0 ∷ pooled 8 15 ∷ []; total_connections = 3 }

abbrev uses : List (ℕ × ℕ)
uses = (5, 15) ∷ (20, 30) ∷ (35, 40) ∷ (45, 46) ∷ []

abbrev at_work : (semaphore : ℕ) → List (PooledConnection ℕ) → (total : ℕ) → Tasks → System ℕ
at_work semaphore available total t = record {
  pool = record {
    config = config;
    state = record { available = available; total_connections = total };
    semaphore = semaphore;
  };
  tasks = t;
}

abbrev tasks : (checking holding dropped : ℕ) → Tasks
tasks checking holding dropped = record {
  waiting = 0;
  checking = checking;
  creating = 0;
  holding = holding;
  leaving = 0;
  filling = 0;
  dropped = dropped;
}

-- One guard is out.
one_guard : Reach config (at_work 1 [] 1 (tasks 0 1 0))
unfolding start new reuse remove_expired expired_indices remove_indices pop track
one_guard =
    Reach.steps _ _
      (Reach.steps _ _ (Reach.steps _ _ Reach.starts (Step.permits (new config) no_tasks 1 refl))
        (Step.misses _ _ 0 0 refl refl))
      (Step.creates _ _ 0 refl)

guards_bounded_example : (1 ≤ 2) × (0 + 1 ≤ 1)
guards_bounded_example = Balance.guards_bounded config (at_work 1 [] 1 (tasks 0 1 0)) one_guard

-- Its connection came back, was found invalid at the next use, and could not be replaced.
one_invalid : Reach config (at_work 2 [] 1 (tasks 0 0 1))
unfolding give_back new_pooled reuse remove_expired expired_indices remove_indices remove_at collect
    is_expired outlives pop
one_invalid =
    Reach.steps _ _
      (Reach.steps _ _
        (Reach.steps _ _
          (Reach.steps _ _
            (Reach.steps _ _ (Reach.steps _ _ one_guard (Step.gives_back _ _ 0 3 7 refl))
              (Step.leaves _ _ 0 refl))
            (Step.permits _ _ 1 refl))
          (Step.reuses _ _ 5 0 7 refl refl))
        (Step.invalid _ _ 0 refl))
      (Step.create_fails _ _ 0 refl)

dropped_leak_example :
    (at_work 2 [] 1 (tasks 0 0 1)).pool.state.total_connections
    ≡ length (at_work 2 [] 1 (tasks 0 0 1)).pool.state.available + 1
dropped_leak_example = Balance.dropped_leak config (at_work 2 [] 1 (tasks 0 0 1)) one_invalid refl
