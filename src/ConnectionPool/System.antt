-- ===== src/ConnectionPool/System.antt =====
-- The tasks that share a pool of src/pooling/connection_pool.rs, as a step relation between its locks.
-- A task that has a permit waits for the lock, checks a reused connection, creates one, holds a guard, or
-- has given its connection back and still holds the permit.
use rust_network_system.Base.{ℕ, suc, ◌+◌, ◌≡◌, none, some, length}
use rust_network_system.ConnectionPool.{
  PoolConfig, PoolState, ConnectionPool, new, reuse, track, give_back, prune, fill, shutdown,
}

pub record Tasks : Type 0 where
  pub waiting : ℕ
  pub checking : ℕ
  pub creating : ℕ
  pub holding : ℕ
  pub leaving : ℕ
  pub filling : ℕ
  -- How many reused connections were dropped so far: found invalid, or with a cancelled acquisition.
  pub dropped : ℕ

abbrev pub no_tasks : Tasks
no_tasks = record {
  waiting = 0;
  checking = 0;
  creating = 0;
  holding = 0;
  leaving = 0;
  filling = 0;
  dropped = 0;
}

pub record System (T : Type 0) : Type 0 where
  pub pool : ConnectionPool T
  pub tasks : Tasks

unfoldable pub start : {T : Type 0} → PoolConfig → System T
start c = record { pool = new c; tasks = no_tasks }

module _ {T : Type 0} where
  abbrev pub set_state : ConnectionPool T → PoolState T → ConnectionPool T
  set_state p s = record p { state = s }

  pub data Step : System T → System T → Type 0 where
    permits :
        (p : ConnectionPool T) (t : Tasks) (free : ℕ)
        → p.semaphore ≡ suc free
        → Step
            (record { pool = p; tasks = t })
            (record {
              pool = record p { semaphore = free };
              tasks = record t { waiting = suc t.waiting };
            })
    reuses :
        (p : ConnectionPool T) (t : Tasks) (now w : ℕ) (x : T)
        → t.waiting ≡ suc w
        → (reuse p.config now p.state).0 ≡ some x
        → Step
            (record { pool = p; tasks = t })
            (record {
              pool = set_state p (reuse p.config now p.state).1;
              tasks = record t { waiting = w; checking = suc t.checking };
            })
    misses :
        (p : ConnectionPool T) (t : Tasks) (now w : ℕ)
        → t.waiting ≡ suc w
        → (reuse p.config now p.state).0 ≡ none
        → Step
            (record { pool = p; tasks = t })
            (record {
              pool = set_state p (reuse p.config now p.state).1;
              tasks = record t { waiting = w; creating = suc t.creating };
            })
    valid :
        (p : ConnectionPool T) (t : Tasks) (k : ℕ)
        → t.checking ≡ suc k
        → Step
            (record { pool = p; tasks = t })
            (record { pool = p; tasks = record t { checking = k; holding = suc t.holding } })
    invalid :
        (p : ConnectionPool T) (t : Tasks) (k : ℕ)
        → t.checking ≡ suc k
        → Step
            (record { pool = p; tasks = t })
            (record {
              pool = p;
              tasks = record t { checking = k; creating = suc t.creating; dropped = suc t.dropped };
            })
    -- The acquisition is cancelled while it closes expired connections or checks the one it reuses.
    cancels :
        (p : ConnectionPool T) (t : Tasks) (k : ℕ)
        → t.checking ≡ suc k
        → Step
            (record { pool = p; tasks = t })
            (record {
              pool = record p { semaphore = suc p.semaphore };
              tasks = record t { checking = k; dropped = suc t.dropped };
            })
    creates :
        (p : ConnectionPool T) (t : Tasks) (k : ℕ)
        → t.creating ≡ suc k
        → Step
            (record { pool = p; tasks = t })
            (record {
              pool = set_state p (track p.state);
              tasks = record t { creating = k; holding = suc t.holding };
            })
    -- Or the acquisition is cancelled while it waits for `create`.
    create_fails :
        (p : ConnectionPool T) (t : Tasks) (k : ℕ)
        → t.creating ≡ suc k
        → Step
            (record { pool = p; tasks = t })
            (record {
              pool = record p { semaphore = suc p.semaphore };
              tasks = record t { creating = k };
            })
    gives_back :
        (p : ConnectionPool T) (t : Tasks) (k now : ℕ) (x : T)
        → t.holding ≡ suc k
        → Step
            (record { pool = p; tasks = t })
            (record {
              pool = set_state p (give_back x now p.state);
              tasks = record t { holding = k; leaving = suc t.leaving };
            })
    leaves :
        (p : ConnectionPool T) (t : Tasks) (k : ℕ)
        → t.leaving ≡ suc k
        → Step
            (record { pool = p; tasks = t })
            (record {
              pool = record p { semaphore = suc p.semaphore };
              tasks = record t { leaving = k };
            })
    prunes :
        (p : ConnectionPool T) (t : Tasks) (now : ℕ)
        → Step
            (record { pool = p; tasks = t })
            (record {
              pool = set_state p (prune p.config now p.state).1;
              tasks = record t { filling = t.filling + (prune p.config now p.state).0 };
            })
    fills :
        (p : ConnectionPool T) (t : Tasks) (k now : ℕ) (x : T)
        → t.filling ≡ suc k
        → Step
            (record { pool = p; tasks = t })
            (record { pool = set_state p (fill x now p.state); tasks = record t { filling = k } })
    -- Or the pruning is cancelled.
    fill_fails :
        (p : ConnectionPool T) (t : Tasks) (k : ℕ)
        → t.filling ≡ suc k
        → Step
            (record { pool = p; tasks = t })
            (record { pool = p; tasks = record t { filling = k } })
    shuts_down :
        (p : ConnectionPool T) (t : Tasks)
        → Step
            (record { pool = p; tasks = t })
            (record { pool = set_state p (shutdown p.state).1; tasks = t })

  pub data Reach (c : PoolConfig) : System T → Type 0 where
    starts : Reach c (start c)
    steps : (a b : System T) → Reach c a → Step a b → Reach c b

  -- Every permit is free or with a task, and the total counts the connections in the pool and with the
  -- tasks, and one for every reused connection that was dropped.
  pub record IsBalanced (c : PoolConfig) (a : System T) : Type 0 where
    pub config : a.pool.config ≡ c
    pub permits :
        a.pool.semaphore + a.tasks.waiting + a.tasks.checking + a.tasks.creating + a.tasks.holding
          + a.tasks.leaving
        ≡ c.max_size
    pub total :
        a.pool.state.total_connections
        ≡ length a.pool.state.available + a.tasks.checking + a.tasks.holding + a.tasks.dropped
