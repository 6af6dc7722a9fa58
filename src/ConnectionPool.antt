-- ===== src/ConnectionPool.antt =====
-- src/pooling/connection_pool.rs: pooled connections behind a semaphore.
-- `Poolable` is code of the pool's user: a connection is a value of a type `T`, and what `create` and
-- `is_valid` answer is an argument. `total_connections` is a natural number, and subtraction stops at 0
-- where the source's would wrap around. Each method is cut at its awaits: what it does under one lock is
-- one function. Closing a connection has no effect on the pool.
pub mod Expiry
pub mod System
pub mod Balance
use rust_network_system.Base.{
  ℕ, zero, suc, ◌+◌, ◌-◌, ◌≡◌, arith, Bool, true, false, ◌||◌, Option, none, some, List, [], ◌∷◌,
  ◌++◌, ltb, if◌then◌else◌, length,
}

pub record PoolConfig : Type 0 where
  pub min_size : ℕ
  pub max_size : ℕ
  pub acquire_timeout : ℕ
  pub idle_timeout : ℕ
  pub max_lifetime : Option ℕ

unfoldable pub default_config : PoolConfig
default_config = record {
  min_size = 2;
  max_size = 10;
  acquire_timeout = 5000;
  idle_timeout = 600000;
  max_lifetime = some 3600000;
}

unfoldable pub with_min_size : PoolConfig → ℕ → PoolConfig
with_min_size c size = record c { min_size = size }

unfoldable pub with_max_size : PoolConfig → ℕ → PoolConfig
with_max_size c size = record c { max_size = size }

unfoldable pub with_acquire_timeout : PoolConfig → ℕ → PoolConfig
with_acquire_timeout c timeout = record c { acquire_timeout = timeout }

unfoldable pub with_idle_timeout : PoolConfig → ℕ → PoolConfig
with_idle_timeout c timeout = record c { idle_timeout = timeout }

unfoldable pub with_max_lifetime : PoolConfig → Option ℕ → PoolConfig
with_max_lifetime c lifetime = record c { max_lifetime = lifetime }

pub record PooledConnection (T : Type 0) : Type 0 where
  pub connection : T
  pub created_at : ℕ
  pub last_used : ℕ

unfoldable pub new_pooled : {T : Type 0} → T → ℕ → PooledConnection T
new_pooled c now = record { connection = c; created_at = now; last_used = now }

unfoldable pub outlives : Option ℕ → ℕ → Bool
outlives none age = false
outlives (some max_lifetime) age = ltb max_lifetime age

unfoldable pub is_expired : {T : Type 0} → PoolConfig → ℕ → PooledConnection T → Bool
unfolding outlives
is_expired c now p =
    ltb c.idle_timeout (now - p.last_used) || outlives c.max_lifetime (now - p.created_at)

pub record PoolState (T : Type 0) : Type 0 where
  pub available : List (PooledConnection T)
  pub total_connections : ℕ

pub record ConnectionPool (T : Type 0) : Type 0 where
  pub config : PoolConfig
  pub state : PoolState T
  pub semaphore : ℕ

unfoldable pub new : {T : Type 0} → PoolConfig → ConnectionPool T
new c = record {
  config = c;
  state = record { available = []; total_connections = 0 };
  semaphore = c.max_size;
}

pub record PoolStats : Type 0 where
  pub available : ℕ
  pub total : ℕ
  pub max_size : ℕ

unfoldable pub stats : {T : Type 0} → ConnectionPool T → PoolStats
stats p = record {
  available = length p.state.available;
  total = p.state.total_connections;
  max_size = p.config.max_size;
}

module _ {T : Type 0} where
  unfoldable pub expired_indices : PoolConfig → (now idx : ℕ) → List (PooledConnection T) → List ℕ
  expired_indices c now idx [] = []
  expired_indices c now idx (p ∷ ps) =
      (let rest = expired_indices c now (suc idx) ps in
        if is_expired c now p then idx ∷ rest else rest)

  -- `VecDeque::remove`: what stood at the index, and the others.
  unfoldable pub remove_at :
      ℕ → List (PooledConnection T) → Option (PooledConnection T) × List (PooledConnection T)
  remove_at i [] = (none, [])
  remove_at zero (p ∷ ps) = (some p, ps)
  remove_at (suc i) (p ∷ ps) = (let r = remove_at i ps in (r.0, p ∷ r.1))

  unfoldable pub collect :
      Option (PooledConnection T) × List (PooledConnection T)
      → PoolState T
      → List T
      → List T × PoolState T
  collect (none, ps) s expired = (expired, s)
  collect (some p, ps) s expired = (
    expired ++ (p.connection ∷ []),
    record { available = ps; total_connections = s.total_connections - 1 },
  )

  -- The loop over the indices in reverse: those after the first one go first.
  unfoldable pub remove_indices : List ℕ → PoolState T → List T × PoolState T
  unfolding remove_at collect
  remove_indices [] s = ([], s)
  remove_indices (i ∷ is) s =
      (let r = remove_indices is s in collect (remove_at i r.1.available) r.1 r.0)

  unfoldable pub remove_expired : PoolConfig → ℕ → PoolState T → List T × PoolState T
  unfolding expired_indices remove_indices
  remove_expired c now s = remove_indices (expired_indices c now 0 s.available) s

  unfoldable pub pop : PoolState T → Option T × PoolState T
  pop s = elim s.available [
    | [] ↦ (none, s)
    | p ∷ ps ↦ (some p.connection, record s { available = ps })
  ]

  -- What `acquire` does under the lock, after it has a permit.
  unfoldable pub reuse : PoolConfig → ℕ → PoolState T → Option T × PoolState T
  unfolding pop
  reuse c now s = pop (remove_expired c now s).1

  -- What `create_connection` does once `create` has succeeded.
  unfoldable pub track : PoolState T → PoolState T
  track s = record s { total_connections = s.total_connections + 1 }

  -- What the drop of a guard does before its permit goes.
  unfoldable pub give_back : T → ℕ → PoolState T → PoolState T
  unfolding new_pooled
  give_back c now s = record s { available = s.available ++ (new_pooled c now ∷ []) }

  -- What `prune_idle` does under its first lock: the state, and how many connections it will create.
  unfoldable pub prune : PoolConfig → ℕ → PoolState T → ℕ × PoolState T
  prune c now s = let s' = (remove_expired c now s).1 in (c.min_size - s'.total_connections, s')

  -- What `prune_idle` does with a connection it has created.
  unfoldable pub fill : T → ℕ → PoolState T → PoolState T
  unfolding new_pooled
  fill c now s = record {
    available = s.available ++ (new_pooled c now ∷ []);
    total_connections = s.total_connections + 1;
  }

  unfoldable pub drain : List (PooledConnection T) → ℕ → List T × ℕ
  drain [] total = ([], total)
  drain (p ∷ ps) total = (let r = drain ps (total - 1) in (p.connection ∷ r.0, r.1))

  unfoldable pub shutdown : PoolState T → List T × PoolState T
  unfolding drain
  shutdown s =
      let r = drain s.available s.total_connections in
      (r.0, record { available = []; total_connections = r.1 })

  pub drain_lem :
      (ps : List (PooledConnection T)) (total : ℕ) → (drain ps total).1 ≡ total - length ps
  unfolding drain
  drain_lem [] total = omega arith
  drain_lem (p ∷ ps) total = omega (arith, drain_lem ps (total - 1))
