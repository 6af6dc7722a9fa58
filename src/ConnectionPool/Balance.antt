-- ===== src/ConnectionPool/Balance.antt =====
-- The invariant of the pool of src/pooling/connection_pool.rs.
use rust_network_system.Base.{
  ℕ, ◌+◌, ◌≤◌, ◌≡◌, refl, sym, ap, subst, none, some, List, [], ◌∷◌, arith, length, length-append,
}
use rust_network_system.ConnectionPool.{
  PoolConfig, PooledConnection, PoolState, new, new_pooled, remove_expired, pop, reuse, track,
  give_back, prune, fill, shutdown, drain_lem,
}
use rust_network_system.ConnectionPool.Expiry.{remove_expired_lem, kept-length}
use rust_network_system.ConnectionPool.System.{
  System, start, Step, Reach, IsBalanced, permits, reuses, misses, valid, invalid, cancels, creates,
  create_fails, gives_back, leaves, prunes, fills, fill_fails, shuts_down, starts, steps,
}

module _ {T : Type 0} where
  -- Throwing away expired connections keeps the difference of the total and the pooled ones.
  expired_balance :
      (c : PoolConfig) (now more : ℕ) (s : PoolState T)
      → s.total_connections ≡ length s.available + more
      → (remove_expired c now s).1.total_connections
        ≡ length (remove_expired c now s).1.available + more
  expired_balance c now more s h =
      let (available, total) = remove_expired_lem c now s in
      omega (arith, ap length available, total, h, kept-length c now s.available)

  pop-some :
      (s : PoolState T) (x : T)
      → (pop s).0 ≡ some x
      → (length (pop s).1.available + 1 ≡ length s.available)
        × ((pop s).1.total_connections ≡ s.total_connections)
  unfolding pop
  pop-some s x h = popped s.available s.total_connections h
    where
      popped :
          (ps : List (PooledConnection T)) (n : ℕ)
          → (pop (record { available = ps; total_connections = n })).0 ≡ some x
          → (length (pop (record { available = ps; total_connections = n })).1.available + 1
              ≡ length ps)
            × ((pop (record { available = ps; total_connections = n })).1.total_connections ≡ n)
      popped [] n h = absurd (cc)
      popped (p ∷ ps) n h = (omega arith, refl)

  pop-none : (s : PoolState T) → (pop s).0 ≡ none → (pop s).1 ≡ s
  unfolding pop
  pop-none s h = popped s.available s.total_connections h
    where
      popped :
          (ps : List (PooledConnection T)) (n : ℕ)
          → (pop (record { available = ps; total_connections = n })).0 ≡ none
          → (pop (record { available = ps; total_connections = n })).1
            ≡ record { available = ps; total_connections = n }
      popped [] n h = refl
      popped (p ∷ ps) n h = absurd (cc)

  reuse-some :
      (c : PoolConfig) (now more : ℕ) (s : PoolState T) (x : T)
      → (reuse c now s).0 ≡ some x
      → s.total_connections ≡ length s.available + more
      → (reuse c now s).1.total_connections ≡ length (reuse c now s).1.available + (more + 1)
  unfolding reuse
  reuse-some c now more s x h e =
      let (shorter, same) = pop-some (remove_expired c now s).1 x h in
      omega (arith, shorter, same, expired_balance c now more s e)

  reuse-none :
      (c : PoolConfig) (now more : ℕ) (s : PoolState T)
      → (reuse c now s).0 ≡ none
      → s.total_connections ≡ length s.available + more
      → (reuse c now s).1.total_connections ≡ length (reuse c now s).1.available + more
  unfolding reuse
  reuse-none c now more s h e =
      subst (λ t. t.total_connections ≡ length t.available + more)
        (sym (pop-none (remove_expired c now s).1 h)) (expired_balance c now more s e)

  -- Every step of every task keeps the balance of the permits and of the total.
  pub step-IsBalanced :
      (c : PoolConfig) (a b : System T) → Step a b → IsBalanced c a → IsBalanced c b
  unfolding track give_back prune fill shutdown
  step-IsBalanced c _ _ (permits p t free e) v = record {
    config = v.config;
    permits = omega (arith, v.permits, e);
    total = v.total;
  }
  step-IsBalanced c _ _ (reuses p t now w x e h) v = record {
    config = v.config;
    permits = omega (arith, v.permits, e);
    total = omega (
      arith,
      reuse-some p.config now (t.checking + t.holding + t.dropped) p.state x h
          (omega (arith, v.total)),
    );
  }
  step-IsBalanced c _ _ (misses p t now w e h) v = record {
    config = v.config;
    permits = omega (arith, v.permits, e);
    total = omega (
      arith,
      reuse-none p.config now (t.checking + t.holding + t.dropped) p.state h
          (omega (arith, v.total)),
    );
  }
  step-IsBalanced c _ _ (valid p t k e) v = record {
    config = v.config;
    permits = omega (arith, v.permits, e);
    total = omega (arith, v.total, e);
  }
  step-IsBalanced c _ _ (invalid p t k e) v = record {
    config = v.config;
    permits = omega (arith, v.permits, e);
    total = omega (arith, v.total, e);
  }
  step-IsBalanced c _ _ (cancels p t k e) v = record {
    config = v.config;
    permits = omega (arith, v.permits, e);
    total = omega (arith, v.total, e);
  }
  step-IsBalanced c _ _ (creates p t k e) v = record {
    config = v.config;
    permits = omega (arith, v.permits, e);
    total = omega (arith, v.total, e);
  }
  step-IsBalanced c _ _ (create_fails p t k e) v = record {
    config = v.config;
    permits = omega (arith, v.permits, e);
    total = v.total;
  }
  step-IsBalanced c _ _ (gives_back p t k now x e) v = record {
    config = v.config;
    permits = omega (arith, v.permits, e);
    total = omega (arith, v.total, e, length-append p.state.available (new_pooled x now ∷ []));
  }
  step-IsBalanced c _ _ (leaves p t k e) v = record {
    config = v.config;
    permits = omega (arith, v.permits, e);
    total = v.total;
  }
  step-IsBalanced c _ _ (prunes p t now) v = record {
    config = v.config;
    permits = v.permits;
    total = omega (
      arith,
      expired_balance p.config now (t.checking + t.holding + t.dropped) p.state
          (omega (arith, v.total)),
    );
  }
  step-IsBalanced c _ _ (fills p t k now x e) v = record {
    config = v.config;
    permits = v.permits;
    total = omega (arith, v.total, length-append p.state.available (new_pooled x now ∷ []));
  }
  step-IsBalanced c _ _ (fill_fails p t k e) v = record {
    config = v.config;
    permits = v.permits;
    total = v.total;
  }
  step-IsBalanced c _ _ (shuts_down p t) v = record {
    config = v.config;
    permits = v.permits;
    total = omega (arith, v.total, drain_lem p.state.available p.state.total_connections);
  }

  Reach-IsBalanced : (c : PoolConfig) (a : System T) → Reach c a → IsBalanced c a
  unfolding start new
  Reach-IsBalanced c _ starts = record { config = refl; permits = omega arith; total = omega arith }
  Reach-IsBalanced c _ (steps a b r s) = step-IsBalanced c a b s (Reach-IsBalanced c a r)

  -- However the tasks interleave, at most `max_size` guards are live, and the pool's total is never less
  -- than the pooled connections and the guards together, so that taking connections off it never underflows.
  pub guards_bounded :
      (c : PoolConfig) (a : System T)
      → Reach c a
      → (a.tasks.holding ≤ c.max_size)
        × (length a.pool.state.available + a.tasks.holding ≤ a.pool.state.total_connections)
  guards_bounded c a r =
      let v = Reach-IsBalanced c a r in (omega (arith, v.permits), omega (arith, v.total))

  -- When no task checks or holds a connection, what the pool's total counts beyond the pooled connections is the number
  -- of reused connections that were found invalid or dropped with a cancelled acquisition: they were
  -- never taken off it.
  pub dropped_leak :
      (c : PoolConfig) (a : System T)
      → Reach c a
      → a.tasks.checking + a.tasks.holding ≡ 0
      → a.pool.state.total_connections ≡ length a.pool.state.available + a.tasks.dropped
  dropped_leak c a r quiet = let v = Reach-IsBalanced c a r in omega (arith, v.total, quiet)
