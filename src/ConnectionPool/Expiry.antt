-- ===== src/ConnectionPool/Expiry.antt =====
-- Which connections src/pooling/connection_pool.rs throws away, and when.
use rust_network_system.Base.{
  ℕ, suc, ◌-◌, ◌≤◌, ◌≡◌, refl, sym, ap, ap₂, inl, inr, ◌∙◌, false, Option, none, some, List, [],
  ◌∷◌, ◌++◌, append_assoc, map, arith, if◌then◌else◌, length, length-append, Bool-cases,
}
use rust_network_system.ConnectionPool.{
  PoolConfig, PooledConnection, PoolState, is_expired, outlives, new_pooled, expired_indices,
  remove_at, collect, remove_indices, remove_expired, pop, reuse, give_back,
}

outlives_young :
    (o : Option ℕ) (age : ℕ) → ((m : ℕ) → o ≡ some m → age ≤ m) → outlives o age ≡ false
unfolding outlives
outlives_young none age h = refl
outlives_young (some m) age h = ground (arith, h m refl)

-- Between the drop of a guard and the next acquisition neither limit passes.
abbrev pub Brief : PoolConfig → ℕ → List (ℕ × ℕ) → Type 0
Brief c at [] = Unit
Brief c at ((now, back) ∷ uses) =
    (now - at ≤ c.idle_timeout)
    × ((m : ℕ) → c.max_lifetime ≡ some m → now - at ≤ m)
    × Brief c back uses

module _ {T : Type 0} where
  -- The connections that have not expired, in their order, and how many have.
  unfoldable pub kept : PoolConfig → ℕ → List (PooledConnection T) → List (PooledConnection T)
  kept c now [] = []
  kept c now (p ∷ ps) = (let rest = kept c now ps in if is_expired c now p then rest else p ∷ rest)

  remove_at-append :
      (front : List (PooledConnection T)) (p : PooledConnection T)
      (back : List (PooledConnection T))
      → remove_at (length front) (front ++ (p ∷ back)) ≡ (some p, front ++ back)
  unfolding remove_at
  remove_at-append [] p back = refl
  remove_at-append (q ∷ front) p back = ap (λ r. (r.0, q ∷ r.1)) (remove_at-append front p back)

  pub kept-length :
      (c : PoolConfig) (now : ℕ) (ps : List (PooledConnection T))
      → length (kept c now ps) ≤ length ps
  unfolding kept
  kept-length c now [] = omega arith
  kept-length c now (p ∷ ps) = ground (arith, kept-length c now ps)

  Swept :
      PoolConfig
      → ℕ
      → List (PooledConnection T)
      → List (PooledConnection T)
      → ℕ
      → PoolState T
      → Type 0
  Swept c now front ps total s =
      (s.available ≡ front ++ kept c now ps)
      × (s.total_connections ≡ total - (length ps - length (kept c now ps)))

  collect-append :
      (front : List (PooledConnection T)) (p : PooledConnection T)
      (back : List (PooledConnection T)) (r : List T × PoolState T)
      → r.1.available ≡ front ++ (p ∷ back)
      → ((collect (remove_at (length front) r.1.available) r.1 r.0).1.available ≡ front ++ back)
        × ((collect (remove_at (length front) r.1.available) r.1 r.0).1.total_connections
            ≡ r.1.total_connections - 1)
  unfolding collect
  collect-append front p back r e =
      let found = ap (remove_at (length front)) e ∙ remove_at-append front p back in
      (
        ap (λ f. (collect f r.1 r.0).1.available) found,
        ap (λ f. (collect f r.1 r.0).1.total_connections) found,
      )

  -- The loop over the rest, seen from one element further on.
  next-Swept :
      (c : PoolConfig) (now : ℕ) (front : List (PooledConnection T)) (p : PooledConnection T)
      (ps : List (PooledConnection T)) (total : ℕ)
      → Swept c now
          (front ++ (p ∷ []))
          ps
          total
          (remove_indices
            (expired_indices c now (length (front ++ (p ∷ []))) ps)
            (record { available = (front ++ (p ∷ [])) ++ ps; total_connections = total })).1
      → let r =
          (remove_indices
            (expired_indices c now (suc (length front)) ps)
            (record { available = front ++ (p ∷ ps); total_connections = total })).1 in
        (r.available ≡ front ++ (p ∷ kept c now ps))
        × (r.total_connections ≡ total - (length ps - length (kept c now ps)))
  unfolding Swept
  next-Swept c now front p ps total ih =
      let same =
        ap₂
          (λ k xs.
            (remove_indices (expired_indices c now k ps)
              (record { available = xs; total_connections = total })).1)
          (length-append front (p ∷ []) ∙ omega arith) (append_assoc front (p ∷ []) ps) in
      (
        sym (ap (λ r. r.available) same) ∙ ih.0 ∙ append_assoc front (p ∷ []) (kept c now ps),
        sym (ap (λ r. r.total_connections) same) ∙ ih.1,
      )

  sweep :
      (c : PoolConfig) (now : ℕ) (front ps : List (PooledConnection T)) (total : ℕ)
      → Swept c now front ps total
          (remove_indices
            (expired_indices c now (length front) ps)
            (record { available = front ++ ps; total_connections = total })).1
  unfolding Swept kept expired_indices remove_indices
  sweep c now front [] total = (refl, omega arith)
  sweep c now front (p ∷ ps) total =
      let ih = next-Swept c now front p ps total (sweep c now (front ++ (p ∷ [])) ps total) in
      elim (Bool-cases (is_expired c now p)) [
        | inl h ↦ rw (h) (
            let gone =
              collect-append front p (kept c now ps)
                (remove_indices (expired_indices c now (suc (length front)) ps)
                  (record { available = front ++ (p ∷ ps); total_connections = total }))
                ih.0 in
            (gone.0, omega (arith, gone.1, ih.1, kept-length c now ps)))
        | inr h ↦ rw (h) (ih.0, omega (arith, ih.1))
      ]

  -- Removing the expired connections by their indices, from the last to the first, leaves exactly the connections
  -- that have not expired, in their order, and takes the number of the others off the total.
  pub remove_expired_lem :
      (c : PoolConfig) (now : ℕ) (s : PoolState T)
      → ((remove_expired c now s).1.available ≡ kept c now s.available)
        × ((remove_expired c now s).1.total_connections
            ≡ s.total_connections - (length s.available - length (kept c now s.available)))
  unfolding remove_expired Swept
  remove_expired_lem c now s = sweep c now [] s.available s.total_connections

  young :
      (c : PoolConfig) (now : ℕ) (x : T) (at : ℕ)
      → now - at ≤ c.idle_timeout
      → ((m : ℕ) → c.max_lifetime ≡ some m → now - at ≤ m)
      → is_expired c now (new_pooled x at) ≡ false
  unfolding is_expired new_pooled
  young c now x at idle fresh = ground (arith, idle, outlives_young c.max_lifetime (now - at) fresh)

  -- Uses of one connection, each from an acquisition to the drop of the guard, in turn.
  abbrev pub serves : PoolConfig → T → List (ℕ × ℕ) → PoolState T → List (Option T)
  serves c x [] s = []
  serves c x ((now, back) ∷ uses) s =
      (let r = reuse c now s in r.0 ∷ serves c x uses (give_back x back r.1))

  pop_one :
      (s : PoolState T) (p : PooledConnection T)
      → s.available ≡ p ∷ []
      → ((pop s).0 ≡ some p.connection) × ((pop s).1.available ≡ [])
  unfolding pop
  pop_one s p e = rw (e) (refl, refl)

  reuse_young :
      (c : PoolConfig) (now : ℕ) (x : T) (at : ℕ) (s : PoolState T)
      → s.available ≡ new_pooled x at ∷ []
      → is_expired c now (new_pooled x at) ≡ false
      → ((reuse c now s).0 ≡ some x) × ((reuse c now s).1.available ≡ [])
  unfolding reuse kept new_pooled
  reuse_young c now x at s e fresh = pop_one (remove_expired c now s).1 (new_pooled x at) (
      (remove_expired_lem c now s).0
      ∙ ap (kept c now) e
      ∙ ap (λ b. if b then [] else new_pooled x at ∷ []) fresh)

  -- In a pool with one connection, which is acquired again within both limits after each drop, every use
  -- is served with that connection, however old it is: the drop of the guard starts its lifetime anew, so
  -- that `max_lifetime` bounds only the time between two uses.
  pub lifetime_restarts :
      (c : PoolConfig) (x : T) (at : ℕ) (uses : List (ℕ × ℕ)) (s : PoolState T)
      → s.available ≡ new_pooled x at ∷ []
      → Brief c at uses
      → serves c x uses s ≡ map (λ u. some x) uses
  unfolding give_back
  lifetime_restarts c x at [] s e brief = refl
  lifetime_restarts c x at ((now, back) ∷ uses) s e (idle, fresh, later) =
      let (served, emptied) = reuse_young c now x at s e (young c now x at idle fresh) in
      ap₂ (◌∷◌) served (
        lifetime_restarts c x back uses (give_back x back (reuse c now s).1)
          (ap (λ l. l ++ (new_pooled x back ∷ [])) emptied) later)
