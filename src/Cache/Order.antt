-- ===== src/Cache/Order.antt =====
-- The eviction order of src/pooling/cache.rs while it agrees with the entries.
use rust_network_system.Base.{
  ◌-◌, ◌≤◌, ◌<◌, ◌≡◌, ap, true, List, [], ◌∷◌, ◌++◌, arith, length, length-append, ite,
}
use rust_network_system.Cache.{Cache, CacheEntry, move_back}
use rust_network_system.Cache.Maps.{
  erase, put, bound, remove_first, count, bound-erase_self, bound-erase_ne, length-erase,
  erase_unbound, count-append, count-remove_self, count-remove_ne, length-remove, position_of_count,
}

-- A key that is moved to the back stands in the order as often as before.
module _ {K : Type 0} (dec : Discrete K) where
  count-remove :
      (k j : K) (l : List K)
      → count dec j (remove_first dec k l) ≡ ite (dec k j) (count dec k l - 1) (count dec j l)
  count-remove k j l = elim (dec k j) [
    | yes p ↦ ground (arith, count-remove_self dec k l)
    | no p ↦ ground (arith, count-remove_ne dec k j l p)
  ]

  count-move_back :
      (k j : K) (l : List K) → 0 < count dec k l → count dec j (move_back dec k l) ≡ count dec j l
  unfolding move_back count
  count-move_back k j l h = elim (dec k j) [
    | yes p ↦ rw (position_of_count dec k l h) (
        ground
          (arith, count-append dec j (remove_first dec k l) (k ∷ []), count-remove_self dec k l))
    | no p ↦ rw (position_of_count dec k l h) (
        ground
          (arith, count-append dec j (remove_first dec k l) (k ∷ []), count-remove_ne dec k j l p))
  ]

  length-move_back :
      (k : K) (l : List K) → 0 < count dec k l → length (move_back dec k l) ≡ length l
  unfolding move_back
  length-move_back k l h =
      rw (position_of_count dec k l h)
        (omega (arith, length-append (remove_first dec k l) (k ∷ []), length-remove dec k l h))

module _ {K V : Type 0} (dec : Discrete K) where
  -- Every key in the map stands once in the order, and no other key does.
  pub record Agree (m : List (K × CacheEntry V)) (order : List K) : Type 0 where
    pub once : (k : K) → bound dec k m ≤ 1
    pub same : (k : K) → count dec k order ≡ bound dec k m
    pub size : length order ≡ length m

  pub record InSync (c : Cache K V) : Type 0 where
    pub lru : c.config.enable_lru ≡ true
    pub agree : Agree c.entries c.lru_order

  pub bound-put :
      (k j : K) (e : CacheEntry V) (m : List (K × CacheEntry V))
      → bound dec k m ≤ 1
      → bound dec j (put dec k e m) ≡ ite (dec k j) 1 (bound dec j m)
  unfolding put bound
  bound-put k j e m h = elim (dec k j) [
    | yes p ↦ ground (arith, bound-erase_self dec k m)
    | no p ↦ ground (arith, bound-erase_ne dec k j m p)
  ]

  pub length-put_bound :
      (k : K) (e : CacheEntry V) (m : List (K × CacheEntry V))
      → 0 < bound dec k m
      → length (put dec k e m) ≡ length m
  unfolding put
  length-put_bound k e m h = omega (arith, length-erase dec k m h)

  bound-put-le :
      (k j : K) (e : CacheEntry V) (m : List (K × CacheEntry V))
      → bound dec k m ≤ 1
      → bound dec j m ≤ 1
      → bound dec j (put dec k e m) ≤ 1
  bound-put-le k j e m h h' = ground (arith, bound-put k j e m h)

  pub Agree-hit :
      (k : K) (e : CacheEntry V) {m : List (K × CacheEntry V)} {order : List K}
      → 0 < bound dec k m
      → Agree m order
      → Agree (put dec k e m) (move_back dec k order)
  Agree-hit k e {m} {order} h v = record {
    once = λ j. bound-put-le k j e m (v.once k) (v.once j);
    same = λ j. ground (
      arith,
      count-move_back dec k j order (omega (arith, v.same k)),
      bound-put k j e m (v.once k),
      v.same j,
      v.same k,
      v.once k,
    );
    size = omega (
      arith,
      length-move_back dec k order (omega (arith, v.same k)),
      length-put_bound k e m h,
      v.size,
    );
  }

  pub Agree-store :
      (k : K) (e : CacheEntry V) {m : List (K × CacheEntry V)} {order : List K}
      → bound dec k m ≡ 0
      → Agree m order
      → Agree (put dec k e m) (order ++ (k ∷ []))
  unfolding count put
  Agree-store k e {m} {order} h v = record {
    once = λ j. bound-put-le k j e m (v.once k) (v.once j);
    same = λ j. ground (
      arith,
      count-append dec j order (k ∷ []),
      bound-put k j e m (v.once k),
      v.same j,
      v.same k,
    );
    size = omega (arith, length-append order (k ∷ []), ap length (erase_unbound dec k m h), v.size);
  }

  pub bound-erase :
      (k j : K) (m : List (K × CacheEntry V))
      → bound dec j (erase dec k m) ≡ ite (dec k j) (bound dec k m - 1) (bound dec j m)
  bound-erase k j m = elim (dec k j) [
    | yes p ↦ ground (arith, bound-erase_self dec k m)
    | no p ↦ ground (arith, bound-erase_ne dec k j m p)
  ]

  pub Agree-evict :
      (k : K) {m : List (K × CacheEntry V)} {order : List K}
      → Agree m (k ∷ order)
      → Agree (erase dec k m) order
  unfolding count
  Agree-evict k {m} {order} v = record {
    once = λ j. ground (arith, bound-erase k j m, v.once k, v.once j);
    same = λ j. ground (arith, bound-erase k j m, v.same k, v.same j);
    size = omega (arith, length-erase dec k m (ground (arith, v.same k)), v.size);
  }

  pub Agree-forget :
      (k : K) {m : List (K × CacheEntry V)} {order : List K}
      → 0 < bound dec k m
      → Agree m order
      → Agree (erase dec k m) (remove_first dec k order)
  Agree-forget k {m} {order} h v = record {
    once = λ j. ground (arith, bound-erase k j m, v.once k, v.once j);
    same = λ j. ground (arith, bound-erase k j m, count-remove dec k j order, v.same k, v.same j);
    size = omega (
      arith,
      length-erase dec k m h,
      length-remove dec k order (omega (arith, v.same k)),
      v.size,
    );
  }

  pub Agree-front :
      (k : K) (order : List K) {m : List (K × CacheEntry V)}
      → Agree m (k ∷ order)
      → 0 < bound dec k m
  unfolding count
  Agree-front k order v = ground (arith, v.same k)
