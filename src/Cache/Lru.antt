-- ===== src/Cache/Lru.antt =====
-- The methods of src/pooling/cache.rs on a cache whose eviction order agrees with its entries.
use rust_network_system.Base.{
  ℕ, ◌+◌, ◌≤◌, ◌<◌, ◌≡◌, refl, sym, ap, subst, inl, inr, true, false, Option, none, some, List, [],
  ◌∷◌, arith, length, if◌then◌else◌, Option-cases, le_or_gt,
}
use rust_network_system.Cache.{
  Cache, CacheConfig, CacheEntry, outlived, touch, get_found, get, evict_front, evict_key,
  evict_one, contains_key, make_room, store, insert, new_entry, remove, forget, new,
}
use rust_network_system.Cache.Maps.{
  find, put, bound, count, unbound_of_find, bound_of_find, length-erase, erase_unbound,
  find_of_unbound,
}
use rust_network_system.Cache.Order.{
  Agree, InSync, Agree-hit, Agree-store, Agree-evict, Agree-forget, Agree-front, bound-erase,
}

module _ {K V : Type 0} (dec : Discrete K) where
  abbrev pub Fits : Cache K V → Type 0
  Fits c = length c.entries ≤ c.config.capacity

  -- The order after a step, where the configuration enables it.
  pub ordered :
      (c : Cache K V) (m : List (K × CacheEntry V)) (order : List K)
      → InSync dec c
      → Agree dec m order
      → InSync dec
          (record c { entries = m; lru_order = if c.config.enable_lru then order else c.lru_order })
  ordered c m order v a = record {
    lru = v.lru;
    agree = subst (λ b. Agree dec m (if b then order else c.lru_order)) (sym v.lru) a;
  }

  -- A read of a key that has not expired keeps the agreement and the number of the entries.
  pub get-InSync :
      (c : Cache K V) (key : K) (now later : ℕ)
      → ((e : CacheEntry V) → find dec key c.entries ≡ some e → outlived c.config.ttl e now ≡ false)
      → InSync dec c
      → Fits c
      → InSync dec (get dec c key now later).1 × Fits (get dec c key now later).1
  unfolding get get_found put
  get-InSync c key now later fresh v fits = elim (Option-cases (find dec key c.entries)) [
    | inl miss ↦ rw (miss, get) (v, fits)
    | inr (e, hit) ↦
        rw (hit, get, fresh e hit, get_found)
          (
            ordered c _ _ v
                (Agree-hit dec key (touch e later) (bound_of_find dec key c.entries e hit) v.agree),
            omega (
              arith,
              fits,
              length-erase dec key c.entries (bound_of_find dec key c.entries e hit),
            ),
          )
  ]

  store-InSync :
      (c : Cache K V) (key : K) (e : CacheEntry V)
      → bound dec key c.entries ≡ 0
      → InSync dec c
      → InSync dec (store dec c key e) × (length (store dec c key e).entries ≡ length c.entries + 1)
  unfolding store put
  store-InSync c key e new v = (
    ordered c _ _ v (Agree-store dec key e new v.agree),
    omega (arith, ap length (erase_unbound dec key c.entries new)),
  )

  -- So does a removal.
  pub remove-InSync :
      (c : Cache K V) (key : K)
      → InSync dec c
      → Fits c
      → InSync dec (remove dec c key).1 × Fits (remove dec c key).1
  unfolding remove forget
  remove-InSync c key v fits = elim (Option-cases (find dec key c.entries)) [
    | inl miss ↦ rw (miss, remove) (v, fits)
    | inr (e, hit) ↦
        let held = bound_of_find dec key c.entries e hit in
        rw (hit, remove)
          (
            ordered c _ _ v (Agree-forget dec key held v.agree),
            omega (arith, fits, length-erase dec key c.entries held),
          )
  ]

  pub contains-unbound :
      (key : K) (m : List (K × CacheEntry V)) → bound dec key m ≡ 0 → contains_key dec key m ≡ false
  unfolding contains_key
  contains-unbound key m h = rw (find_of_unbound dec key m h, contains_key) refl

  -- What an insertion of a new key finds when it stores the entry.
  record Roomy (c : Cache K V) (key : K) : Type 0 where
    synced : InSync dec c
    unbound : bound dec key c.entries ≡ 0
    room : length c.entries < c.config.capacity

  evict_front-Roomy :
      (c : Cache K V) (key : K) (order : List K)
      → c.lru_order ≡ order
      → 0 < c.config.capacity
      → bound dec key c.entries ≡ 0
      → c.config.capacity ≤ length c.entries
      → InSync dec c
      → Fits c
      → Roomy (evict_front dec c order) key
  unfolding evict_front
  evict_front-Roomy c key [] e some_room new full v fits =
      absurd (omega (arith, v.agree.size, ap length e, some_room, full))
  evict_front-Roomy c key (k ∷ order) e some_room new full v fits =
      let agree = subst (Agree dec c.entries) e v.agree in
      let held = Agree-front dec k order agree in
      record {
        synced = record { lru = v.lru; agree = Agree-evict dec k agree };
        unbound = ground (arith, bound-erase dec k key c.entries, agree.once k, new, held);
        room = omega (arith, length-erase dec k c.entries held, fits);
      }

  pub make_room_full :
      (first_key : List (K × CacheEntry V) → Option K) (c : Cache K V) (key : K)
      → contains_key dec key c.entries ≡ false
      → c.config.capacity ≤ length c.entries
      → c.config.enable_lru ≡ true
      → make_room dec first_key c key ≡ evict_front dec c c.lru_order
  unfolding make_room evict_one
  make_room_full first_key c key new full lru = ground (arith, new, lru)

  pub make_room_free :
      (first_key : List (K × CacheEntry V) → Option K) (c : Cache K V) (key : K)
      → length c.entries < c.config.capacity
      → make_room dec first_key c key ≡ c
  unfolding make_room
  make_room_free first_key c key free = ground arith

  make_room-Roomy :
      (first_key : List (K × CacheEntry V) → Option K) (c : Cache K V) (key : K)
      → 0 < c.config.capacity
      → bound dec key c.entries ≡ 0
      → InSync dec c
      → Fits c
      → Roomy (make_room dec first_key c key) key
  make_room-Roomy first_key c key some_room new v fits =
      elim (le_or_gt c.config.capacity (length c.entries)) [
        | inl full ↦
            subst (λ d. Roomy d key)
              (sym (make_room_full first_key c key (contains-unbound key c.entries new) full v.lru))
              (evict_front-Roomy c key c.lru_order refl some_room new full v fits)
        | inr free ↦
            subst (λ d. Roomy d key) (sym (make_room_free first_key c key free))
              (record { synced = v; unbound = new; room = free })
      ]

  -- The capacity is the configuration's, which no step changes.
  pub make_room-config :
      (first_key : List (K × CacheEntry V) → Option K) (c : Cache K V) (key : K)
      → (make_room dec first_key c key).config ≡ c.config
  unfolding make_room evict_one evict_front evict_key
  make_room-config first_key c key = ground arith

  -- Inserting a new key into a cache whose eviction order agrees with its entries keeps that agreement and the
  -- capacity: each key with an entry stands once in the order, and the entries stay within a positive capacity.
  pub insert-InSync :
      (first_key : List (K × CacheEntry V) → Option K) (c : Cache K V) (key : K) (value : V)
      (now : ℕ)
      → 0 < c.config.capacity
      → find dec key c.entries ≡ none
      → InSync dec c
      → Fits c
      → InSync dec (insert dec first_key c key value now)
        × Fits (insert dec first_key c key value now)
  unfolding insert
  insert-InSync first_key c key value now some_room new v fits =
      let r =
        make_room-Roomy first_key c key some_room (unbound_of_find dec key c.entries new) v fits in
      let s =
        store-InSync (make_room dec first_key c key) key (new_entry value now) r.unbound r.synced in
      (s.0, omega (arith, s.1, r.room))

  pub new-InSync : (c : CacheConfig) → c.enable_lru ≡ true → InSync dec (new {K = K} {V = V} c)
  unfolding new bound count
  new-InSync c lru = record {
    lru = lru;
    agree = record { once = λ k. omega arith; same = λ k. refl; size = refl };
  }
