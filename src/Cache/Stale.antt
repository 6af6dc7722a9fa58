-- ===== src/Cache/Stale.antt =====
-- What src/pooling/cache.rs does when its eviction order and its entries disagree: `get` of an expired
-- entry leaves the key in the order, and `insert` of a present key pushes the key a second time.
use rust_network_system.Base.{
  ℕ, ◌+◌, ◌<◌, ◌≡◌, refl, sym, ap, ◌∙◌, ◌≢◌, true, Option, none, some, List, [], ◌∷◌, ◌++◌, arith,
  length,
}
use rust_network_system.Cache.{
  Cache, CacheEntry, outlived, get_found, get, evict_front, contains_key, make_room, store, insert,
  new_entry,
}
use rust_network_system.Cache.Maps.{
  find, erase, put, bound, find-put_ne, bound-erase_self, find_of_unbound, find_of_bound,
  erase_unbound,
}
use rust_network_system.Cache.Order.{InSync, bound-put, length-put_bound}
use rust_network_system.Cache.Lru.{make_room_full, contains-unbound}

module _ {K V : Type 0} (dec : Discrete K) where
  -- A read of an expired entry returns nothing and removes the entry, and leaves the eviction order as
  -- it was, so that the key stays in it.
  pub get_expired :
      (c : Cache K V) (key : K) (now later : ℕ) (e : CacheEntry V)
      → find dec key c.entries ≡ some e
      → outlived c.config.ttl e now ≡ true
      → InSync dec c
      → ((get dec c key now later).0 ≡ none)
        × (bound dec key (get dec c key now later).1.entries ≡ 0)
        × ((get dec c key now later).1.lru_order ≡ c.lru_order)
  unfolding get bound
  get_expired c key now later e hit old v =
      rw (hit, get, old, get_found)
        (refl, omega (arith, bound-erase_self dec key c.entries, v.agree.once key), refl)

  -- When the front of the eviction order is a key that has no entry any more, inserting a new key into a
  -- full cache evicts nothing, and the cache then holds one entry more than its capacity.
  pub overflow :
      (first_key : List (K × CacheEntry V) → Option K) (c : Cache K V) (stale : K) (order : List K)
      (key : K) (value : V) (now : ℕ)
      → c.config.enable_lru ≡ true
      → c.lru_order ≡ stale ∷ order
      → bound dec stale c.entries ≡ 0
      → length c.entries ≡ c.config.capacity
      → bound dec key c.entries ≡ 0
      → length (insert dec first_key c key value now).entries ≡ c.config.capacity + 1
  unfolding insert store evict_front put
  overflow first_key c stale order key value now lru front gone full new =
      let room =
        make_room_full dec first_key c key (contains-unbound dec key c.entries new)
          (omega (arith, full)) lru
        ∙ ap (evict_front dec c) front in
      let same = ap (λ d. d.entries) room ∙ erase_unbound dec stale c.entries gone in
      omega (
        arith,
        ap (λ m. length (erase dec key m)) same,
        ap length (erase_unbound dec key c.entries new),
        full,
      )

  contains-bound :
      (key : K) (m : List (K × CacheEntry V))
      → ((e : CacheEntry V) × (find dec key m ≡ some e))
      → contains_key dec key m ≡ true
  unfolding contains_key
  contains-bound key m (e, hit) = rw (hit, contains_key) refl

  present_stays :
      (first_key : List (K × CacheEntry V) → Option K) (c : Cache K V) (key : K)
      → ((e : CacheEntry V) × (find dec key c.entries ≡ some e))
      → make_room dec first_key c key ≡ c
  unfolding make_room
  present_stays first_key c key held = ground (arith, contains-bound key c.entries held)

  insert_present :
      (first_key : List (K × CacheEntry V) → Option K) (c : Cache K V) (key : K) (value : V)
      (now : ℕ)
      → 0 < bound dec key c.entries
      → insert dec first_key c key value now ≡ store dec c key (new_entry value now)
  unfolding insert
  insert_present first_key c key value now held =
      ap (λ d. store dec d key (new_entry value now))
        (present_stays first_key c key (find_of_bound dec key c.entries held))

  stored_order :
      (c : Cache K V) (key : K) (e : CacheEntry V) (order : List K)
      → c.config.enable_lru ≡ true
      → c.lru_order ≡ key ∷ order
      → (store dec c key e).lru_order ≡ key ∷ (order ++ (key ∷ []))
  unfolding store
  stored_order c key e order lru front = rw (lru, front) refl

  -- When the key at the front of the eviction order of a full cache is written again and a new key is
  -- inserted next, the key that was just written is the one that is evicted.
  pub rewritten_is_evicted :
      (first_key : List (K × CacheEntry V) → Option K) (c : Cache K V) (key : K) (order : List K)
      (value : V) (fresh : K) (other : V) (now : ℕ)
      → InSync dec c
      → c.lru_order ≡ key ∷ order
      → length c.entries ≡ c.config.capacity
      → 0 < bound dec key c.entries
      → bound dec fresh c.entries ≡ 0
      → key ≢ fresh
      → find dec key
          (insert dec first_key (insert dec first_key c key value now) fresh other now).entries
        ≡ none
  unfolding insert store evict_front
  rewritten_is_evicted first_key c key order value fresh other now v front full held new ne =
      let e = new_entry value now in
      let kept = insert_present first_key c key value now held in
      let c' = store dec c key e in
      let self : bound dec key c'.entries ≡ 1 =
        ground (arith, bound-put dec key key e c.entries (v.agree.once key)) in
      let unbound : bound dec fresh c'.entries ≡ 0 =
        ground (arith, bound-put dec key fresh e c.entries (v.agree.once key), new) in
      let room =
        make_room_full dec first_key c' fresh (contains-unbound dec fresh c'.entries unbound)
          (omega (arith, length-put_bound dec key e c.entries held, full)) v.lru
        ∙ ap (evict_front dec c') (stored_order c key e order v.lru front) in
      ap (λ d. find dec key (insert dec first_key d fresh other now).entries) kept
      ∙ find-put_ne dec fresh key (new_entry other now) _ (λ p. ne (sym p))
      ∙ ap (λ d. find dec key d.entries) room
      ∙ find_of_unbound dec key (erase dec key c'.entries)
          (omega (arith, bound-erase_self dec key c'.entries, self))
