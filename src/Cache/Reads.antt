-- ===== src/Cache/Reads.antt =====
-- What a read of src/pooling/cache.rs returns after a write.
use rust_network_system.Base.{
  ℕ, ◌-◌, ◌≤◌, ◌≡◌, refl, sym, ap, ◌∙◌, ◌≢◌, false, Option, none, some, List, ◌∷◌, arith, length,
}
use rust_network_system.Cache.{
  Cache, CacheEntry, is_expired, outlived, get_found, get, evict_front, store, insert, new_entry,
}
use rust_network_system.Cache.Maps.{
  find, erase, find-put_self, find-put_ne, find-erase_ne, bound-erase_self, find_of_unbound,
  unbound_of_find,
}
use rust_network_system.Cache.Order.{InSync}
use rust_network_system.Cache.Lru.{make_room-config, make_room_full, contains-unbound}

module _ {K V : Type 0} (dec : Discrete K) where
  find-insert_self :
      (first_key : List (K × CacheEntry V) → Option K) (c : Cache K V) (key : K) (value : V)
      (now : ℕ)
      → find dec key (insert dec first_key c key value now).entries ≡ some (new_entry value now)
  unfolding insert store
  find-insert_self first_key c key value now = find-put_self dec key (new_entry value now) _

  outlived-new_entry :
      (ttl : Option ℕ) (value : V) (written now : ℕ)
      → ((t : ℕ) → ttl ≡ some t → now - written ≤ t)
      → outlived ttl (new_entry value written) now ≡ false
  unfolding outlived is_expired new_entry
  outlived-new_entry none value written now h = refl
  outlived-new_entry (some t) value written now h = ground (arith, h t refl)

  insert-config :
      (first_key : List (K × CacheEntry V) → Option K) (c : Cache K V) (key : K) (value : V)
      (now : ℕ)
      → (insert dec first_key c key value now).config ≡ c.config
  unfolding insert store
  insert-config first_key c key value now = make_room-config dec first_key c key

  get_found-young :
      (c : Cache K V) (key : K) (now later : ℕ) (e : CacheEntry V)
      → find dec key c.entries ≡ some e
      → outlived c.config.ttl e now ≡ false
      → (get dec c key now later).0 ≡ some e.value
  unfolding get get_found
  get_found-young c key now later e hit young = rw (hit, get, young) refl

  -- A value that was just inserted, whatever the cache held, is what a read of its key returns as long
  -- as its age does not exceed the configured time to live.
  pub get-insert :
      (first_key : List (K × CacheEntry V) → Option K) (c : Cache K V) (key : K) (value : V)
      (written now later : ℕ)
      → ((t : ℕ) → c.config.ttl ≡ some t → now - written ≤ t)
      → (get dec (insert dec first_key c key value written) key now later).0 ≡ some value
  unfolding new_entry
  get-insert first_key c key value written now later young =
      get_found-young (insert dec first_key c key value written) key now later
        (new_entry value written) (find-insert_self first_key c key value written)
        (ap (λ g. outlived g.ttl (new_entry value written) now)
            (insert-config first_key c key value written)
          ∙ outlived-new_entry c.config.ttl value written now young)

  -- On a full cache whose eviction order agrees with its entries, inserting a new key removes the key at
  -- the front of the order and no other: that key is gone, and a third key's entry is what it was.
  pub insert_evicts :
      (first_key : List (K × CacheEntry V) → Option K) (c : Cache K V) (oldest : K) (order : List K)
      (key : K) (value : V) (now : ℕ)
      → InSync dec c
      → c.lru_order ≡ oldest ∷ order
      → c.config.capacity ≤ length c.entries
      → find dec key c.entries ≡ none
      → oldest ≢ key
      → (find dec oldest (insert dec first_key c key value now).entries ≡ none)
        × ((j : K)
            → oldest ≢ j
            → key ≢ j
            → find dec j (insert dec first_key c key value now).entries ≡ find dec j c.entries)
  unfolding insert store evict_front
  insert_evicts first_key c oldest order key value now v front full new ne =
      let room =
        make_room_full dec first_key c key
          (contains-unbound dec key c.entries (unbound_of_find dec key c.entries new)) full v.lru
        ∙ ap (evict_front dec c) front in
      let after = ap (λ d. d.entries) room in
      (
        find-put_ne dec key oldest (new_entry value now) _ (λ e. ne (sym e))
            ∙ ap (find dec oldest) after
            ∙ find_of_unbound dec oldest (erase dec oldest c.entries)
                (omega (arith, bound-erase_self dec oldest c.entries, v.agree.once oldest)),
        λ j p q.
            find-put_ne dec key j (new_entry value now) _ q
            ∙ ap (find dec j) after
            ∙ find-erase_ne dec oldest j c.entries p,
      )
