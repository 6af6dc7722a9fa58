-- ===== src/Cache/Simulation.antt =====
-- Each call on the cache of src/pooling/cache.rs, and the same call on the list that the cache stands for.
use rust_network_system.Base.{
  ℕ, ◌<◌, ◌≡◌, refl, sym, ap, ◌∙◌, true, if◌then◌else◌, leb, Option, none, some, List, [], ◌∷◌,
  ◌++◌, arith, length, drop, inl, inr, Option-cases, le_or_gt, le→leb, not-leb, Bool-cases,
}
use rust_network_system.Cache.{
  Cache, CacheEntry, insert, get, remove, clear, clear_entries, clear_order, new, get_found, touch,
  store, new_entry, make_room, evict_front, forget, move_back,
}
use rust_network_system.Cache.Maps.{
  find, erase, count, remove_first, find-erase_ne, unbound_of_find, bound_of_find,
  position_of_count,
}
use rust_network_system.Cache.Order.{InSync}
use rust_network_system.Cache.Lru.{
  make_room_full, make_room_free, contains-unbound, make_room-config,
}
use rust_network_system.Cache.Calls.{Call, inserts, gets, removes, clears, step, Regular}
use rust_network_system.Cache.Recency.{
  value_in, use_key, take_key, replay, answer, Views, keys-erase, keys-append, unbound_tail, once,
  length-Views, gone, values-put, values-erase,
}

module _ {K V : Type 0} (dec : Discrete K) where
  -- The answers agree, and the cache shows the list.
  abbrev pub Simulates : Option V × Cache K V → Option V × List (K × V) → Type 0
  Simulates r q = (r.0 ≡ q.0) × Views dec r.1 q.1

  get-Simulates :
      (c : Cache K V) (l : List (K × V)) (key : K) (now later : ℕ)
      → Regular dec c (gets key now later)
      → InSync dec c
      → Views dec c l
      → Simulates (get dec c key now later) (use_key dec key l (find dec key l))
  unfolding get get_found move_back use_key touch
  get-Simulates c l key now later fresh v w = elim (Option-cases (find dec key c.entries)) [
    | inl miss ↦
        let none_there : find dec key l ≡ none = sym (w.values key) ∙ ap value_in miss in
        rw (miss, none_there, get, use_key) (refl, w)
    | inr (e, hit) ↦
        let there : find dec key l ≡ some e.value = sym (w.values key) ∙ ap value_in hit in
        let held : 0 < count dec key c.lru_order =
          omega (arith, v.agree.same key, bound_of_find dec key c.entries e hit) in
        rw
          (
            hit,
            there,
            get,
            use_key,
            fresh e hit,
            get_found,
            v.lru,
            position_of_count dec key c.lru_order held,
          )
          (
            refl,
            record {
              order =
                  ap (λ o. remove_first dec key o ++ (key ∷ [])) w.order
                  ∙ ap (λ o. o ++ (key ∷ [])) (sym (keys-erase dec key l))
                  ∙ sym (keys-append dec (erase dec key l) ((key, e.value) ∷ []));
              values = λ k.
                  values-put dec key k (touch e later) c.entries (erase dec key l)
                    (gone dec key l (once dec c l key v w))
                    (λ ne. w.values k ∙ sym (find-erase_ne dec key k l ne));
            },
          )
  ]

  remove-Simulates :
      (c : Cache K V) (l : List (K × V)) (key : K)
      → InSync dec c
      → Views dec c l
      → Simulates (remove dec c key) (take_key dec key l (find dec key l))
  unfolding remove forget take_key
  remove-Simulates c l key v w = elim (Option-cases (find dec key c.entries)) [
    | inl miss ↦
        let none_there : find dec key l ≡ none = sym (w.values key) ∙ ap value_in miss in
        rw (miss, none_there, remove, take_key) (refl, w)
    | inr (e, hit) ↦
        let there : find dec key l ≡ some e.value = sym (w.values key) ∙ ap value_in hit in
        rw (hit, there, remove, take_key, v.lru)
          (
            refl,
            record {
              order = ap (remove_first dec key) w.order ∙ sym (keys-erase dec key l);
              values = λ k.
                  values-erase dec key k c.entries l (v.agree.once key) (once dec c l key v w)
                    (w.values k);
            },
          )
  ]

  clears-Views : (c : Cache K V) → InSync dec c → Views dec (clear c) []
  unfolding clear clear_entries clear_order find
  clears-Views c v = rw (v.lru) (record { order = refl; values = λ k. refl })

  erase_front : (o : K) (x : V) (l : List (K × V)) → erase dec o ((o, x) ∷ l) ≡ l
  unfolding erase
  erase_front o x l = ground arith

  -- The cache and the list after the front of both is gone, when they are full.
  evict_front-Views :
      (c : Cache K V) (l : List (K × V))
      → 0 < length l
      → InSync dec c
      → Views dec c l
      → Views dec (evict_front dec c c.lru_order) (drop 1 l)
  unfolding evict_front
  evict_front-Views c [] some_there v w = absurd (omega (arith, some_there))
  evict_front-Views c ((o, x) ∷ l) some_there v w =
      rw (w.order, evict_front)
        (record {
          order = refl;
          values = λ k.
              values-erase dec o k c.entries ((o, x) ∷ l) (v.agree.once o)
                (once dec c ((o, x) ∷ l) o v w) (w.values k)
              ∙ ap (find dec k) (erase_front o x l);
        })

  -- What `insert` makes room in, and the list with room.
  make_room-Views :
      (first_key : List (K × CacheEntry V) → Option K) (c : Cache K V) (l : List (K × V)) (key : K)
      → 0 < c.config.capacity
      → find dec key c.entries ≡ none
      → InSync dec c
      → Views dec c l
      → Views dec
          (make_room dec first_key c key)
          (if leb c.config.capacity (length l) then drop 1 l else l)
  make_room-Views first_key c l key some_room new v w =
      let same = length-Views dec c l v w in
      elim (le_or_gt c.config.capacity (length c.entries)) [
        | inl full ↦
            rw
              (
                make_room_full dec first_key c key
                    (contains-unbound dec key c.entries (unbound_of_find dec key c.entries new))
                    full v.lru,
                le→leb c.config.capacity (length l) (omega (arith, full, same)),
              )
              (evict_front-Views c l (omega (arith, full, same, some_room)) v w)
        | inr free ↦
            rw
              (
                make_room_free dec first_key c key free,
                not-leb c.config.capacity (length l) (omega (arith, free, same)),
              )
              w
      ]

  unbound_drop :
      (key : K) (l : List (K × V)) → find dec key l ≡ none → find dec key (drop 1 l) ≡ none
  unbound_drop key [] h = h
  unbound_drop key ((o, v) ∷ l) h = unbound_tail dec key o v l h

  store-Views :
      (c : Cache K V) (l : List (K × V)) (key : K) (e : CacheEntry V)
      → find dec key l ≡ none
      → c.config.enable_lru ≡ true
      → Views dec c l
      → Views dec (store dec c key e) (l ++ ((key, e.value) ∷ []))
  unfolding store
  store-Views c l key e new lru w = rw (lru) (record {
    order = ap (λ o. o ++ (key ∷ [])) w.order ∙ sym (keys-append dec l ((key, e.value) ∷ []));
    values = λ k. values-put dec key k e c.entries l new (λ ne. w.values k);
  })

  insert-Views :
      (first_key : List (K × CacheEntry V) → Option K) (c : Cache K V) (l : List (K × V)) (key : K)
      (value : V) (now : ℕ)
      → 0 < c.config.capacity
      → find dec key c.entries ≡ none
      → InSync dec c
      → Views dec c l
      → Views dec
          (insert dec first_key c key value now)
          ((if leb c.config.capacity (length l) then drop 1 l else l) ++ ((key, value) ∷ []))
  unfolding insert new_entry
  insert-Views first_key c l key value now some_room new v w =
      let absent : find dec key l ≡ none = sym (w.values key) ∙ ap value_in new in
      store-Views (make_room dec first_key c key)
        (if leb c.config.capacity (length l) then drop 1 l else l) key (new_entry value now)
        (elim (Bool-cases (leb c.config.capacity (length l))) [
          | inl full ↦ rw (full) (unbound_drop key l absent)
          | inr free ↦ rw (free) absent
        ])
        (ap (λ g. g.enable_lru) (make_room-config dec first_key c key) ∙ v.lru)
        (make_room-Views first_key c l key some_room new v w)

  pub step-Simulates :
      (first_key : List (K × CacheEntry V) → Option K) (c : Cache K V) (l : List (K × V))
      (call : Call K V)
      → 0 < c.config.capacity
      → Regular dec c call
      → InSync dec c
      → Views dec c l
      → Simulates
          (answer dec c call, step dec first_key c call)
          (replay dec c.config.capacity l call)
  unfolding answer step replay
  step-Simulates first_key c l (inserts key value now) some_room new v w =
      (refl, insert-Views first_key c l key value now some_room new v w)
  step-Simulates first_key c l (gets key now later) some_room fresh v w =
      get-Simulates c l key now later fresh v w
  step-Simulates first_key c l (removes key) some_room _ v w = remove-Simulates c l key v w
  step-Simulates first_key c l clears some_room _ v w = (refl, clears-Views c v)
