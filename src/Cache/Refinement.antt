-- ===== src/Cache/Refinement.antt =====
-- The cache of src/pooling/cache.rs answers like the list it stands for.
use rust_network_system.Base.{
  ℕ, ◌<◌, ◌≡◌, refl, ap, ap₂, ◌∙◌, true, Option, List, [], ◌∷◌, arith, subst, inl, inr,
  Option-cases, Bool-cases,
}
use rust_network_system.Cache.{
  Cache, CacheEntry, CacheConfig, insert, get, remove, clear, clear_entries, clear_order, outlived,
  new, get_found, store, forget,
}
use rust_network_system.Cache.Maps.{find}
use rust_network_system.Cache.Order.{InSync}
use rust_network_system.Cache.Lru.{Fits, make_room-config, new-InSync}
use rust_network_system.Cache.Calls.{
  Call, inserts, gets, removes, clears, step, Regular, step-InSync,
}
use rust_network_system.Cache.Recency.{replay, answer, Views}
use rust_network_system.Cache.Simulation.{Simulates, step-Simulates}

module _ {K V : Type 0} (dec : Discrete K) where
  pub get-config :
      (c : Cache K V) (key : K) (now later : ℕ) → (get dec c key now later).1.config ≡ c.config
  unfolding get get_found
  get-config c key now later = elim (Option-cases (find dec key c.entries)) [
    | inl miss ↦ rw (miss, get) refl
    | inr (e, hit) ↦ elim (Bool-cases (outlived c.config.ttl e now)) [
      | inl old ↦ rw (hit, get, old) refl
      | inr young ↦ rw (hit, get, young) refl
    ]
  ]

  pub remove-config : (c : Cache K V) (key : K) → (remove dec c key).1.config ≡ c.config
  unfolding remove forget
  remove-config c key = elim (Option-cases (find dec key c.entries)) [
    | inl miss ↦ rw (miss, remove) refl
    | inr (e, hit) ↦ rw (hit, remove) refl
  ]

  step-config :
      (first_key : List (K × CacheEntry V) → Option K) (c : Cache K V) (call : Call K V)
      → (step dec first_key c call).config ≡ c.config
  unfolding step insert store clear clear_entries clear_order
  step-config first_key c (inserts key value now) = make_room-config dec first_key c key
  step-config first_key c (gets key now later) = get-config c key now later
  step-config first_key c (removes key) = remove-config c key
  step-config first_key c clears = refl

  -- The answers of a sequence of calls, by the cache and by the list.
  unfoldable pub answers :
      (List (K × CacheEntry V) → Option K) → Cache K V → List (Call K V) → List (Option V)
  answers first_key c [] = []
  answers first_key c (call ∷ calls) =
      answer dec c call ∷ answers first_key (step dec first_key c call) calls

  unfoldable pub replays : (capacity : ℕ) → List (K × V) → List (Call K V) → List (Option V)
  replays capacity l [] = []
  replays capacity l (call ∷ calls) =
      (replay dec capacity l call).0 ∷ replays capacity (replay dec capacity l call).1 calls

  -- Each call is one that the cache is made for at its time: an insertion of a key that is absent, or a read of an entry
  -- that is not outlived.
  abbrev pub AllRegular :
      (List (K × CacheEntry V) → Option K) → Cache K V → List (Call K V) → Type 0
  AllRegular first_key c [] = Unit
  AllRegular first_key c (call ∷ calls) =
      Regular dec c call × AllRegular first_key (step dec first_key c call) calls

  runs :
      (first_key : List (K × CacheEntry V) → Option K) (capacity : ℕ) (c : Cache K V)
      (l : List (K × V)) (calls : List (Call K V))
      → c.config.capacity ≡ capacity
      → 0 < capacity
      → AllRegular first_key c calls
      → InSync dec c
      → Fits dec c
      → Views dec c l
      → answers first_key c calls ≡ replays capacity l calls
  unfolding answers replays
  runs first_key capacity c l [] same some_room regular v fits w = refl
  runs first_key capacity c l (call ∷ calls) same some_room (now_regular, regular) v fits w =
      let room : 0 < c.config.capacity = omega (arith, same, some_room) in
      let (agree, shows) =
        subst
          (λ n. Simulates dec (answer dec c call, step dec first_key c call) (replay dec n l call))
          same (step-Simulates dec first_key c l call room now_regular v w) in
      let (synced, fits') = step-InSync dec first_key c call room now_regular v fits in
      ap₂ (◌∷◌) agree (
        runs first_key capacity (step dec first_key c call) (replay dec capacity l call).1 calls
          (ap (λ g. g.capacity) (step-config first_key c call) ∙ same) some_room regular synced
          fits' shows)

  -- For calls made one after another: a new cache with the order enabled and a positive capacity answers like a list of pairs with the least recently used
  -- first: a read finds the value and moves its pair to the end, an insertion puts its pair at the end, and on a
  -- list of that many pairs drops the first, and a removal takes its pair out. The calls insert keys that are absent, and read
  -- entries that are not outlived.
  pub answers_lem :
      (first_key : List (K × CacheEntry V) → Option K) (c : CacheConfig) (calls : List (Call K V))
      → c.enable_lru ≡ true
      → 0 < c.capacity
      → AllRegular first_key (new c) calls
      → answers first_key (new c) calls ≡ replays c.capacity [] calls
  unfolding new find
  answers_lem first_key c calls lru some_room regular =
      runs first_key c.capacity (new c) [] calls refl some_room regular (new-InSync dec c lru)
        (omega arith) (record { order = refl; values = λ k. refl })
