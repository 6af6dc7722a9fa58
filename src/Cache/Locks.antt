-- ===== src/Cache/Locks.antt =====
-- The calls that share a cache of src/pooling/cache.rs, with the two locks of `clear` as two accesses.
use rust_network_system.Base.{
  ℕ, ◌+◌, ◌-◌, ◌<◌, ◌≡◌, refl, sym, ap, ◌∙◌, length, subst, true, false, none, some, if◌then◌else◌,
  Option, List, [], ◌∷◌, ◌++◌, arith,
}
use rust_network_system.Cache.{
  Cache, CacheConfig, CacheEntry, new, new_entry, store, insert, get, remove, outlived,
  clear_entries, clear_order, prune_expired,
}
use rust_network_system.Cache.Maps.{find, put, erase, bound, count}
use rust_network_system.Cache.Order.{Agree, InSync}
use rust_network_system.Cache.Lru.{
  Fits, insert-InSync, get-InSync, remove-InSync, new-InSync, make_room_free, make_room-config,
}
use rust_network_system.Cache.Prune.{prune_expired-InSync, prune_expired-config, prune_nothing}
use rust_network_system.Cache.Refinement.{get-config, remove-config}

-- The cache, and the number of calls of `clear` that are between their two locks.
pub record Shared (K V : Type 0) : Type 0 where
  pub cache : Cache K V
  pub clearing : ℕ

-- What a call does while it holds a lock: a whole call, or one of the halves of `clear`.
pub data Access (K V : Type 0) : Type 0 where
  inserts : K → V → (now : ℕ) → Access K V
  gets : K → (now later : ℕ) → Access K V
  removes : K → Access K V
  prunes : (now : ℕ) → Access K V
  clear_begins clear_ends : Access K V

unfoldable pub start : {K V : Type 0} → CacheConfig → Shared K V
unfolding new
start c = record { cache = new c; clearing = 0 }

module _ {K V : Type 0} (dec : Discrete K) (first_key : List (K × CacheEntry V) → Option K) where
  unfoldable pub access : Shared K V → Access K V → Shared K V
  access s (inserts key value now) = record s { cache = insert dec first_key s.cache key value now }
  access s (gets key now later) = record s { cache = (get dec s.cache key now later).1 }
  access s (removes key) = record s { cache = (remove dec s.cache key).1 }
  access s (prunes now) = record s { cache = (prune_expired dec s.cache now).1 }
  access s clear_begins = record { cache = clear_entries s.cache; clearing = s.clearing + 1 }
  access s clear_ends = record { cache = clear_order s.cache; clearing = s.clearing - 1 }

  unfoldable pub accesses : Shared K V → List (Access K V) → Shared K V
  accesses s [] = s
  accesses s (a ∷ calls) = accesses (access s a) calls

  -- A key is inserted when it has no entry and while no `clear` is between its locks, an entry is read while it is not
  -- outlived, and a `clear` ends that has begun.
  abbrev pub Permitted : Shared K V → Access K V → Type 0
  Permitted s (inserts key value now) = (s.clearing ≡ 0) × (find dec key s.cache.entries ≡ none)
  Permitted s (gets key now later) =
      (e : CacheEntry V)
      → find dec key s.cache.entries ≡ some e
      → outlived s.cache.config.ttl e now ≡ false
  Permitted s (removes key) = Unit
  Permitted s (prunes now) = Unit
  Permitted s clear_begins = Unit
  Permitted s clear_ends = 0 < s.clearing

  abbrev pub AllPermitted : Shared K V → List (Access K V) → Type 0
  AllPermitted s [] = Unit
  AllPermitted s (a ∷ calls) = Permitted s a × AllPermitted (access s a) calls

  -- The order agrees with the entries when no `clear` is between its locks, and there are no entries while one is.
  pub record IsShared (c : CacheConfig) (s : Shared K V) : Type 0 where
    pub config : s.cache.config ≡ c
    pub at_rest : s.clearing ≡ 0 → InSync dec s.cache × Fits dec s.cache
    pub between : 0 < s.clearing → s.cache.entries ≡ []

  get_nothing :
      (c : Cache K V) (key : K) (now later : ℕ)
      → c.entries ≡ []
      → (get dec c key now later).1.entries ≡ []
  unfolding get find
  get_nothing c key now later e =
      let miss : find dec key c.entries ≡ none = ap (find dec key) e in rw (miss, get) e

  remove_nothing : (c : Cache K V) (key : K) → c.entries ≡ [] → (remove dec c key).1.entries ≡ []
  unfolding remove find
  remove_nothing c key e =
      let miss : find dec key c.entries ≡ none = ap (find dec key) e in rw (miss, remove) e

  cleared-InSync :
      (c : Cache K V)
      → c.config.enable_lru ≡ true
      → c.entries ≡ []
      → InSync dec (clear_order c) × Fits dec (clear_order c)
  unfolding clear_order bound count
  cleared-InSync c lru e = (
    record {
      lru = lru;
      agree =
          subst (λ b. Agree dec c.entries (if b then [] else c.lru_order)) (sym lru)
            (subst (λ m. Agree {V = V} dec m []) (sym e)
              (record { once = λ k. omega arith; same = λ k. refl; size = refl }));
    },
    omega (arith, ap length e),
  )

  access-IsShared :
      (c : CacheConfig) (s : Shared K V) (a : Access K V)
      → c.enable_lru ≡ true
      → 0 < c.capacity
      → Permitted s a
      → IsShared c s
      → IsShared c (access s a)
  unfolding access clear_entries clear_order insert store
  access-IsShared c s (inserts key value now) lru room (quiet, absent) v =
      let (synced, fits) = v.at_rest quiet in
      record {
        config = make_room-config dec first_key s.cache key ∙ v.config;
        at_rest = λ _.
            insert-InSync dec first_key s.cache key value now
              (subst (λ g. 0 < g.capacity) (sym v.config) room) absent synced fits;
        between = λ some_clear. absurd (omega (arith, quiet, some_clear));
      }
  access-IsShared c s (gets key now later) lru room fresh v = record {
    config = get-config dec s.cache key now later ∙ v.config;
    at_rest =
        λ quiet. get-InSync dec s.cache key now later fresh (v.at_rest quiet).0 (v.at_rest quiet).1;
    between = λ some_clear. get_nothing s.cache key now later (v.between some_clear);
  }
  access-IsShared c s (removes key) lru room permitted v = record {
    config = remove-config dec s.cache key ∙ v.config;
    at_rest = λ quiet. remove-InSync dec s.cache key (v.at_rest quiet).0 (v.at_rest quiet).1;
    between = λ some_clear. remove_nothing s.cache key (v.between some_clear);
  }
  access-IsShared c s (prunes now) lru room permitted v = record {
    config = prune_expired-config dec s.cache now ∙ v.config;
    at_rest = λ quiet. prune_expired-InSync dec s.cache now (v.at_rest quiet).0 (v.at_rest quiet).1;
    between = λ some_clear. prune_nothing dec s.cache now (v.between some_clear);
  }
  access-IsShared c s clear_begins lru room permitted v = record {
    config = v.config;
    at_rest = λ quiet. absurd (omega (arith, quiet));
    between = λ some_clear. refl;
  }
  access-IsShared c s clear_ends lru room some_clear v =
      let nothing = v.between some_clear in
      record {
        config = v.config;
        at_rest = λ quiet. cleared-InSync s.cache (ap (λ g. g.enable_lru) v.config ∙ lru) nothing;
        between = λ others. nothing;
      }

  accesses-IsShared :
      (c : CacheConfig) (s : Shared K V) (calls : List (Access K V))
      → c.enable_lru ≡ true
      → 0 < c.capacity
      → AllPermitted s calls
      → IsShared c s
      → IsShared c (accesses s calls)
  unfolding accesses
  accesses-IsShared c s [] lru room permitted v = v
  accesses-IsShared c s (a ∷ calls) lru room (first, rest) v =
      accesses-IsShared c (access s a) calls lru room rest (access-IsShared c s a lru room first v)

  -- Let calls of `insert`, `get`, `remove`, `prune_expired` and `clear` share a new cache with the order enabled and a
  -- positive capacity, where `clear` takes its two locks in two accesses and any others may come in between. As
  -- long as every insertion is of a key without an entry and comes while no `clear` is between its locks, and
  -- every read is of a key that is absent or not outlived: whenever no `clear` is between its locks, each
  -- key with an entry stands once in the order, no other key does, and the entries are within the
  -- capacity; and while one is, there are no entries.
  pub accesses_lem :
      (c : CacheConfig) (calls : List (Access K V))
      → c.enable_lru ≡ true
      → 0 < c.capacity
      → AllPermitted (start c) calls
      → let s = accesses (start c) calls in
        (s.clearing ≡ 0 → InSync dec s.cache × Fits dec s.cache)
        × (0 < s.clearing → s.cache.entries ≡ [])
  unfolding start new
  accesses_lem c calls lru room permitted =
      let v = accesses-IsShared c (start c) calls lru room permitted (record {
        config = refl;
        at_rest = λ quiet. (new-InSync dec c lru, omega arith);
        between = λ some_clear. absurd (omega (arith, some_clear));
      }) in
      (v.at_rest, v.between)

  -- An insertion that comes between the two locks of a `clear`, into a cache with the order enabled and a positive
  -- capacity, leaves an entry for its key and an empty order: the key can no longer be evicted.
  pub inserted_between :
      (c : Cache K V) (key : K) (value : V) (now : ℕ)
      → c.config.enable_lru ≡ true
      → 0 < c.config.capacity
      → let c' = clear_order (insert dec first_key (clear_entries c) key value now) in
        (c'.entries ≡ (key, new_entry value now) ∷ []) × (c'.lru_order ≡ [])
  unfolding clear_order clear_entries insert store put erase
  inserted_between c key value now lru room =
      rw (make_room_free dec first_key (clear_entries c) key room) (
        refl,
        ap
            (λ b.
              if b
              then []
              else (if c.config.enable_lru then c.lru_order ++ (key ∷ []) else c.lru_order))
            lru,
      )
