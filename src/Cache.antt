-- ===== src/Cache.antt =====
-- src/pooling/cache.rs: a cache with a time to live and an eviction order.
-- The hash map is an association list in which `put` keeps a key once; the order of its iteration, which
-- the source leaves open, is the parameter `first_key` where it matters. Each of `get`, `insert`, `remove` and
-- `prune_expired` holds the lock on the entries for the whole of the method and takes the one on the order within it,
-- so that it is one step. `clear` gives the first lock back before it takes the second: `clear_entries` and
-- `clear_order` are its two steps, which Locks interleaves with the calls of others; `clear` makes them with nothing
-- in between. `get_or_insert_with` is `get` and then `insert`, with nothing in between. Times are arguments.
-- The times of a configuration are in the unit of the clock, seconds in the default one.
pub mod Maps
pub mod Order
pub mod Lru
pub mod Reads
pub mod Stale
pub mod Tiered
pub mod Calls
pub mod Recency
pub mod Simulation
pub mod Refinement
pub mod Prune
pub mod Locks
use rust_network_system.Base.{
  ℕ, suc, ◌+◌, ◌-◌, Bool, true, false, not, ◌&&◌, Option, none, some, List, [], ◌∷◌, ◌++◌, ltb, leb,
  if◌then◌else◌, length,
}
use Maps.{find, erase, put, remove_first, position}

pub record CacheConfig : Type 0 where
  pub capacity : ℕ
  pub ttl : Option ℕ
  pub enable_lru : Bool

unfoldable pub default_config : CacheConfig
default_config = record { capacity = 1000; ttl = some 300; enable_lru = true }

unfoldable pub with_capacity : CacheConfig → ℕ → CacheConfig
with_capacity c capacity = record c { capacity = capacity }

unfoldable pub with_ttl : CacheConfig → Option ℕ → CacheConfig
with_ttl c ttl = record c { ttl = ttl }

unfoldable pub with_lru : CacheConfig → Bool → CacheConfig
with_lru c enable = record c { enable_lru = enable }

pub record CacheEntry (V : Type 0) : Type 0 where
  pub value : V
  pub created_at : ℕ
  pub last_accessed : ℕ
  pub access_count : ℕ

unfoldable pub new_entry : {V : Type 0} → V → ℕ → CacheEntry V
new_entry value now = record {
  value = value;
  created_at = now;
  last_accessed = now;
  access_count = 0;
}

unfoldable pub is_expired : {V : Type 0} → CacheEntry V → (ttl now : ℕ) → Bool
is_expired e ttl now = ltb ttl (now - e.created_at)

unfoldable pub touch : {V : Type 0} → CacheEntry V → ℕ → CacheEntry V
touch e now = record e { last_accessed = now; access_count = suc e.access_count }

-- Whether the configuration makes an entry stale at `now`.
unfoldable pub outlived : {V : Type 0} → Option ℕ → CacheEntry V → ℕ → Bool
unfolding is_expired
outlived none e now = false
outlived (some ttl) e now = is_expired e ttl now

pub record Cache (K V : Type 0) : Type 0 where
  pub config : CacheConfig
  pub entries : List (K × CacheEntry V)
  pub lru_order : List K

pub record CacheStats : Type 0 where
  pub size : ℕ
  pub capacity : ℕ
  pub total_accesses : ℕ

unfoldable pub new : {K V : Type 0} → CacheConfig → Cache K V
new c = record { config = c; entries = []; lru_order = [] }

-- What `clear` does under the lock on the entries, and then under the lock on the order.
unfoldable pub clear_entries : {K V : Type 0} → Cache K V → Cache K V
clear_entries c = record c { entries = [] }

unfoldable pub clear_order : {K V : Type 0} → Cache K V → Cache K V
clear_order c = record c { lru_order = if c.config.enable_lru then [] else c.lru_order }

unfoldable pub clear : {K V : Type 0} → Cache K V → Cache K V
unfolding clear_entries clear_order
clear c = clear_order (clear_entries c)

sum_accesses : {K V : Type 0} → List (K × CacheEntry V) → ℕ
sum_accesses [] = 0
sum_accesses ((k, e) ∷ m) = e.access_count + sum_accesses m

unfoldable pub stats : {K V : Type 0} → Cache K V → CacheStats
unfolding sum_accesses
stats c = record {
  size = length c.entries;
  capacity = c.config.capacity;
  total_accesses = sum_accesses c.entries;
}

-- Move a key to the back, if it is in the order.
unfoldable pub move_back : {K : Type 0} → Discrete K → K → List K → List K
move_back dec key order =
    if position dec key order then remove_first dec key order ++ (key ∷ []) else order

module _ {K V : Type 0} (dec : Discrete K) where
  unfoldable pub get_found : Cache K V → K → (now later : ℕ) → CacheEntry V → Option V × Cache K V
  get_found c key now later e =
      if outlived c.config.ttl e now
      then (none, record c { entries = erase dec key c.entries })
      else (
        some e.value,
        record c {
          entries = put dec key (touch e later) c.entries;
          lru_order = if c.config.enable_lru then move_back dec key c.lru_order else c.lru_order;
        },
      )

  -- `now` is read for the test of the age, and `later` for the time of the access.
  unfoldable pub get : Cache K V → K → (now later : ℕ) → Option V × Cache K V
  unfolding get_found
  get c key now later = elim (find dec key c.entries) [
    | none ↦ (none, c)
    | some e ↦ get_found c key now later e
  ]

  unfoldable pub evict_front : Cache K V → List K → Cache K V
  evict_front c [] = c
  evict_front c (key ∷ order) = record c { entries = erase dec key c.entries; lru_order = order }

  unfoldable pub evict_key : Cache K V → Option K → Cache K V
  evict_key c none = c
  evict_key c (some key) = record c { entries = erase dec key c.entries }

  unfoldable pub evict_one : (List (K × CacheEntry V) → Option K) → Cache K V → Cache K V
  unfolding evict_front evict_key
  evict_one first_key c =
      if c.config.enable_lru then evict_front c c.lru_order else evict_key c (first_key c.entries)

  unfoldable pub contains_key : K → List (K × CacheEntry V) → Bool
  contains_key key m = elim (find dec key m) [ none ↦ false | some e ↦ true ]

  unfoldable pub make_room : (List (K × CacheEntry V) → Option K) → Cache K V → K → Cache K V
  unfolding contains_key
  make_room first_key c key =
      if leb c.config.capacity (length c.entries) && not (contains_key key c.entries)
      then evict_one first_key c
      else c

  unfoldable pub store : Cache K V → K → CacheEntry V → Cache K V
  store c key e = record c {
    entries = put dec key e c.entries;
    lru_order = if c.config.enable_lru then c.lru_order ++ (key ∷ []) else c.lru_order;
  }

  unfoldable pub insert : (List (K × CacheEntry V) → Option K) → Cache K V → K → V → ℕ → Cache K V
  unfolding store new_entry
  insert first_key c key value now = store (make_room first_key c key) key (new_entry value now)

  forget : Cache K V → K → Cache K V
  forget c key = record c {
    entries = erase dec key c.entries;
    lru_order = if c.config.enable_lru then remove_first dec key c.lru_order else c.lru_order;
  }

  unfoldable pub remove : Cache K V → K → Option V × Cache K V
  unfolding forget
  remove c key = elim (find dec key c.entries) [
    | none ↦ (none, c)
    | some e ↦ (some e.value, forget c key)
  ]

  expired_keys : ℕ → ℕ → List (K × CacheEntry V) → List K
  expired_keys ttl now [] = []
  expired_keys ttl now ((k, e) ∷ m) =
      if is_expired e ttl now then k ∷ expired_keys ttl now m else expired_keys ttl now m

  forget_all : Cache K V → List K → Cache K V
  forget_all c [] = c
  forget_all c (k ∷ ks) = forget_all (forget c k) ks

  unfoldable pub prune_expired : Cache K V → ℕ → ℕ × Cache K V
  unfolding expired_keys forget_all forget
  prune_expired c now = elim c.config.ttl [
    | none ↦ (0, c)
    | some ttl ↦ (let ks = expired_keys ttl now c.entries in (length ks, forget_all c ks))
  ]

  insert_missing :
      (List (K × CacheEntry V) → Option K) → Option V → Cache K V → K → V → ℕ → V × Cache K V
  insert_missing first_key (some v) c key computed now = (v, c)
  insert_missing first_key none c key computed now = (computed, insert first_key c key computed now)

  -- `computed` is what the closure returns.
  unfoldable pub get_or_insert_with :
      (List (K × CacheEntry V) → Option K) → Cache K V → K → V → (now later : ℕ) → V × Cache K V
  unfolding insert_missing
  get_or_insert_with first_key c key computed now later =
      let r = get c key now later in insert_missing first_key r.0 r.1 key computed later
