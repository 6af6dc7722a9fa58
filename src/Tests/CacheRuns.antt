-- ===== src/Tests/CacheRuns.antt =====
-- src/pooling/cache.rs with a capacity of two, keys and values that are numbers.
use rust_network_system.Base.{
  ℕ, ◌<◌, ◌≡◌, refl, Bool, true, false, sym, ap, Option, none, some, List, [], ◌∷◌, arith, length,
}
use rust_network_system.Cache.{
  Cache, CacheConfig, CacheEntry, new, new_entry, store, make_room, insert, get, get_found,
  outlived, is_expired, contains_key, evict_front, touch, move_back, clear_entries, clear_order,
  remove,
}
use rust_network_system.Cache.Maps
use rust_network_system.Cache.Maps.{find, erase, put, bound, remove_first}
use rust_network_system.Cache.Order.{InSync}
use rust_network_system.Cache.Lru
use rust_network_system.Cache.Calls
use rust_network_system.Cache.Locks
use rust_network_system.Cache.Refinement
use rust_network_system.Cache.Stale
use native.Mathlib.Decide.{ℕ_discrete}

abbrev config : CacheConfig
config = record { capacity = 2; ttl = some 60; enable_lru = true }

abbrev no_key : List (ℕ × CacheEntry ℕ) → Option ℕ
no_key m = none

abbrev entry : ℕ → ℕ → CacheEntry ℕ
entry v at = record { value = v; created_at = at; last_accessed = at; access_count = 0 }

abbrev cache : List (ℕ × CacheEntry ℕ) → List ℕ → Cache ℕ ℕ
cache m order = record { config = config; entries = m; lru_order = order }

abbrev one : Cache ℕ ℕ
one = cache ((1, entry 10 0) ∷ []) (1 ∷ [])

abbrev two : Cache ℕ ℕ
two = cache ((2, entry 20 5) ∷ (1, entry 10 0) ∷ []) (1 ∷ 2 ∷ [])

one_lem : insert ℕ_discrete no_key (new config) 1 10 0 ≡ one
unfolding insert make_room contains_key store new_entry new put find erase ℕ_discrete
one_lem = refl

two_lem : insert ℕ_discrete no_key one 2 20 5 ≡ two
unfolding insert make_room contains_key store new_entry put find erase ℕ_discrete
two_lem = refl

one-InSync : InSync ℕ_discrete one × Lru.Fits ℕ_discrete one
unfolding new find insert make_room contains_key store new_entry put erase ℕ_discrete
one-InSync =
    Lru.insert-InSync ℕ_discrete no_key (new config) 1 10 0 (omega arith) refl
      (Lru.new-InSync ℕ_discrete config refl) (omega arith)

two-InSync-Fits :
    InSync ℕ_discrete (insert ℕ_discrete no_key one 2 20 5)
    × Lru.Fits ℕ_discrete (insert ℕ_discrete no_key one 2 20 5)
unfolding find ℕ_discrete
two-InSync-Fits =
    Lru.insert-InSync ℕ_discrete no_key one 2 20 5 (omega arith) refl one-InSync.0 one-InSync.1

two-InSync : InSync ℕ_discrete two
unfolding insert make_room contains_key store new_entry put find erase ℕ_discrete
two-InSync =
    (Lru.insert-InSync ℕ_discrete no_key one 2 20 5 (omega arith) refl one-InSync.0 one-InSync.1).0

-- The third insertion evicts the key 2, since the key 1 was read after it.
abbrev calls : List (Calls.Call ℕ ℕ)
calls =
    Calls.Call.inserts 1 10 0
    ∷ Calls.Call.inserts 2 20 5
    ∷ Calls.Call.gets 1 6 6
    ∷ Calls.Call.inserts 3 30 8
    ∷ Calls.Call.gets 2 9 9
    ∷ Calls.Call.removes 3
    ∷ []

abbrev old_at : ℕ → Option (CacheEntry ℕ) → Bool
old_at now none = false
old_at now (some e) = outlived (some 60) e now

answers_lem_example :
    Refinement.answers ℕ_discrete no_key (new config) calls
    ≡ Refinement.replays ℕ_discrete 2 [] calls
unfolding new insert make_room evict_front contains_key store new_entry put find erase ℕ_discrete
    get get_found outlived is_expired Calls.step touch move_back remove_first
    rust_network_system.Cache.evict_one Maps.position
answers_lem_example = Refinement.answers_lem ℕ_discrete no_key config calls refl (omega arith) (
  refl,
  (refl, ((λ e h. sym (ap (old_at 6) h)), (refl, ((λ e h. sym (ap (old_at 9) h)), (tt, tt))))),
)

-- A read of the key 1 after its time left it in the order; then the cache was filled again.
abbrev stale : Cache ℕ ℕ
stale = cache ((3, entry 30 64) ∷ (2, entry 20 5) ∷ []) (1 ∷ 2 ∷ 3 ∷ [])

stale_lem : insert ℕ_discrete no_key (get ℕ_discrete two 1 61 61).1 3 30 64 ≡ stale
unfolding get get_found outlived is_expired insert make_room contains_key store new_entry put find
    erase ℕ_discrete
stale_lem = refl

overflow_example : length (insert ℕ_discrete no_key stale 4 40 65).entries ≡ 3
unfolding bound ℕ_discrete
overflow_example =
    Stale.overflow ℕ_discrete no_key stale 1 (2 ∷ 3 ∷ []) 4 40 65 refl refl refl refl refl

-- Two calls of `clear` that overlap, with a read between their locks.
abbrev shared_calls : List (Locks.Access ℕ ℕ)
shared_calls =
    Locks.Access.inserts 1 10 0
    ∷ Locks.Access.clear_begins
    ∷ Locks.Access.gets 1 6 6
    ∷ Locks.Access.clear_begins
    ∷ Locks.Access.clear_ends
    ∷ Locks.Access.removes 1
    ∷ Locks.Access.clear_ends
    ∷ Locks.Access.inserts 2 20 7
    ∷ Locks.Access.prunes 70
    ∷ []

accesses_lem_example :
    let s = Locks.accesses ℕ_discrete no_key (Locks.start config) shared_calls in
    (s.clearing ≡ 0 → InSync ℕ_discrete s.cache × Lru.Fits ℕ_discrete s.cache)
    × (0 < s.clearing → s.cache.entries ≡ [])
unfolding new Locks.start Locks.access find insert make_room contains_key store new_entry put erase
    ℕ_discrete clear_entries clear_order get get_found remove
accesses_lem_example = Locks.accesses_lem ℕ_discrete no_key config shared_calls refl (omega arith) (
  (refl, refl),
  (tt, ((λ e h. cc), (tt, (omega arith, (tt, (omega arith, ((refl, refl), (tt, tt)))))))),
)
