-- ===== src/Cache/Calls.antt =====
-- The calls on a cache of src/pooling/cache.rs that keep its eviction order and its entries in agreement.
use rust_network_system.Base.{
  ℕ, ◌<◌, ◌≡◌, refl, false, if◌then◌else◌, Option, none, some, List, [], arith, subst, sym,
}
use rust_network_system.Cache.{
  Cache, CacheEntry, insert, get, remove, clear, clear_entries, clear_order, outlived,
}
use rust_network_system.Cache.Maps.{find, bound, count}
use rust_network_system.Cache.Order.{Agree, InSync}
use rust_network_system.Cache.Lru.{Fits, insert-InSync, get-InSync, remove-InSync}

pub data Call (K V : Type 0) : Type 0 where
  inserts : K → V → (now : ℕ) → Call K V
  gets : K → (now later : ℕ) → Call K V
  removes : K → Call K V
  clears : Call K V

module _ {K V : Type 0} (dec : Discrete K) where
  unfoldable pub step : (List (K × CacheEntry V) → Option K) → Cache K V → Call K V → Cache K V
  step first_key c (inserts key value now) = insert dec first_key c key value now
  step first_key c (gets key now later) = (get dec c key now later).1
  step first_key c (removes key) = (remove dec c key).1
  step first_key c clears = clear c

  -- A key is inserted when it has no entry, and read while its entry is not outlived.
  abbrev pub Regular : Cache K V → Call K V → Type 0
  Regular c (inserts key value now) = find dec key c.entries ≡ none
  Regular c (gets key now later) =
      (e : CacheEntry V) → find dec key c.entries ≡ some e → outlived c.config.ttl e now ≡ false
  Regular c _ = Unit

  clear-InSync : (c : Cache K V) → InSync dec c → InSync dec (clear c) × Fits dec (clear c)
  unfolding clear clear_entries clear_order bound count
  clear-InSync c v = (
    record {
      lru = v.lru;
      agree =
          subst (λ b. Agree {V = V} dec [] (if b then [] else c.lru_order)) (sym v.lru)
            (record { once = λ k. omega arith; same = λ k. refl; size = refl });
    },
    omega arith,
  )

  -- For calls made one after another, and with a positive capacity: every call that inserts a key without an entry, reads a key that is absent or
  -- not outlived, removes a key or clears the cache keeps the agreement of the eviction order and the
  -- entries: each key with an entry stands once in the order, no other key does, and the entries stay
  -- within the capacity.
  pub step-InSync :
      (first_key : List (K × CacheEntry V) → Option K) (c : Cache K V) (call : Call K V)
      → 0 < c.config.capacity
      → Regular c call
      → InSync dec c
      → Fits dec c
      → InSync dec (step first_key c call) × Fits dec (step first_key c call)
  unfolding step
  step-InSync first_key c (inserts key value now) some_room new v fits =
      insert-InSync dec first_key c key value now some_room new v fits
  step-InSync first_key c (gets key now later) some_room fresh v fits =
      get-InSync dec c key now later fresh v fits
  step-InSync first_key c (removes key) some_room _ v fits = remove-InSync dec c key v fits
  step-InSync first_key c clears some_room _ v fits = clear-InSync c v
