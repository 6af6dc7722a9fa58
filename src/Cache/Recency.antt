-- ===== src/Cache/Recency.antt =====
-- The list that the cache of src/pooling/cache.rs stands for: pairs of a key and its value, the least recently used first.
use rust_network_system.Base.{
  ℕ, ◌≤◌, ◌≡◌, refl, sym, ap, ◌∙◌, ◌≢◌, if◌then◌else◌, leb, Option, none, some, List, [], ◌∷◌, ◌++◌,
  arith, subst, length, drop, ite,
}
use rust_network_system.Cache.{Cache, CacheEntry, get, remove}
use rust_network_system.Cache.Maps.{
  find, erase, put, bound, count, remove_first, find_of_unbound, bound-erase_self, find-put_self,
  find-put_ne, find-erase_ne,
}
use rust_network_system.Cache.Order.{InSync}
use rust_network_system.Cache.Calls.{Call, inserts, gets, removes, clears}

-- What the entries of a cache hold for a key, without the times and the number of accesses.
abbrev pub value_in : {V : Type 0} → Option (CacheEntry V) → Option V
value_in none = none
value_in (some e) = some e.value

abbrev pub keys : {K V : Type 0} → List (K × V) → List K
keys [] = []
keys ((k, v) ∷ l) = k ∷ keys l

module _ {K V : Type 0} (dec : Discrete K) where
  -- The same calls on the list: their answer and the list after them.
  unfoldable pub use_key : K → List (K × V) → Option V → Option V × List (K × V)
  use_key key l none = (none, l)
  use_key key l (some v) = (some v, erase dec key l ++ ((key, v) ∷ []))

  unfoldable pub take_key : K → List (K × V) → Option V → Option V × List (K × V)
  take_key key l none = (none, l)
  take_key key l (some v) = (some v, erase dec key l)

  unfoldable pub replay : (capacity : ℕ) → List (K × V) → Call K V → Option V × List (K × V)
  unfolding use_key take_key
  replay capacity l (inserts key value now) =
      (none, (if leb capacity (length l) then drop 1 l else l) ++ ((key, value) ∷ []))
  replay capacity l (gets key now later) = use_key key l (find dec key l)
  replay capacity l (removes key) = take_key key l (find dec key l)
  replay capacity l clears = (none, [])

  -- What a call on the cache answers.
  unfoldable pub answer : Cache K V → Call K V → Option V
  answer c (inserts key value now) = none
  answer c (gets key now later) = (get dec c key now later).0
  answer c (removes key) = (remove dec c key).0
  answer c clears = none

  -- The cache shows the list: the order holds the keys of the list, and each key has its value.
  pub record Views (c : Cache K V) (l : List (K × V)) : Type 0 where
    pub order : c.lru_order ≡ keys l
    pub values : (k : K) → value_in (find dec k c.entries) ≡ find dec k l

  pub keys-erase : (k : K) (l : List (K × V)) → keys (erase dec k l) ≡ remove_first dec k (keys l)
  unfolding erase remove_first
  keys-erase k [] = refl
  keys-erase k ((j, v) ∷ l) = ground (arith, keys-erase k l)

  pub keys-append : (l l' : List (K × V)) → keys (l ++ l') ≡ keys l ++ keys l'
  keys-append [] l' = refl
  keys-append ((k, v) ∷ l) l' = ap (◌∷◌ k) (keys-append l l')

  length-keys : (l : List (K × V)) → length (keys l) ≡ length l
  length-keys [] = refl
  length-keys ((k, v) ∷ l) = omega (arith, length-keys l)

  find_last :
      (k j : K) (v : V) (l : List (K × V))
      → find dec k l ≡ none
      → find dec j (l ++ ((k, v) ∷ [])) ≡ ite (dec k j) (some v) (find dec j l)
  unfolding find
  find_last k j v [] h = refl
  find_last k j v ((i, w) ∷ l) h = ground (arith, h, find_last k j v l)

  count-keys : (k : K) (l : List (K × V)) → count dec k (keys l) ≡ bound dec k l
  unfolding count bound
  count-keys k [] = refl
  count-keys k ((j, v) ∷ l) = ground (arith, count-keys k l)

  pub unbound_tail :
      (k : K) (o : K) (v : V) (l : List (K × V))
      → find dec k ((o, v) ∷ l) ≡ none
      → find dec k l ≡ none
  unfolding find
  unbound_tail k o v l h = ground (arith, h)

  -- No key stands twice in the list.
  pub once :
      (c : Cache K V) (l : List (K × V)) (k : K) → InSync dec c → Views c l → bound dec k l ≤ 1
  once c l k v w =
      omega (arith, count-keys k l, ap (count dec k) w.order, v.agree.same k, v.agree.once k)

  pub length-Views :
      (c : Cache K V) (l : List (K × V)) → InSync dec c → Views c l → length l ≡ length c.entries
  length-Views c l v w = omega (arith, length-keys l, ap length w.order, v.agree.size)

  pub gone : (k : K) (l : List (K × V)) → bound dec k l ≤ 1 → find dec k (erase dec k l) ≡ none
  gone k l h = find_of_unbound dec k (erase dec k l) (omega (arith, bound-erase_self dec k l, h))

  -- A key that is written last.
  pub values-put :
      (k j : K) (e : CacheEntry V) (entries : List (K × CacheEntry V)) (l : List (K × V))
      → find dec k l ≡ none
      → (k ≢ j → value_in (find dec j entries) ≡ find dec j l)
      → value_in (find dec j (put dec k e entries)) ≡ find dec j (l ++ ((k, e.value) ∷ []))
  values-put k j e entries l h same = elim (dec k j) [
    | yes p ↦ grind (arith, p, find_last k j e.value l h, find-put_self dec k e entries)
    | no p ↦ grind (arith, find_last k j e.value l h, find-put_ne dec k j e entries p, same p)
  ]

  pub values-erase :
      (k j : K) (entries : List (K × CacheEntry V)) (l : List (K × V))
      → bound dec k entries ≤ 1
      → bound dec k l ≤ 1
      → value_in (find dec j entries) ≡ find dec j l
      → value_in (find dec j (erase dec k entries)) ≡ find dec j (erase dec k l)
  values-erase k j entries l h h' same = elim (dec k j) [
    | yes p ↦
        subst (λ i. value_in (find dec i (erase dec k entries)) ≡ find dec i (erase dec k l)) p
          (ap value_in (
              find_of_unbound dec k (erase dec k entries)
                (omega (arith, bound-erase_self dec k entries, h)))
            ∙ sym (gone k l h'))
    | no p ↦ ap value_in (find-erase_ne dec k j entries p) ∙ same ∙ sym (find-erase_ne dec k j l p)
  ]
