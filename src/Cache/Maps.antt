-- ===== src/Cache/Maps.antt =====
-- Association lists with one entry for a key, for the hash map of src/pooling/cache.rs, and the
-- operations on its `VecDeque` of keys.
use rust_network_system.Base.{
  ℕ, suc, ◌+◌, ◌-◌, ◌<◌, ◌≡◌, refl, ◌≢◌, Bool, true, false, Option, none, some, List, [], ◌∷◌, ◌++◌,
  arith, length, ite, Option-cases, inl, inr,
}

module _ {K V : Type 0} (dec : Discrete K) where
  unfoldable pub find : K → List (K × V) → Option V
  find k [] = none
  find k ((j, v) ∷ m) = ite (dec j k) (some v) (find k m)

  unfoldable pub erase : K → List (K × V) → List (K × V)
  erase k [] = []
  erase k ((j, v) ∷ m) = ite (dec j k) m ((j, v) ∷ erase k m)

  unfoldable pub put : K → V → List (K × V) → List (K × V)
  put k v m = (k, v) ∷ erase k m

  -- How often a key is bound.
  unfoldable pub bound : K → List (K × V) → ℕ
  bound k [] = 0
  bound k ((j, v) ∷ m) = ite (dec j k) (suc (bound k m)) (bound k m)

  pub find-erase_ne : (k j : K) (m : List (K × V)) → k ≢ j → find j (erase k m) ≡ find j m
  unfolding find erase
  find-erase_ne k j [] h = refl
  find-erase_ne k j ((i, v) ∷ m) h = ground (arith, find-erase_ne k j m h)

  pub find-put_self : (k : K) (v : V) (m : List (K × V)) → find k (put k v m) ≡ some v
  unfolding find put
  find-put_self k v m = ground arith

  pub find-put_ne : (k j : K) (v : V) (m : List (K × V)) → k ≢ j → find j (put k v m) ≡ find j m
  unfolding find put
  find-put_ne k j v m h = ground (arith, find-erase_ne k j m h)

  pub find_of_unbound : (k : K) (m : List (K × V)) → bound k m ≡ 0 → find k m ≡ none
  unfolding find bound
  find_of_unbound k [] h = refl
  find_of_unbound k ((j, v) ∷ m) h = ground (arith, find_of_unbound k m)

  pub unbound_of_find : (k : K) (m : List (K × V)) → find k m ≡ none → bound k m ≡ 0
  unfolding find bound
  unbound_of_find k [] h = refl
  unbound_of_find k ((j, v) ∷ m) h = ground (arith, unbound_of_find k m)

  pub find_of_bound : (k : K) (m : List (K × V)) → 0 < bound k m → (v : V) × (find k m ≡ some v)
  find_of_bound k m h = elim (Option-cases (find k m)) [
    | inl e ↦ absurd (omega (arith, unbound_of_find k m e))
    | inr r ↦ r
  ]

  pub bound_of_find : (k : K) (m : List (K × V)) (v : V) → find k m ≡ some v → 0 < bound k m
  unfolding find bound
  bound_of_find k [] v h = absurd (cc)
  bound_of_find k ((j, w) ∷ m) v h = ground (arith, bound_of_find k m v)

  pub bound-erase_self : (k : K) (m : List (K × V)) → bound k (erase k m) ≡ bound k m - 1
  unfolding bound erase
  bound-erase_self k [] = refl
  bound-erase_self k ((j, v) ∷ m) = ground (arith, bound-erase_self k m)

  pub bound-erase_ne : (k j : K) (m : List (K × V)) → k ≢ j → bound j (erase k m) ≡ bound j m
  unfolding bound erase
  bound-erase_ne k j [] h = refl
  bound-erase_ne k j ((i, v) ∷ m) h = ground (arith, bound-erase_ne k j m h)

  pub length-erase : (k : K) (m : List (K × V)) → 0 < bound k m → length (erase k m) + 1 ≡ length m
  unfolding bound erase
  length-erase k [] h = absurd (omega arith)
  length-erase k ((j, v) ∷ m) h = ground (arith, length-erase k m)

  pub erase_unbound : (k : K) (m : List (K × V)) → bound k m ≡ 0 → erase k m ≡ m
  unfolding bound erase
  erase_unbound k [] h = refl
  erase_unbound k ((j, v) ∷ m) h = ground (arith, erase_unbound k m)

module _ {K : Type 0} (dec : Discrete K) where
  -- `iter().position(…)` and `remove` of the position: the first occurrence goes.
  unfoldable pub remove_first : K → List K → List K
  remove_first k [] = []
  remove_first k (j ∷ l) = ite (dec j k) l (j ∷ remove_first k l)

  unfoldable pub position : K → List K → Bool
  position k [] = false
  position k (j ∷ l) = ite (dec j k) true (position k l)

  unfoldable pub count : K → List K → ℕ
  count k [] = 0
  count k (j ∷ l) = ite (dec j k) (suc (count k l)) (count k l)

  pub count-append : (k : K) (l l' : List K) → count k (l ++ l') ≡ count k l + count k l'
  unfolding count
  count-append k [] l' = omega arith
  count-append k (j ∷ l) l' = ground (arith, count-append k l l')

  pub count-remove_self : (k : K) (l : List K) → count k (remove_first k l) ≡ count k l - 1
  unfolding count remove_first
  count-remove_self k [] = refl
  count-remove_self k (j ∷ l) = ground (arith, count-remove_self k l)

  pub count-remove_ne : (k i : K) (l : List K) → k ≢ i → count i (remove_first k l) ≡ count i l
  unfolding count remove_first
  count-remove_ne k i [] h = refl
  count-remove_ne k i (j ∷ l) h = ground (arith, count-remove_ne k i l h)

  pub length-remove :
      (k : K) (l : List K) → 0 < count k l → length (remove_first k l) + 1 ≡ length l
  unfolding count remove_first
  length-remove k [] h = absurd (omega arith)
  length-remove k (j ∷ l) h = ground (arith, length-remove k l)

  pub position_of_count : (k : K) (l : List K) → 0 < count k l → position k l ≡ true
  unfolding count position
  position_of_count k [] h = absurd (omega arith)
  position_of_count k (j ∷ l) h = ground (arith, position_of_count k l)

  pub remove_absent : (k : K) (l : List K) → count k l ≡ 0 → remove_first k l ≡ l
  unfolding count remove_first
  remove_absent k [] h = refl
  remove_absent k (j ∷ l) h = ground (arith, remove_absent k l)
