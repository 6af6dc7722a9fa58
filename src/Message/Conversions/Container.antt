-- ===== src/Message/Conversions/Container.antt =====
-- What `to_container` of src/core/message.rs makes of the entries of a container.
use rust_network_system.Base.{
  ◌≡◌, refl, sym, ap, ap₂, subst, ◌↔◌, ◌∙◌, Option, none, some, List, [], ◌∷◌, ◌⊎◌, inl, inr,
  String,
}
use rust_network_system.Error.{NetworkError, Result, ok, err, serialization, ◌>>=◌}
use rust_network_system.Message.{Message}
use rust_network_system.Message.Conversions.{
  Crates, Value, text_field, set_header, convert, add_entry, add_values, values_of, to_container,
  serialized,
}

-- An entry that has a name, a type and a value.
pub record Entry : Type 0 where
  pub name : String
  pub type_str : String
  pub value_str : String

unfoldable pub with_all : Option String → Option String → Option String → List Entry → List Entry
with_all (some n) (some t) (some v) es = record { name = n; type_str = t; value_str = v } ∷ es
with_all (some n) (some t) none es = es
with_all (some n) none v es = es
with_all none t v es = es

module _ (k : Crates) where
  open k use {Json, Int, Double, ValueContainer}

  -- The complete entries among those of the array, in order.
  unfoldable pub complete : List Json → List Entry
  unfolding with_all
  complete [] = []
  complete (json ∷ jsons) =
      with_all (text_field k "name" json) (text_field k "type" json) (text_field k "value" json)
        (complete jsons)

  -- The values are those of the entries, one by one.
  abbrev pub Converted : List Entry → List (Value Int Double) → Type 0
  Converted [] [] = Unit
  Converted [] (x ∷ xs) = ⊥
  Converted (e ∷ es) [] = ⊥
  Converted (e ∷ es) (x ∷ xs) = (convert k e.name e.type_str e.value_str ≡ ok x) × Converted es xs

  abbrev pub add_all : List (Value Int Double) → ValueContainer → ValueContainer
  add_all [] c = c
  add_all (x ∷ xs) c = add_all xs (k.add_value x c)

  -- The first entry that has no value, and its error.
  abbrev pub FirstError : List Entry → NetworkError → Type 0
  FirstError [] x = ⊥
  FirstError (e ∷ es) x =
      (convert k e.name e.type_str e.value_str ≡ err x)
      ⊎ (((y : Value Int Double) × (convert k e.name e.type_str e.value_str ≡ ok y))
          × FirstError es x)

  -- What the loop makes of the entries `es` in front of a container.
  abbrev Outcome : List Entry → ValueContainer → Result ValueContainer → Type 0
  Outcome es c (ok c') = (xs : List (Value Int Double)) × Converted es xs × (c' ≡ add_all xs c)
  Outcome es c (err x) = FirstError es x

  converted_first :
      (n t v : String) (es : List Entry) (c : ValueContainer)
      (rest : ValueContainer → Result ValueContainer) (r : Result (Value Int Double))
      → convert k n t v ≡ r
      → ((c' : ValueContainer) → Outcome es c' (rest c'))
      → Outcome
          (record { name = n; type_str = t; value_str = v } ∷ es)
          c
          (r >>= λ x. rest (k.add_value x c))
  converted_first n t v es c rest (err x) e h = inl e
  converted_first n t v es c rest (ok y) e h = next (rest (k.add_value y c)) (h (k.add_value y c))
    where
      next :
          (r : Result ValueContainer)
          → Outcome es (k.add_value y c) r
          → Outcome (record { name = n; type_str = t; value_str = v } ∷ es) c r
      next (ok c') (xs, each, same) = (y ∷ xs, (e, each), same)
      next (err x) first = inr ((y, e), first)

  add_entry-Outcome :
      (n t v : Option String) (es : List Entry) (c : ValueContainer)
      (rest : ValueContainer → Result ValueContainer)
      → ((c' : ValueContainer) → Outcome es c' (rest c'))
      → Outcome (with_all n t v es) c (add_entry k n t v c rest)
  unfolding add_entry with_all
  add_entry-Outcome (some n) (some t) (some v) es c rest h =
      converted_first n t v es c rest (convert k n t v) refl h
  add_entry-Outcome (some n) (some t) none es c rest h = h c
  add_entry-Outcome (some n) none v es c rest h = h c
  add_entry-Outcome none t v es c rest h = h c

  add_values-Outcome :
      (jsons : List Json) (c : ValueContainer) → Outcome (complete jsons) c (add_values k jsons c)
  unfolding add_values complete
  add_values-Outcome [] c = ([], tt, refl)
  add_values-Outcome (json ∷ jsons) c =
      add_entry-Outcome (text_field k "name" json) (text_field k "type" json)
        (text_field k "value" json) (complete jsons) c (λ c'. add_values k jsons c')
        (λ c'. add_values-Outcome jsons c')

  same_values :
      (es : List Entry) (xs ys : List (Value Int Double))
      → Converted es xs
      → Converted es ys
      → xs ≡ ys
  same_values [] [] [] a b = refl
  same_values [] [] (y ∷ ys) a b = absurd b
  same_values [] (x ∷ xs) ys a b = absurd a
  same_values (e ∷ es) [] ys a b = absurd a
  same_values (e ∷ es) (x ∷ xs) [] a b = absurd b
  same_values (e ∷ es) (x ∷ xs) (y ∷ ys) (p, a) (q, b) =
      let first : x ≡ y = cc in ap₂ ◌∷◌ first (same_values es xs ys a b)

  same_error : (es : List Entry) (x y : NetworkError) → FirstError es x → FirstError es y → x ≡ y
  same_error [] x y a b = absurd a
  same_error (e ∷ es) x y (inl p) (inl q) = cc
  same_error (e ∷ es) x y (inl p) (inr ((z, q), b)) = absurd (cc)
  same_error (e ∷ es) x y (inr ((z, p), a)) (inl q) = absurd (cc)
  same_error (e ∷ es) x y (inr ((z, p), a)) (inr (q, b)) = same_error es x y a b

  error_excludes :
      (es : List Entry) (xs : List (Value Int Double)) (x : NetworkError)
      → Converted es xs
      → FirstError es x
      → ⊥
  error_excludes [] xs x a b = b
  error_excludes (e ∷ es) [] x a b = a
  error_excludes (e ∷ es) (y ∷ ys) x (p, a) (inl q) = absurd (cc)
  error_excludes (e ∷ es) (y ∷ ys) x (p, a) (inr (q, b)) = error_excludes es ys x a b

  -- The outcome determines the result, and the result the outcome.
  outcome_iff :
      (es : List Entry) (c : ValueContainer) (r : Result ValueContainer)
      → Outcome es c r
      → ((c' : ValueContainer)
          → (r ≡ ok c') ↔ ((xs : List (Value Int Double)) × Converted es xs × (c' ≡ add_all xs c)))
        × ((x : NetworkError) → (r ≡ err x) ↔ FirstError es x)
  outcome_iff es c (ok d) (xs, each, same) = (
    λ c'. (
      (λ e. let back : c' ≡ d = cc in (xs, each, back ∙ same)),
      λ h. ap ok (same ∙ ap (λ ys. add_all ys c) (same_values es xs h.0 each h.1) ∙ sym h.2),
    ),
    λ x. ((λ e. absurd (cc)), λ h. absurd (error_excludes es xs x each h)),
  )
  outcome_iff es c (err y) h = (
    λ c'. ((λ e. absurd (cc)), λ g. absurd (error_excludes es g.0 y g.1 h)),
    λ x. (
      (λ e. let same : y ≡ x = cc in subst (FirstError es) same h),
      λ g. ap err (same_error es y x h g),
    ),
  )

  -- Where the payload is a text that parses as JSON, `to_container` succeeds exactly if every entry of the array "values" that has
  -- a name, a type and a value converts, and its result is the container with the header of the JSON and those values,
  -- added in order; an entry that lacks one of the three is passed over. Otherwise the error is that of
  -- the first of these entries that does not convert.
  pub to_container_lem :
      (m : Message) (text : String) (json : Json)
      → k.from_utf8 m.payload ≡ inr text
      → k.from_str text ≡ inr json
      → let es = complete (values_of k json) in
        ((c : ValueContainer)
          → (to_container k m ≡ ok c) ↔ (
              (xs : List (Value Int Double)) × Converted es xs
              × (c ≡ add_all xs (set_header k json k.new))))
        × ((x : NetworkError) → (to_container k m ≡ err x) ↔ FirstError es x)
  unfolding to_container serialized
  to_container_lem m text json utf8 parsed =
      rw (utf8, serialized, parsed, serialized)
        (outcome_iff (complete (values_of k json)) (set_header k json k.new)
          (add_values k (values_of k json) (set_header k json k.new))
          (add_values-Outcome (values_of k json) (set_header k json k.new)))

  -- A payload that is no text, and a text that is no JSON.
  unreadable :
      (m : Message) (why : String)
      → ((k.from_utf8 m.payload ≡ inl why) → to_container k m ≡ err (serialization why))
        × ((text : String)
            → k.from_utf8 m.payload ≡ inr text
            → k.from_str text ≡ inl why
            → to_container k m ≡ err (serialization why))
  unfolding to_container serialized
  unreadable m why = (
    λ utf8. rw (utf8, serialized) refl,
    λ text utf8 parsed. rw (utf8, serialized, parsed, serialized) refl,
  )
