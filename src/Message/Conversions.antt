-- ===== src/Message/Conversions.antt =====
-- The conversions of src/core/message.rs: `from_json`, `to_json`, `from_container`, `to_container`, and the `From`s.
-- serde_json, the container crate and the parsers of the standard library are parameters. A failure of theirs is the text
-- that the source formats from it.
pub mod Container
use rust_network_system.Base.{
  ℕ, Bool, Option, none, some, List, [], ◌∷◌, ◌⊎◌, inl, inr, String, if◌then◌else◌, ◌||◌,
}
use rust_network_system.Error.{Result, ok, err, serialization, ◌>>=◌}
use rust_network_system.Message.{Message, size}
use text.Mathlib.Text.{◌==◌}

unfoldable pub from_bytes : List ℕ → Message
from_bytes bytes = record { payload = bytes }

-- `Display`, with the text of a number and the way that texts are joined.
display : (show : ℕ → String) (join : List String → String) → Message → String
display show join m = join ("Message[" ∷ show (size m) ∷ " bytes]" ∷ [])

-- `map_err`.
unfoldable pub serialized : {T : Type 0} → String ⊎ T → Result T
serialized (inl text) = err (serialization text)
serialized (inr t) = ok t

-- `T` is the type that is written and read.
unfoldable pub from_json : {T : Type 0} → (to_vec : T → String ⊎ List ℕ) → T → Result Message
unfolding serialized from_bytes
from_json to_vec value = do json ← serialized (to_vec value); ok (from_bytes json)

unfoldable pub to_json : {T : Type 0} → (from_slice : List ℕ → String ⊎ T) → Message → Result T
unfolding serialized
to_json from_slice m = serialized (from_slice m.payload)

-- A value of the container crate, by the constructor and the arguments that made it.
pub data Value (Int Double : Type 0) : Type 0 where
  bool_value : String → Bool → Value Int Double
  int_value long_value : String → Int → Value Int Double
  double_value : String → Double → Value Int Double
  string_value : String → String → Value Int Double
  bytes_value : String → List ℕ → Value Int Double

-- What `to_container` uses of other crates. `Json` is a parsed value, whose `get` finds a field of an object.
pub record Crates : Type 1 where
  pub Json : Type 0
  pub Int : Type 0
  pub Double : Type 0
  pub ValueContainer : Type 0
  pub from_utf8 : List ℕ → String ⊎ String
  pub from_str : String → String ⊎ Json
  pub get : String → Json → Option Json
  pub as_str : Json → Option String
  pub as_array : Json → Option (List Json)
  pub parse_bool : String → String ⊎ Bool
  pub parse_i32 : String → String ⊎ Int
  pub parse_i64 : String → String ⊎ Int
  pub parse_f64 : String → String ⊎ Double
  pub as_bytes : String → List ℕ
  pub unsupported : String → String
  pub new : ValueContainer
  pub serialize : ValueContainer → String ⊎ List ℕ
  pub set_source : String → String → ValueContainer → ValueContainer
  pub set_target : String → String → ValueContainer → ValueContainer
  pub set_message_type : String → ValueContainer → ValueContainer
  pub add_value : Value Int Double → ValueContainer → ValueContainer

abbrev pub and_then : {A B : Type 0} → Option A → (A → Option B) → Option B
and_then none f = none
and_then (some a) f = f a

module _ (k : Crates) where
  open k use {Json, Int, Double, ValueContainer}

  unfoldable pub from_container : ValueContainer → Result Message
  unfolding serialized from_bytes
  from_container c = do bytes ← serialized (k.serialize c); ok (from_bytes bytes)

  unfoldable pub text_field : String → Json → Option String
  text_field name json = and_then (k.get name json) k.as_str

  -- Both texts, or the container stays as it is.
  set_both :
      (String → String → ValueContainer → ValueContainer)
      → Option String
      → Option String
      → ValueContainer
      → ValueContainer
  set_both set (some a) (some b) c = set a b c
  set_both set (some a) none c = c
  set_both set none b c = c

  set_one :
      (String → ValueContainer → ValueContainer) → Option String → ValueContainer → ValueContainer
  set_one set (some a) c = set a c
  set_one set none c = c

  unfoldable pub set_header : Json → ValueContainer → ValueContainer
  unfolding text_field set_both set_one
  set_header json c = set_one k.set_message_type (text_field "message_type" json) (
      set_both k.set_target (text_field "target_id" json) (text_field "target_sub_id" json)
        (set_both k.set_source (text_field "source_id" json) (text_field "source_sub_id" json) c))

  made : {T : Type 0} → (T → Value Int Double) → String ⊎ T → Result (Value Int Double)
  made make (inl text) = err (serialization text)
  made make (inr t) = ok (make t)

  -- The value of an entry, from its name, type and text.
  unfoldable pub convert : (name type_str value_str : String) → Result (Value Int Double)
  unfolding made
  convert name type_str value_str =
      if type_str == "1"
      then made (bool_value name) (k.parse_bool value_str)
      else if type_str == "4"
      then made (int_value name) (k.parse_i32 value_str)
      else if type_str == "6" || type_str == "8"
      then made (long_value name) (k.parse_i64 value_str)
      else if type_str == "11"
      then made (double_value name) (k.parse_f64 value_str)
      else if type_str == "13"
      then ok (string_value name value_str)
      else if type_str == "12"
      then ok (bytes_value name (k.as_bytes value_str))
      else err (serialization (k.unsupported type_str))

  -- One turn of the loop over the entries: one without name, type or value is passed over. `rest` is the loop
  -- after it.
  unfoldable pub add_entry :
      (name type_str value_str : Option String)
      → ValueContainer
      → (ValueContainer → Result ValueContainer)
      → Result ValueContainer
  unfolding convert
  add_entry (some n) (some t) (some v) c rest = do x ← convert n t v; rest (k.add_value x c)
  add_entry (some n) (some t) none c rest = rest c
  add_entry (some n) none v c rest = rest c
  add_entry none t v c rest = rest c

  unfoldable pub add_values : List Json → ValueContainer → Result ValueContainer
  unfolding add_entry text_field
  add_values [] c = ok c
  add_values (json ∷ jsons) c =
      add_entry (text_field "name" json) (text_field "type" json) (text_field "value" json) c
        (λ c'. add_values jsons c')

  entries : Option (List Json) → List Json
  entries none = []
  entries (some jsons) = jsons

  unfoldable pub values_of : Json → List Json
  unfolding entries
  values_of json = entries (and_then (k.get "values" json) k.as_array)

  unfoldable pub to_container : Message → Result ValueContainer
  unfolding serialized set_header add_values values_of
  to_container m = do
    text ← serialized (k.from_utf8 m.payload)
    json ← serialized (k.from_str text)
    add_values (values_of json) (set_header json k.new)
