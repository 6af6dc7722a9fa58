-- ===== src/Tests/MessageRuns.antt =====
-- src/core/message.rs at concrete messages.
use rust_network_system.Base.{
  ℕ, ◌≡◌, refl, ◌++◌, List, [], ◌∷◌, some, none, Option, String, inl, inr, if◌then◌else◌, ◌↔◌,
  arith,
}
use rust_network_system.Error.{NetworkError, ok, err, message_too_large, serialization}
use rust_network_system.Message.{Message, from_be_bytes, encode, decode_body, decode}
use rust_network_system.Message.Codec
use rust_network_system.Message.Conversions.{
  Crates, Value, to_container, text_field, convert, values_of, set_header,
}
use rust_network_system.Message.Conversions.Container
use rust_network_system.Message.Conversions.Container.{complete, Converted, add_all, FirstError}
use text.Mathlib.Text.{◌==◌}

abbrev hi : Message
hi = record { payload = 104 ∷ 105 ∷ [] }

abbrev hi_frame : List ℕ
hi_frame = 0 ∷ 0 ∷ 0 ∷ 2 ∷ 104 ∷ 105 ∷ []

encode-hi : encode hi ≡ ok hi_frame
unfolding encode
encode-hi = refl

-- A header that announces 2^24 + 1 bytes is refused at once, and the buffer is kept.
decode_too_large :
    decode (1 ∷ 0 ∷ 0 ∷ 1 ∷ [])
    ≡ (err (message_too_large 0x100_0001 0x100_0000), 1 ∷ 0 ∷ 0 ∷ 1 ∷ [])
unfolding decode decode_body from_be_bytes
decode_too_large = refl

decode-encode_example : decode (hi_frame ++ (7 ∷ [])) ≡ (ok (some hi), 7 ∷ [])
decode-encode_example = Codec.decode-encode hi (7 ∷ []) encode-hi

encode-decode_example : (w : List ℕ) × (encode hi ≡ ok w) × (hi_frame ++ (7 ∷ []) ≡ w ++ (7 ∷ []))
encode-decode_example =
    Codec.encode-decode (hi_frame ++ (7 ∷ [])) (omega arith) decode-encode_example

abbrev three_bytes : List ℕ
three_bytes = 0 ∷ 0 ∷ 0 ∷ []

-- A parsed value is a text, an array, or an object with a field of each name; "13" and "1" are the types of the entries.
data Json : Type 0 where
  text_value : String → Json
  entry : (name type_str : String) → Json
  container : Json

get : String → Json → Option Json
get name (text_value t) = none
get name (entry n t) =
    if name == "name"
    then some (text_value n)
    else if name == "type"
    then some (text_value t)
    else if name == "value"
    then some (text_value "yes")
    else none
get name container = if name == "values" then some container else none

as_str : Json → Option String
as_str (text_value t) = some t
as_str _ = none

as_array : Json → Option (List Json)
as_array container = some (entry "a" "13" ∷ text_value "b" ∷ entry "c" "1" ∷ [])
as_array _ = none

-- The container is the list of what was added; no text is a number or a truth value.
abbrev crates : Crates
crates = record {
  Json = Json;
  Int = ℕ;
  Double = ℕ;
  ValueContainer = List (Value ℕ ℕ);
  from_utf8 = λ b. inr "{}";
  from_str = λ t. inr container;
  get = get;
  as_str = as_str;
  as_array = as_array;
  parse_bool = λ t. inl "Invalid bool value";
  parse_i32 = λ t. inl "Invalid int value";
  parse_i64 = λ t. inl "Invalid long value";
  parse_f64 = λ t. inl "Invalid double value";
  as_bytes = λ t. [];
  unsupported = λ t. "Unsupported value type";
  new = [];
  serialize = λ c. inr [];
  set_source = λ a b c. c;
  set_target = λ a b c. c;
  set_message_type = λ a c. c;
  add_value = λ x c. c ++ (x ∷ []);
}

bad_bool : to_container crates hi ≡ err (serialization "Invalid bool value")
unfolding to_container text_field get as_str as_array convert
bad_bool = refl

to_container_lem_example :
    let es = complete crates (values_of crates container) in
    ((c : List (Value ℕ ℕ))
      → (to_container crates hi ≡ ok c) ↔ (
          (xs : List (Value ℕ ℕ)) × Converted crates es xs
          × (c ≡ add_all crates xs (set_header crates container []))))
    × ((x : NetworkError) → (to_container crates hi ≡ err x) ↔ FirstError crates es x)
to_container_lem_example = Container.to_container_lem crates hi "{}" container refl refl
