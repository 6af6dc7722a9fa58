-- ===== src/Message.antt =====
-- src/core/message.rs: a message and its length-prefixed wire format.
-- A byte is a number; `IsByte` states its range. A `BytesMut` that a call changes is an argument and
-- a part of the result.
pub mod Codec
pub mod Stream
pub mod Conversions
use rust_network_system.Base.{
  ℕ, ◌+◌, ◌*◌, ◌/◌, ◌%◌, ◌^◌, ◌<◌, Bool, true, false, Option, none, some, List, [], ◌∷◌, ◌++◌, ltb,
  if◌then◌else◌, length, take, drop,
}
use rust_network_system.Error.{Result, ok, err, message_too_large}

abbrev pub max_message_size : ℕ
max_message_size = 16 * 1024 * 1024

abbrev pub header_size : ℕ
header_size = 4

abbrev pub IsByte : ℕ → Type 0
IsByte b = b < 256

pub record Message : Type 0 where
  pub payload : List ℕ

unfoldable pub size : Message → ℕ
size m = length m.payload

unfoldable pub is_empty : Message → Bool
is_empty m = null m.payload
  where
    null : List ℕ → Bool
    null [] = true
    null (x ∷ xs) = false

-- `put_u32` of the `bytes` crate writes big-endian; `len as u32` keeps the low 32 bits.
unfoldable pub put_u32 : ℕ → List ℕ
put_u32 n = (n / 2 ^ 24 % 256) ∷ (n / 2 ^ 16 % 256) ∷ (n / 2 ^ 8 % 256) ∷ (n % 256) ∷ []

-- `u32::from_be_bytes`.
unfoldable pub from_be_bytes : List ℕ → ℕ
from_be_bytes (a ∷ b ∷ c ∷ d ∷ []) = a * 2 ^ 24 + b * 2 ^ 16 + c * 2 ^ 8 + d
from_be_bytes _ = 0

unfoldable pub encode : Message → Result (List ℕ)
unfolding put_u32
encode m =
    let len = length m.payload in
    if ltb max_message_size len
    then err (message_too_large len max_message_size)
    else ok (put_u32 (len % 2 ^ 32) ++ m.payload)

-- What follows the read of the header: `len` is the announced length.
unfoldable pub decode_body : ℕ → List ℕ → Result (Option Message) × List ℕ
decode_body len buf =
    if ltb max_message_size len
    then (err (message_too_large len max_message_size), buf)
    else if ltb (length buf) (header_size + len)
    then (ok none, buf)
    else (let body = drop header_size buf in
        (ok (some (record { payload = take len body })), drop len body))

-- The result, and the buffer after the call.
unfoldable pub decode : List ℕ → Result (Option Message) × List ℕ
decode buf =
    if ltb (length buf) header_size
    then (ok none, buf)
    else decode_body (from_be_bytes (take header_size buf)) buf
