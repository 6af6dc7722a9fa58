-- ===== src/Error.antt =====
-- src/error/mod.rs: the error type that the operations return, and the result type over it.
-- The text of an error is a `String`; where the source formats the text of a foreign error into it,
-- the model takes the whole text from the environment.
use rust_network_system.Base.{ℕ, String}

pub data NetworkError : Type 0 where
  io : String → NetworkError
  connection : String → NetworkError
  timeout : String → NetworkError
  serialization : String → NetworkError
  invalid_state : String → NetworkError
  invalid_address : String → NetworkError
  message_too_large : ℕ → ℕ → NetworkError
  channel : String → NetworkError
  tls : String → NetworkError
  other : String → NetworkError

-- `Result<T>`, an alias of the library's result type with the error fixed.
pub data Result {ℓ} (T : Type ℓ) : Type ℓ where
  err : (error : NetworkError) → Result T
  ok : (value : T) → Result T

-- The operator `?` of the source: what comes after it runs on a value, and an error is returned.
infixl 5 ◌>>=◌
abbrev pub ◌>>=◌ {ℓ κ} : {T : Type ℓ} {U : Type κ} (r : Result T) (after : T → Result U) → Result U
r >>= after = elim r [ err error ↦ err error | ok value ↦ after value ]
