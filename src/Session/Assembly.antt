-- ===== src/Session/Assembly.antt =====
-- The loop that assembles one message from reads: the body of `receive` in src/session/mod.rs,
-- which src/core/client.rs repeats. `assembly` is three times the read timeout; `start` is
-- the reading of the clock at `assembly_start`, and each test of the loop takes the next reading.
use rust_network_system.Base.{
  ℕ, suc, ◌+◌, ◌-◌, Option, none, some, List, [], ◌∷◌, ◌++◌, String, leb, if◌then◌else◌, length,
}
use rust_network_system.Error.{NetworkError, Result, ok, err, timeout, connection}
use rust_network_system.Message.{Message, max_message_size, decode}

abbrev pub max_buffer_size : ℕ
max_buffer_size = max_message_size + 1024

-- How one `read_buf` under the read timeout ends; a read of no bytes is the end of the stream.
pub data ReadEvent : Type 0 where
  bytes : List ℕ → ReadEvent
  read_timed_out : ReadEvent
  read_failed : String → ReadEvent

pub data Attempt : Type 0 where
  finished : Result Message → List ℕ → Attempt
  need_more : List ℕ → Attempt

abbrev pub malformed : NetworkError
malformed = connection "Malformed message: buffer exceeded maximum size without complete message"

abbrev pub too_slow : NetworkError
too_slow = timeout "Message assembly timeout: took too long to receive complete message"

unfoldable pub after_decode : Result (Option Message) × List ℕ → Attempt
after_decode (err e, buf) = finished (err e) buf
after_decode (ok (some m), buf) = finished (ok m) buf
after_decode (ok none, buf) =
    if leb max_buffer_size (length buf) then finished (err malformed) buf else need_more buf

-- One round up to the read.
unfoldable pub attempt : (assembly elapsed : ℕ) → List ℕ → Attempt
unfolding after_decode
attempt assembly elapsed buf =
    if leb assembly elapsed then finished (err too_slow) buf else after_decode (decode buf)

-- `reading` is the number of the next reading of the clock; `result` is `none` while reads are awaited.
pub record Received : Type 0 where
  pub result : Option (Result Message)
  pub buffer : List ℕ
  pub reading : ℕ
  pub unread : List ReadEvent

abbrev stop : Result Message → List ℕ → ℕ → List ReadEvent → Received
stop r buf k reads = record { result = some r; buffer = buf; reading = k; unread = reads }

unfoldable pub receive_loop :
    (assembly start : ℕ) (now : ℕ → ℕ) (k : ℕ) → List ℕ → List ReadEvent → Received
receive_loop assembly start now k buf [] = elim (attempt assembly (now k - start) buf) [
  | finished r b ↦ stop r b (suc k) []
  | need_more b ↦ record { result = none; buffer = b; reading = suc k; unread = [] }
]
receive_loop assembly start now k buf (e ∷ reads) = elim (attempt assembly (now k - start) buf) [
  | finished r b ↦ stop r b (suc k) (e ∷ reads)
  | need_more b ↦ elim e [
    | bytes [] ↦ stop (err (connection "Connection closed by peer")) b (suc k) reads
    | bytes (x ∷ xs) ↦ receive_loop assembly start now (suc k) (b ++ (x ∷ xs)) reads
    | read_timed_out ↦ stop (err (timeout "Read timed out")) b (suc k) reads
    | read_failed text ↦ stop (err (connection text)) b (suc k) reads
  ]
]
