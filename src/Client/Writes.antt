-- ===== src/Client/Writes.antt =====
-- `send` and `try_send` of src/core/client.rs: what reaches the socket, and what the caller is told.
use rust_network_system.Base.{
  ℕ, ◌+◌, ◌-◌, ◌≤◌, ◌<◌, ◌≡◌, refl, sym, ap, ◌∙◌, inl, inr, Bool-cases, Bool, true, false, some,
  List, [], ◌++◌, arith, String, ◌==◌, if◌then◌else◌, length, take, drop, take-append-drop,
}
use rust_network_system.Error.{Result, ok, err, timeout, connection, invalid_state, other}
use rust_network_system.Message.{Message, size, decode, encode}
use rust_network_system.Message.Codec.{encode_ok, length-wire}
use rust_network_system.Session.{WriteOutcome, written, write_timed_out, write_failed}
use rust_network_system.Session.Truncation.{mixed, decode-mixed}
use rust_network_system.Client.{TcpClient, is_connected}

-- The result, and the bytes that reached the socket.
abbrev pub Sent : Type 0
Sent = Result (Unit {0}) × List ℕ

-- How the wait for a writable socket ends.
pub data Readiness : Type 0 where
  writable : Readiness
  not_writable : Readiness
  check_failed : String → Readiness

pub data TryWrite : Type 0 where
  wrote : ℕ → TryWrite
  would_block : TryWrite
  try_failed : String → TryWrite

unfoldable pub write_all : String → List ℕ → WriteOutcome → Sent
write_all late w written = (ok tt, w)
write_all late w (write_timed_out n) = (err (timeout late), take n w)
write_all late w (write_failed n text) = (err (connection text), take n w)

unfoldable pub transmit : Readiness → WriteOutcome → List ℕ → Sent
transmit writable o w = write_all "Write timed out" w o
transmit not_writable o w = (err (timeout "Socket not ready for writing (backpressure)"), [])
transmit (check_failed text) o w = (err (connection text), [])

-- What both ways to send do before they write, from the state, the encoding and the stream.
unfoldable pub admit : Bool → Result (List ℕ) → Bool → (List ℕ → Sent) → Sent
admit false r stream continue = (err (invalid_state "Client is not connected"), [])
admit true (err e) stream continue = (err e, [])
admit true (ok w) true continue = continue w
admit true (ok w) false continue = (err (invalid_state "No active connection"), [])

unfoldable pub prepare : TcpClient → Message → (List ℕ → Sent) → Sent
unfolding admit
prepare c m continue = admit (is_connected c.state) (encode m) c.stream continue

unfoldable pub send : TcpClient → Message → Readiness → WriteOutcome → Sent
unfolding prepare transmit write_all
send c m ready o = prepare c m (transmit ready o)

behind : List ℕ → Sent → Sent
behind front (result, w) = (result, front ++ w)

try_transmit : TryWrite → WriteOutcome → List ℕ → Sent
try_transmit (wrote n) o w =
    if n == length w
    then (ok tt, w)
    else behind (take n w) (write_all "Write timed out after partial write" (drop n w) o)
try_transmit would_block o w =
    (err (other "Backpressure: send buffer full, cannot write without blocking"), [])
try_transmit (try_failed text) o w = (err (connection text), [])

unfoldable pub try_send : TcpClient → Message → TryWrite → WriteOutcome → Sent
unfolding prepare try_transmit behind write_all
try_send c m attempt o = prepare c m (try_transmit attempt o)

admit_ok :
    (on : Bool) (r : Result (List ℕ)) (stream : Bool) (continue : List ℕ → Sent)
    → ((w : List ℕ) → (continue w).0 ≡ ok tt → (continue w).1 ≡ w)
    → (admit on r stream continue).0 ≡ ok tt
    → (on ≡ true) × (r ≡ ok (admit on r stream continue).1)
unfolding admit
admit_ok false r stream continue whole h = absurd (cc)
admit_ok true (err e) stream continue whole h = absurd (cc)
admit_ok true (ok w) true continue whole h = (refl, ap ok (sym (whole w h)))
admit_ok true (ok w) false continue whole h = absurd (cc)

prepare_ok :
    (c : TcpClient) (m : Message) (continue : List ℕ → Sent)
    → ((w : List ℕ) → (continue w).0 ≡ ok tt → (continue w).1 ≡ w)
    → (prepare c m continue).0 ≡ ok tt
    → (is_connected c.state ≡ true) × (encode m ≡ ok (prepare c m continue).1)
unfolding prepare
prepare_ok c m continue = admit_ok (is_connected c.state) (encode m) c.stream continue

admit_blocked :
    (on : Bool) (r : Result (List ℕ)) (stream : Bool) (continue : List ℕ → Sent)
    → ((w : List ℕ) → (continue w).1 ≡ [])
    → (admit on r stream continue).1 ≡ []
unfolding admit
admit_blocked false r stream continue h = refl
admit_blocked true (err e) stream continue h = refl
admit_blocked true (ok w) true continue h = h w
admit_blocked true (ok w) false continue h = refl

transmit_ok :
    (ready : Readiness) (o : WriteOutcome) (w : List ℕ)
    → (transmit ready o w).0 ≡ ok tt
    → (transmit ready o w).1 ≡ w
unfolding transmit write_all
transmit_ok writable written w h = refl
transmit_ok writable (write_timed_out n) w h = absurd (cc)
transmit_ok writable (write_failed n text) w h = absurd (cc)
transmit_ok not_writable o w h = absurd (cc)
transmit_ok (check_failed text) o w h = absurd (cc)

complete_ok :
    (late : String) (o : WriteOutcome) (front back : List ℕ)
    → (behind front (write_all late back o)).0 ≡ ok tt
    → (behind front (write_all late back o)).1 ≡ front ++ back
unfolding behind write_all
complete_ok late written front back h = refl
complete_ok late (write_timed_out n) front back h = absurd (cc)
complete_ok late (write_failed n text) front back h = absurd (cc)

try_transmit_ok :
    (attempt : TryWrite) (o : WriteOutcome) (w : List ℕ)
    → (try_transmit attempt o w).0 ≡ ok tt
    → (try_transmit attempt o w).1 ≡ w
unfolding try_transmit
try_transmit_ok (wrote n) o w h = elim (Bool-cases (n == length w)) [
  | inl all ↦ ground (arith, all)
  | inr some_left ↦ ground (
    arith,
    some_left,
    h,
    complete_ok "Write timed out after partial write" o (take n w) (drop n w),
    take-append-drop n w,
  )
]
try_transmit_ok would_block o w h = absurd (cc)
try_transmit_ok (try_failed text) o w h = absurd (cc)

-- A `send` or a `try_send` that succeeds found the client connected and put exactly the frame of
-- the message on the socket, also when `try_send` wrote it in two parts. A `try_send` that finds
-- the send buffer full puts nothing on it.
pub send-whole :
    (c : TcpClient) (m : Message) (ready : Readiness) (attempt : TryWrite) (o : WriteOutcome)
    → ((send c m ready o).0 ≡ ok tt
        → (is_connected c.state ≡ true) × (encode m ≡ ok (send c m ready o).1))
      × ((try_send c m attempt o).0 ≡ ok tt
          → (is_connected c.state ≡ true) × (encode m ≡ ok (try_send c m attempt o).1))
      × ((try_send c m would_block o).1 ≡ [])
unfolding send try_send prepare try_transmit
send-whole c m ready attempt o = (
  prepare_ok c m (transmit ready o) (transmit_ok ready o),
  prepare_ok c m (try_transmit attempt o) (try_transmit_ok attempt o),
  admit_blocked (is_connected c.state) (encode m) c.stream (try_transmit would_block o) (λ w. refl),
)

-- A write that times out inside a frame leaves the client connected, and its error is none that makes the client
-- reconnect. The next `send` reports success, and the peer reads a message that mixes the two frames.
pub resend_after_timeout :
    (c : TcpClient) (m m₂ : Message) (n : ℕ) {w w₂ : List ℕ}
    → is_connected c.state ≡ true
    → c.stream ≡ true
    → encode m ≡ ok w
    → encode m₂ ≡ ok w₂
    → 4 ≤ n
    → n < length w
    → length w ≤ n + length w₂
    → let first = send c m writable (write_timed_out n) in
      let second = send c m₂ writable written in
      (first.0 ≡ err (timeout "Write timed out"))
      × (second.0 ≡ ok tt)
      × (decode (first.1 ++ second.1) ≡ (ok (some (mixed m n w₂)), drop (length w - n) w₂))
unfolding send prepare admit transmit write_all
resend_after_timeout c m m₂ n {w} {w₂} on up e e₂ h k l =
    let (fits, same) = encode_ok m e in
    let sized : length w ≡ 4 + size m = ap length same ∙ length-wire m in
    ground (
      arith,
      ap (take n) same,
      decode-mixed m n w₂ fits h (omega arith) (omega arith),
      ap (λ (j : ℕ). drop (j - n) w₂) sized,
    )
