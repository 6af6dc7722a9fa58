-- ===== src/Monitor.antt =====
-- src/integration/monitor.rs: which calls the monitored handler makes of the counters and the gauge. Those are
-- another crate's; a run is the list of the calls of them, in order.
pub mod Gauge
use rust_network_system.Base.{
  ℕ, suc, ◌+◌, ◌*◌, ◌≡◌, refl, ap, List, [], ◌∷◌, ◌++◌, arith, length, length-append,
}
use rust_network_system.Error.{ok}
use rust_network_system.Message.{Message, size}
use rust_network_system.Message.Codec.{wire, length-wire}
use rust_network_system.Message.Stream.{encode_all, encode_all_ok, wires}

pub data MetricCall : Type 0 where
  inc_connections inc_active dec_active inc_received inc_sent : MetricCall
  add_bytes_received add_bytes_sent : ℕ → MetricCall

unfoldable pub on_connected : List MetricCall
on_connected = inc_connections ∷ inc_active ∷ []

unfoldable pub on_message : Message → List MetricCall
on_message m = inc_received ∷ add_bytes_received (size m) ∷ []

unfoldable pub on_disconnected : List MetricCall
on_disconnected = dec_active ∷ []

unfoldable pub record_message_sent : ℕ → List MetricCall
record_message_sent n = inc_sent ∷ add_bytes_sent n ∷ []

-- The calls for the messages of a connection.
unfoldable pub on_messages : List Message → List MetricCall
unfolding on_message
on_messages [] = []
on_messages (m ∷ ms) = on_message m ++ on_messages ms

-- What the calls add up to: messages and bytes that were received.
unfoldable pub received : List MetricCall → ℕ × ℕ
received [] = (0, 0)
received (inc_received ∷ calls) = let (n, bytes) = received calls in (suc n, bytes)
received (add_bytes_received k ∷ calls) = let (n, bytes) = received calls in (n, k + bytes)
received (_ ∷ calls) = received calls

received_wires :
    (ms : List Message)
    → ((received (on_messages ms)).0 ≡ length ms)
      × (length (wires ms) ≡ (received (on_messages ms)).1 + 4 * length ms)
unfolding received on_messages on_message
received_wires [] = (refl, omega arith)
received_wires (m ∷ ms) =
    let (counted, bytes) = received_wires ms in
    (omega (arith, counted), omega (arith, bytes, length-append (wire m) (wires ms), length-wire m))

-- The counters of received messages and bytes tell the length of the stream that the peer sent: the bytes leave out the
-- header of 4 bytes of each message.
pub received_stream :
    (ms : List Message) {w : List ℕ}
    → encode_all ms ≡ ok w
    → ((received (on_messages ms)).0 ≡ length ms)
      × (length w ≡ (received (on_messages ms)).1 + 4 * length ms)
received_stream ms {w} sent =
    let (fits, same) = encode_all_ok ms sent in
    let (counted, bytes) = received_wires ms in (counted, omega (arith, ap length same, bytes))
