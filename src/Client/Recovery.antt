-- ===== src/Client/Recovery.antt =====
-- `send_with_reconnect` and `receive_with_reconnect` of src/core/client.rs.
use rust_network_system.Base.{
  ℕ, ◌<◌, ◌≡◌, ap, ◌∙◌, true, false, ◌&&◌, Option, none, some, List, [], ◌++◌, if◌then◌else◌,
}
use rust_network_system.Error.{Result, ok, err, invalid_state}
use rust_network_system.Message.{Message, encode}
use rust_network_system.Session.{WriteOutcome, written}
use rust_network_system.Session.Assembly.{ReadEvent}
use rust_network_system.Client.{
  TcpClient, Environment, is_connected, reconnect, Reconnected, is_connection_error, up,
}
use rust_network_system.Client.Reconnect.{SucceedsAfter, waits_from, reconnect_connects}
use rust_network_system.Client.Writes.{
  Sent, Readiness, writable, send, prepare, admit, transmit, write_all,
}
use rust_network_system.Client.Reads.{receive}

-- The result, the client, the bytes that reached a socket, and the waits of the reconnection.
abbrev pub Resent : Type 0
Resent = Result (Unit {0}) × TcpClient × List ℕ × List ℕ

sent_again : Reconnected → (TcpClient → Sent) → Resent
sent_again (ok u, c, waits) again = (let (result, w) = again c in (result, c, w, waits))
sent_again (err e, c, waits) again = (err e, c, [], waits)

after_send : TcpClient → Sent → Reconnected → (TcpClient → Sent) → Resent
after_send c (ok u, w) tried again = (ok tt, c, w, [])
after_send c (err e, w) tried again =
    if c.config.auto_reconnect && is_connection_error e
    then (let (result, c', w', waits) = sent_again tried again in (result, c', w ++ w', waits))
    else (err e, c, w, [])

unfoldable pub send_with_reconnect :
    TcpClient
    → Message
    → Readiness
    → WriteOutcome
    → (ℕ → Environment)
    → (ℕ → ℕ)
    → Readiness
    → WriteOutcome
    → Resent
unfolding after_send sent_again
send_with_reconnect c m ready o env jitter ready' o' =
    after_send c (send c m ready o) (reconnect env jitter c) (λ c'. send c' m ready' o')

-- The result of a call of `receive` that is repeated, with the client and the reads that are left: those of the old stream, or
-- those of the new one.
abbrev pub Received : Type 0
Received = Option (Result Message) × TcpClient × List ReadEvent

received_again : Reconnected → (TcpClient → Option (Result Message) × List ReadEvent) → Received
received_again (ok u, c, waits) again = (let (result, reads) = again c in (result, c, reads))
received_again (err e, c, waits) again = (some (err e), c, [])

after_receive :
    TcpClient
    → Option (Result Message) × List ReadEvent
    → Reconnected
    → (TcpClient → Option (Result Message) × List ReadEvent)
    → Received
after_receive c (none, reads) tried again = (none, c, reads)
after_receive c (some (ok m), reads) tried again = (some (ok m), c, reads)
after_receive c (some (err e), reads) tried again =
    if c.config.auto_reconnect && is_connection_error e
    then received_again tried again
    else (some (err e), c, reads)

unfoldable pub receive_with_reconnect :
    TcpClient
    → (ℕ → ℕ)
    → List ReadEvent
    → (ℕ → Environment)
    → (ℕ → ℕ)
    → (ℕ → ℕ)
    → List ReadEvent
    → Received
unfolding after_receive received_again
receive_with_reconnect c now reads env jitter now' reads' =
    after_receive c (receive c now reads) (reconnect env jitter c) (λ c'. receive c' now' reads')

-- Let a client be not connected, and set to reconnect by itself. When one of its attempts succeeds,
-- the message can be encoded and the write on the new connection goes through, then
-- `send_with_reconnect` succeeds: exactly the frame reaches a socket, once, the client is
-- connected, and it has waited as `reconnect` does.
pub send_recovers :
    (c : TcpClient) (m : Message) (ready : Readiness) (o : WriteOutcome) (env : ℕ → Environment)
    (jitter : ℕ → ℕ) (n : ℕ) {w : List ℕ}
    → is_connected c.state ≡ false
    → c.config.auto_reconnect ≡ true
    → SucceedsAfter c env 0 n
    → n < c.config.max_reconnect_attempts
    → encode m ≡ ok w
    → send_with_reconnect c m ready o env jitter writable written
      ≡ (ok tt, up c, w, waits_from jitter 0 n)
unfolding send_with_reconnect after_send sent_again send prepare admit transmit write_all
    is_connected is_connection_error
send_recovers c m ready o env jitter n {w} down auto there room e =
    let refused : send c m ready o ≡ (err (invalid_state "Client is not connected"), []) =
      ap (λ b. admit b (encode m) c.stream (transmit ready o)) down in
    let again : send (up c) m writable written ≡ (ok tt, w) =
      ap (λ r. admit true r true (transmit writable written)) e in
    ap (λ s. after_send c s (reconnect env jitter c) (λ c'. send c' m writable written)) refused
    ∙ ap
        (λ b.
          if b && true
          then (let (result, c', w', waits) =
                sent_again (reconnect env jitter c) (λ c'. send c' m writable written) in
              (result, c', [] ++ w', waits))
          else (err (invalid_state "Client is not connected"), c, [], []))
        auto
    ∙ ap (λ r. sent_again r (λ c'. send c' m writable written))
        (reconnect_connects env jitter c n there room)
    ∙ ap (λ s. (s.0, up c, s.1, waits_from jitter 0 n)) again
