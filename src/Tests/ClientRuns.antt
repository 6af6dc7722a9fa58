-- ===== src/Tests/ClientRuns.antt =====
-- src/core/client.rs on concrete clients and connections.
use rust_network_system.Base.{
  ℕ, zero, suc, ◌<◌, ◌≡◌, ◌⊎◌, refl, ◌++◌, [], ◌∷◌, some, none, arith, true,
}
use rust_network_system.Error.{ok, err, timeout}
use rust_network_system.Message.{Message, put_u32, encode}
use rust_network_system.Session.{written}
use rust_network_system.Session.Assembly.{bytes}
use rust_network_system.Client.{
  default_config, TcpClient, with_config, up, disconnected, is_connected, Environment, accepted,
  connect_timed_out, establish, reconnect,
}
use rust_network_system.Client.Reconnect
use rust_network_system.Client.Reconnect.{
  SucceedsAfter, FailTimes, waits_from, backoff, pauses, exhausted, sum,
}
use rust_network_system.Client.Reads
use rust_network_system.Client.Reads.{receive}
use rust_network_system.Client.Writes
use rust_network_system.Client.Writes.{writable, would_block, wrote, send, try_send}
use rust_network_system.Client.Recovery
use rust_network_system.Client.Recovery.{send_with_reconnect}

abbrev hi : Message
hi = record { payload = 104 ∷ 105 ∷ [] }

abbrev ok_message : Message
ok_message = record { payload = 79 ∷ 75 ∷ 33 ∷ [] }

abbrev fresh : TcpClient
fresh = with_config "127.0.0.1:8080" default_config

abbrev open_client : TcpClient
open_client = up fresh

abbrev late : Environment
late = record { bad_address = none; outcome = connect_timed_out; bad_options = none }

abbrev good : Environment
good = record { bad_address = none; outcome = accepted; bad_options = none }

-- Two attempts time out, and then the peer answers.
abbrev third_time : ℕ → Environment
third_time zero = late
third_time (suc zero) = late
third_time (suc (suc i)) = good

abbrev jitter : ℕ → ℕ
jitter i = 7

abbrev steady : ℕ → ℕ
steady i = 110

third_time_waits : reconnect third_time jitter fresh ≡ (ok tt, up fresh, 107 ∷ 207 ∷ [])
unfolding with_config default_config establish waits_from backoff
third_time_waits =
    Reconnect.reconnect_connects third_time jitter fresh 2
      ((timeout "Connection timed out", refl), ((timeout "Connection timed out", refl), refl))
      (omega arith)

reconnect_lem_example :
    ((n : ℕ) × (n < fresh.config.max_reconnect_attempts)
      × SucceedsAfter fresh third_time 0 n
      × (reconnect third_time jitter fresh ≡ (ok tt, up fresh, waits_from jitter 0 n)))
    ⊎ (FailTimes fresh third_time 0 fresh.config.max_reconnect_attempts
        × (reconnect third_time jitter fresh ≡ (
          err (exhausted fresh.config.max_reconnect_attempts),
          record fresh { state = disconnected },
          waits_from jitter 0 (pauses fresh.config.max_reconnect_attempts),
        )))
reconnect_lem_example = Reconnect.reconnect_lem third_time jitter fresh

-- The frame of "hi" and the frame of "OK!" arrive in one read.
receive_discards_example :
    receive open_client steady
      (bytes ((0 ∷ 0 ∷ 0 ∷ 2 ∷ 104 ∷ 105 ∷ []) ++ (0 ∷ 0 ∷ 0 ∷ 3 ∷ 79 ∷ 75 ∷ 33 ∷ [])) ∷ [])
    ≡ (some (ok hi), [])
unfolding encode put_u32 with_config default_config is_connected
receive_discards_example =
    Reads.receive_discards open_client steady hi (0 ∷ 0 ∷ 0 ∷ 3 ∷ 79 ∷ 75 ∷ 33 ∷ []) [] refl refl
      (λ j. omega arith) refl

send-whole_example :
    ((send open_client hi writable written).0 ≡ ok tt
      → (is_connected open_client.state ≡ true)
        × (encode hi ≡ ok (send open_client hi writable written).1))
    × ((try_send open_client hi (wrote 2) written).0 ≡ ok tt
        → (is_connected open_client.state ≡ true)
          × (encode hi ≡ ok (try_send open_client hi (wrote 2) written).1))
    × ((try_send open_client hi would_block written).1 ≡ [])
send-whole_example = Writes.send-whole open_client hi writable (wrote 2) written

send_recovers_example :
    send_with_reconnect fresh hi writable written third_time jitter writable written
    ≡ (ok tt, up fresh, 0 ∷ 0 ∷ 0 ∷ 2 ∷ 104 ∷ 105 ∷ [], waits_from jitter 0 2)
unfolding encode put_u32 with_config default_config is_connected establish
send_recovers_example =
    Recovery.send_recovers fresh hi writable written third_time jitter 2 refl refl
      ((timeout "Connection timed out", refl), ((timeout "Connection timed out", refl), refl))
      (omega arith) refl
