-- ===== src/Session.antt =====
-- src/session/mod.rs: one connection as the server sees it.
-- Time is a number of nanoseconds. A call takes its readings of the clock from a function `now`, the
-- i-th reading being `now i`, and the outcomes of its reads and writes from the environment. Locks
-- are waited for without effect; `close` is two steps, since others run while it waits. The two
-- writes in front of that wait, of the state and of the flag, are one step (`begin_close`).
pub mod Assembly
pub mod Delivery
pub mod Stream
pub mod Lifecycle
pub mod Truncation
use rust_network_system.Base.{
  ℕ, ◌+◌, ◌-◌, ◌*◌, Bool, true, false, not, Option, none, some, List, [], ◌∷◌, ◌++◌, String, ltb,
  leb, if◌then◌else◌, take,
}
use rust_network_system.Error.{Result, ok, err, timeout, connection, invalid_state}
use rust_network_system.Message.{Message, encode}
use Assembly.{ReadEvent, Received, receive_loop}

pub data SessionState : Type 0 where
  active closing closed : SessionState

-- A half of the stream is `true` while the `Option` that holds it is `Some`.
pub record Session : Type 0 where
  pub id : ℕ
  pub peer_addr : ℕ
  pub state : SessionState
  pub is_active : Bool
  pub read_half : Bool
  pub write_half : Bool
  pub read_timeout : ℕ
  pub write_timeout : ℕ
  pub idle_timeout : ℕ
  pub created_at : ℕ
  pub last_activity : ℕ
  pub read_buffer : List ℕ

-- The random identifier is an argument.
unfoldable pub new : (id peer_addr read_timeout write_timeout idle_timeout now : ℕ) → Session
new id peer_addr read_timeout write_timeout idle_timeout now = record {
  id = id;
  peer_addr = peer_addr;
  state = active;
  is_active = true;
  read_half = true;
  write_half = true;
  read_timeout = read_timeout;
  write_timeout = write_timeout;
  idle_timeout = idle_timeout;
  created_at = now;
  last_activity = now;
  read_buffer = [];
}

unfoldable pub update_activity : Session → ℕ → Session
update_activity s now = record s { last_activity = now }

unfoldable pub is_idle : Session → ℕ → Bool
is_idle s now = ltb s.idle_timeout (now - s.last_activity)

unfoldable pub idle_time : Session → ℕ → ℕ
idle_time s now = now - s.last_activity

unfoldable pub uptime : Session → ℕ → ℕ
uptime s now = now - s.created_at

unfoldable pub set_inactive : Session → Session
set_inactive s = record s { is_active = false }

-- What `write_all` did before it ended: all was written, or some bytes and then the timeout or an
-- error, whose text is given.
pub data WriteOutcome : Type 0 where
  written : WriteOutcome
  write_timed_out : ℕ → WriteOutcome
  write_failed : ℕ → String → WriteOutcome

-- The result, the session after the call, and the bytes that reached the socket.
abbrev pub Sent : Type 0
Sent = Result (Unit {0}) × Session × List ℕ

unfoldable pub write : Session → (ℕ → ℕ) → List ℕ → WriteOutcome → Sent
unfolding update_activity
write s now bytes written = (ok tt, update_activity s (now 1), bytes)
write s now bytes (write_timed_out n) = (err (timeout "Write timed out"), s, take n bytes)
write s now bytes (write_failed n text) = (err (connection text), s, take n bytes)

unfoldable pub send : Session → Message → (ℕ → ℕ) → WriteOutcome → Sent
unfolding is_idle write
send s m now outcome =
    if not s.is_active
    then (err (invalid_state "Session is not active"), s, [])
    else if is_idle s (now 0)
    then (err (timeout "Session idle timeout exceeded"), s, [])
    else elim (encode m) [
      | err e ↦ (err e, s, [])
      | ok bytes ↦
          if s.write_half
          then write s now bytes outcome
          else (err (invalid_state "Session write half is closed"), s, [])
    ]

-- `none` while the call still waits for data. The reads that were not consumed are returned.
abbrev pub Receipt : Type 0
Receipt = Option (Result Message) × Session × List ReadEvent

unfoldable pub finish_receive : Session → (ℕ → ℕ) → Option (Result Message) → Received → Receipt
unfolding update_activity
finish_receive s now (some (ok m)) r =
    (some (ok m), update_activity (record s { read_buffer = r.buffer }) (now r.reading), r.unread)
finish_receive s now result r = (result, record s { read_buffer = r.buffer }, r.unread)

unfoldable pub receive : Session → (ℕ → ℕ) → List ReadEvent → Receipt
unfolding is_idle finish_receive
receive s now reads =
    if not s.is_active
    then (some (err (invalid_state "Session is not active")), s, reads)
    else if is_idle s (now 0)
    then (some (err (timeout "Session idle timeout exceeded")), s, reads)
    else if not s.read_half
    then (some (err (invalid_state "Session read half is closed")), s, reads)
    else (let r = receive_loop (s.read_timeout * 3) (now 1) now 2 s.read_buffer reads in
        finish_receive s now r.result r)

unfoldable pub begin_close : Session → Session
begin_close s = record s { state = closing; is_active = false }

unfoldable pub finish_close : Session → Session
finish_close s = record s { write_half = false; read_half = false; state = closed }

unfoldable pub close : Session → Session
unfolding begin_close finish_close
close s = finish_close (begin_close s)
