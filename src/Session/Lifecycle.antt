-- ===== src/Session/Lifecycle.antt =====
-- The life of a session of src/session/mod.rs: which calls have an effect in which state.
use rust_network_system.Base.{
  ℕ, ◌≡◌, refl, ◌∙◌, ◌≢◌, ◌⊎◌, true, false, Option, none, some, List, [], ◌∷◌, arith,
}
use rust_network_system.Error.{Result, ok, err}
use rust_network_system.Message.{Message, encode}
use rust_network_system.Session.Assembly.{ReadEvent}
use rust_network_system.Session.{
  Session, active, closed, WriteOutcome, written, write_timed_out, write_failed, update_activity,
  is_idle, set_inactive, write, send, finish_receive, receive, begin_close, finish_close,
}

-- What tasks that share the session may do to it, in any order. `closes` and `finishes` are the two
-- steps of `close`.
pub data Call : Type 0 where
  sends : Message → (ℕ → ℕ) → WriteOutcome → Call
  receives : (ℕ → ℕ) → List ReadEvent → Call
  deactivates closes finishes : Call

-- What a call makes visible: bytes on the socket, or a message for the caller.
pub record Effect : Type 0 where
  pub bytes : List ℕ
  pub message : Option Message

abbrev pub quiet : Effect
quiet = record { bytes = []; message = none }

message_of : Option (Result Message) → Option Message
message_of (some (ok m)) = some m
message_of (some (err e)) = none
message_of none = none

unfoldable pub step : Session → Call → Session × Effect
unfolding message_of
step s (sends m now outcome) =
    let r = send s m now outcome in (r.1, record { bytes = r.2; message = none })
step s (receives now reads) =
    let r = receive s now reads in (r.1, record { bytes = []; message = message_of r.0 })
step s deactivates = (set_inactive s, quiet)
step s closes = (begin_close s, quiet)
step s finishes = (finish_close s, quiet)

-- The session after the calls, and what each of them made visible.
unfoldable pub run : Session → List Call → Session × List Effect
run s [] = (s, [])
run s (c ∷ cs) = let r = step s c in let rest = run r.0 cs in (rest.0, r.1 ∷ rest.1)

-- The flag and the state agree, and a closed session has given up both halves.
pub record IsConsistent (s : Session) : Type 0 where
  pub flag : (s.state ≡ active) ⊎ (s.is_active ≡ false)
  pub halves : (s.state ≢ closed) ⊎ ((s.read_half ≡ false) × (s.write_half ≡ false))

-- A failed call changes no flag, and a successful one only the time of the last activity (and, for
-- `receive`, the buffer).
send_keeps :
    (s : Session) (m : Message) (now : ℕ → ℕ) (o : WriteOutcome)
    → let q = (send s m now o).1 in
      (q.state ≡ s.state)
      × (q.is_active ≡ s.is_active)
      × (q.read_half ≡ s.read_half)
      × (q.write_half ≡ s.write_half)
unfolding send write update_activity
send_keeps s m now written = ground arith
send_keeps s m now (write_timed_out n) = ground arith
send_keeps s m now (write_failed n text) = ground arith

receive_keeps :
    (s : Session) (now : ℕ → ℕ) (reads : List ReadEvent)
    → let q = (receive s now reads).1 in
      (q.state ≡ s.state)
      × (q.is_active ≡ s.is_active)
      × (q.read_half ≡ s.read_half)
      × (q.write_half ≡ s.write_half)
unfolding receive finish_receive update_activity
receive_keeps s now reads = ground arith

-- The second step of `close` runs only after the first, which clears the flag for good.
abbrev pub Enabled : Session → Call → Type 0
Enabled s finishes = s.is_active ≡ false
Enabled s _ = Unit

-- Every call that may run keeps the session consistent: its flag is down unless its state is active, and
-- when it is closed both halves of the stream are given up.
pub step-IsConsistent :
    (s : Session) (c : Call) → Enabled s c → IsConsistent s → IsConsistent (step s c).0
unfolding step set_inactive begin_close finish_close
step-IsConsistent s (sends m now o) h v = ground (arith, send_keeps s m now o)
step-IsConsistent s (receives now reads) h v = ground (arith, receive_keeps s now reads)
step-IsConsistent s deactivates h v = ground arith
step-IsConsistent s closes h v = ground arith
step-IsConsistent s finishes h v = ground arith

step_silent :
    (s : Session) (c : Call)
    → s.is_active ≡ false
    → ((step s c).0.is_active ≡ false)
      × ((step s c).1 ≡ quiet)
      × ((step s c).0.last_activity ≡ s.last_activity)
      × ((step s c).0.read_buffer ≡ s.read_buffer)
unfolding step message_of set_inactive begin_close finish_close send receive
step_silent s (sends m now o) h = ground arith
step_silent s (receives now reads) h = ground arith
step_silent s deactivates h = ground arith
step_silent s closes h = ground arith
step_silent s finishes h = ground arith

abbrev pub silence : List Call → List Effect
silence [] = []
silence (c ∷ cs) = quiet ∷ silence cs

-- Once `close` has begun, or `set_inactive` was called, the session is dead for good: whatever tasks
-- call on it afterwards, no byte reaches the socket, no message reaches a caller, and neither the
-- buffer nor the time of the last activity moves.
pub run_inactive :
    (s : Session) (cs : List Call)
    → s.is_active ≡ false
    → let r = run s cs in
      (r.0.is_active ≡ false)
      × (r.1 ≡ silence cs)
      × (r.0.last_activity ≡ s.last_activity)
      × (r.0.read_buffer ≡ s.read_buffer)
unfolding run
run_inactive s [] h = (h, refl, refl, refl)
run_inactive s (c ∷ cs) h =
    let (off, still, time, buffer) = step_silent s c h in
    let (off', still', time', buffer') = run_inactive (step s c).0 cs off in
    (off', cc, time' ∙ time, buffer' ∙ buffer)

-- A call of `send` that succeeds found the session active, not idle and open for writing, put exactly
-- the frame of the message on the socket, and changed only the time of the last activity.
pub send_ok :
    (s : Session) (m : Message) (now : ℕ → ℕ) (o : WriteOutcome)
    → (send s m now o).0 ≡ ok tt
    → let r = send s m now o in
      (encode m ≡ ok r.2)
      × (s.is_active ≡ true)
      × (is_idle s (now 0) ≡ false)
      × (s.write_half ≡ true)
      × (r.1 ≡ update_activity s (now 1))
unfolding send write is_idle
send_ok s m now written h = ground arith
send_ok s m now (write_timed_out n) h = ground arith
send_ok s m now (write_failed n text) h = ground arith

-- A call of `send` that fails leaves the session exactly as it was, also if a part of the frame has
-- already reached the socket.
pub send_err :
    (s : Session) (m : Message) (now : ℕ → ℕ) (o : WriteOutcome)
    → (send s m now o).0 ≢ ok tt
    → (send s m now o).1 ≡ s
unfolding send write is_idle
send_err s m now written h = ground arith
send_err s m now (write_timed_out n) h = ground arith
send_err s m now (write_failed n text) h = ground arith
