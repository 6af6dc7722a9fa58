-- ===== src/Tests/SessionRuns.antt =====
-- src/session/mod.rs on concrete sessions and streams.
use rust_network_system.Base.{ℕ, ◌≡◌, refl, ◌++◌, List, [], ◌∷◌, some, arith, true, inl}
use rust_network_system.Error.{ok, err, timeout}
use rust_network_system.Message.{Message, put_u32, encode, decode}
use rust_network_system.Message.Stream.{encode_all}
use rust_network_system.Session.{
  Session, active, new, is_idle, written, write_timed_out, send, begin_close,
}
use rust_network_system.Session.Assembly.{bytes}
use rust_network_system.Session.Stream.{Ready}
use rust_network_system.Session.Lifecycle
use rust_network_system.Session.Lifecycle.{Call, IsConsistent, quiet, silence}
use rust_network_system.Session.Truncation
use rust_network_system.Session.Truncation.{mixed}

abbrev hi : Message
hi = record { payload = 104 ∷ 105 ∷ [] }

abbrev ok_message : Message
ok_message = record { payload = 79 ∷ 75 ∷ 33 ∷ [] }

-- Opened at time 100, with a read timeout of 10, a write timeout of 5 and an idle timeout of 50.
abbrev opened : Session
opened = record {
  id = 1;
  peer_addr = 2;
  state = active;
  is_active = true;
  read_half = true;
  write_half = true;
  read_timeout = 10;
  write_timeout = 5;
  idle_timeout = 50;
  created_at = 100;
  last_activity = 100;
  read_buffer = [];
}

opened-new : new 1 2 10 5 50 100 ≡ opened
unfolding new
opened-new = refl

-- Two frames in three pieces, and the first byte of a third frame.
abbrev pieces : List (List ℕ)
pieces = (0 ∷ 0 ∷ []) ∷ (0 ∷ 2 ∷ 104 ∷ 105 ∷ 0 ∷ []) ∷ (0 ∷ 0 ∷ 3 ∷ 79 ∷ 75 ∷ 33 ∷ 0 ∷ []) ∷ []

abbrev steady : ℕ → ℕ → ℕ
steady c i = 110

two_frames :
    encode_all (hi ∷ ok_message ∷ [])
    ≡ ok (0 ∷ 0 ∷ 0 ∷ 2 ∷ 104 ∷ 105 ∷ 0 ∷ 0 ∷ 0 ∷ 3 ∷ 79 ∷ 75 ∷ 33 ∷ [])
unfolding encode_all encode
two_frames = refl

opened-Ready : Ready 100 20 opened
opened-Ready = record {
  active = refl;
  open_half = refl;
  recent = omega arith;
  patient = omega arith;
  unhurried = omega arith;
}

opened-IsConsistent : IsConsistent opened
opened-IsConsistent = record { flag = inl refl; halves = inl (λ e. cc) }

step-IsConsistent_example : IsConsistent (Lifecycle.step opened Call.closes).0
step-IsConsistent_example = Lifecycle.step-IsConsistent opened Call.closes tt opened-IsConsistent

abbrev late_calls : List Call
late_calls =
    Call.sends hi (steady 0) written
    ∷ Call.receives (steady 0) (bytes (0 ∷ []) ∷ [])
    ∷ Call.finishes
    ∷ []

abbrev closing_session : Session
closing_session = begin_close opened

-- The peer reads "h" and the first byte of the second header.
send_after_timeout_example :
    let first = send opened hi (steady 0) (write_timed_out 5) in
    let second = send first.1 ok_message (steady 0) written in
    (first.0 ≡ err (timeout "Write timed out"))
    × (second.0 ≡ ok tt)
    × (decode (first.2 ++ second.2) ≡ (
      ok (some (mixed hi 5 (0 ∷ 0 ∷ 0 ∷ 3 ∷ 79 ∷ 75 ∷ 33 ∷ []))),
      0 ∷ 0 ∷ 3 ∷ 79 ∷ 75 ∷ 33 ∷ [],
    ))
unfolding is_idle encode put_u32
send_after_timeout_example =
    Truncation.send_after_timeout opened hi ok_message (steady 0) (steady 0) 5 refl refl refl refl
      refl refl (omega arith) (omega arith) (omega arith)
