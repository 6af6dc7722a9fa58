-- ===== src/Session/Stream.antt =====
-- Successive calls of `receive` of src/session/mod.rs on one session, as the session loop of
-- src/core/server.rs makes them: the messages of a byte stream, however the network cuts it.
use rust_network_system.Base.{
  ℕ, zero, suc, ◌+◌, ◌*◌, ◌≤◌, ◌<◌, ◌≡◌, refl, sym, ap, ◌∙◌, true, Option, none, some, ◌-◌, List,
  [], ◌∷◌, ◌++◌, map, append_assoc, arith, length, All, flatten,
}
use rust_network_system.Error.{Result, ok}
use rust_network_system.Message.{Message}
use rust_network_system.Message.Codec.{wire}
use rust_network_system.Message.Stream.{encode_all, encode_all_ok, wires, Fits}
use rust_network_system.Session.Assembly.{ReadEvent, bytes, Received, receive_loop}
use rust_network_system.Session.Delivery.{
  NonEmpty, Timely, Delivered, receive_loop-Delivered, attempt-nil,
}
use rust_network_system.Session.{
  Session, Receipt, is_idle, update_activity, finish_receive, receive,
}

-- `n` calls one after the other; `clocks c` is the clock of the c-th call.
unfoldable pub receive_times :
    (n c : ℕ) → Session → (ℕ → ℕ → ℕ) → List ReadEvent → List (Option (Result Message)) × Session
receive_times zero c s clocks reads = ([], s)
receive_times (suc n) c s clocks reads =
    let r = receive s (clocks c) reads in
    let rest = receive_times n (suc c) r.1 clocks r.2 in (r.0 ∷ rest.0, rest.1)

-- Every reading of the clock falls into the `d` nanoseconds from `t` on.
abbrev pub Within : (t d : ℕ) → (ℕ → ℕ) → Type 0
Within t d now = (i : ℕ) → (t ≤ now i) × (now i < t + d)

-- The session is open for reading, and can neither idle out nor be too slow within that time.
pub record Ready (t d : ℕ) (s : Session) : Type 0 where
  pub active : s.is_active ≡ true
  pub open_half : s.read_half ≡ true
  pub recent : t ≤ s.last_activity
  pub patient : d ≤ s.idle_timeout
  pub unhurried : d ≤ s.read_timeout * 3

pub record Next (t d : ℕ) (m : Message) (rest : List ℕ) (r : Receipt) : Type 0 where
  pub chunks : List (List ℕ)
  pub result : r.0 ≡ some (ok m)
  pub unread : r.2 ≡ map bytes chunks
  pub left : r.1.read_buffer ++ flatten chunks ≡ rest
  pub non_empty : All NonEmpty chunks
  pub ready : Ready t d r.1

abbrev pub run : Session → (ℕ → ℕ) → List ReadEvent → Received
run s now reads = receive_loop (s.read_timeout * 3) (now 1) now 2 s.read_buffer reads

pub receive_runs :
    (t d : ℕ) (s : Session) (now : ℕ → ℕ) (reads : List ReadEvent)
    → Ready t d s
    → Within t d now
    → receive s now reads ≡ finish_receive s now (run s now reads).result (run s now reads)
unfolding receive is_idle
receive_runs t d s now reads ready within = ground (arith, within 0)

finish_receive_ok :
    (s : Session) (now : ℕ → ℕ) (r : Received) (m : Message)
    → r.result ≡ some (ok m)
    → finish_receive s now r.result r ≡ (
      some (ok m),
      update_activity (record s { read_buffer = r.buffer }) (now r.reading),
      r.unread,
    )
unfolding finish_receive
finish_receive_ok s now r m e = ground arith

pub receive-Next :
    (t d : ℕ) (s : Session) (now : ℕ → ℕ) (chunks : List (List ℕ)) (m : Message) (rest : List ℕ)
    → Ready t d s
    → Within t d now
    → Fits m
    → All NonEmpty chunks
    → wire m ++ rest ≡ s.read_buffer ++ flatten chunks
    → Next t d m rest (receive s now (map bytes chunks))
unfolding update_activity
receive-Next t d s now chunks m rest ready within fits ne e =
    rw
      (receive_runs t d s now (map bytes chunks) ready within
        ∙ finish_receive_ok s now r m got.result)
      (record {
        chunks = got.chunks;
        result = refl;
        unread = got.unread;
        left = got.left;
        non_empty = got.non_empty;
        ready = record {
          active = ready.active;
          open_half = ready.open_half;
          recent = (within r.reading).0;
          patient = ready.patient;
          unhurried = ready.unhurried;
        };
      })
  where
    r : Received
    r = run s now (map bytes chunks)

    timely : Timely (s.read_timeout * 3) (now 1) now
    timely i = omega (arith, within i, within 1, ready.unhurried)

    got : Delivered m rest r
    got = receive_loop-Delivered _ (now 1) now m rest fits timely 2 s.read_buffer chunks ne e

-- With nothing buffered and nothing read, the call waits.
pub receive_quiet :
    (t d : ℕ) (s : Session) (now : ℕ → ℕ)
    → Ready t d s
    → Within t d now
    → s.read_buffer ≡ []
    → (receive s now []).0 ≡ none
unfolding finish_receive receive_loop
receive_quiet t d s now ready within empty =
    let quick : now 2 - now 1 < s.read_timeout * 3 =
      omega (arith, within 2, within 1, ready.unhurried) in
    rw
      (
        receive_runs t d s now [] ready within,
        receive_loop,
        empty,
        attempt-nil (s.read_timeout * 3) (now 2 - now 1) quick,
      )
      refl

receive_times-wires :
    (t d : ℕ) (clocks : ℕ → ℕ → ℕ)
    → ((c : ℕ) → Within t d (clocks c))
    → (ms : List Message) (c : ℕ) (s : Session) (chunks : List (List ℕ)) (rest : List ℕ)
    → Ready t d s
    → All Fits ms
    → All NonEmpty chunks
    → wires ms ++ rest ≡ s.read_buffer ++ flatten chunks
    → (receive_times (length ms) c s clocks (map bytes chunks)).0 ≡ map (λ m. some (ok m)) ms
unfolding receive_times
receive_times-wires t d clocks within [] c s chunks rest ready fits ne e = refl
receive_times-wires t d clocks within (m ∷ ms) c s chunks rest ready fits ne e =
    rw (got.result, got.unread)
      (ap (◌∷◌ (some (ok m))) (
        receive_times-wires t d clocks within ms (suc c) _ got.chunks rest got.ready fits.1
          got.non_empty (sym got.left)))
  where
    got : Next t d m (wires ms ++ rest) (receive s (clocks c) (map bytes chunks))
    got =
        receive-Next t d s (clocks c) chunks m (wires ms ++ rest) ready (within c) fits.0 ne
          (sym (append_assoc (wire m) (wires ms) rest) ∙ e)

-- Let a peer encode the messages `ms` one after the other, and let the network deliver the bytes (behind
-- what the session has buffered, and in front of any others) cut into non-empty chunks in any way.
-- If the clock stays within a window that the session's timeouts allow, then one call of `receive` for
-- each message returns exactly the messages that were sent, in order.
pub receive_times_lem :
    (t d : ℕ) (clocks : ℕ → ℕ → ℕ) (ms : List Message) (s : Session) (chunks : List (List ℕ))
    (rest : List ℕ) {w : List ℕ}
    → ((c : ℕ) → Within t d (clocks c))
    → Ready t d s
    → encode_all ms ≡ ok w
    → All NonEmpty chunks
    → w ++ rest ≡ s.read_buffer ++ flatten chunks
    → (receive_times (length ms) 0 s clocks (map bytes chunks)).0 ≡ map (λ m. some (ok m)) ms
receive_times_lem t d clocks ms s chunks rest within ready sent ne e =
    let (fits, same) = encode_all_ok ms sent in
    receive_times-wires t d clocks within ms 0 s chunks rest ready fits ne
      (ap (λ (l : List ℕ). l ++ rest) (sym same) ∙ e)
