-- ===== src/Server/Sessions.antt =====
-- What src/core/server.rs does with the sessions themselves: the loop that serves one, the cleanup of idle ones,
-- `broadcast`, and the end of the server by a drop.
use rust_network_system.Base.{
  ℕ, zero, suc, ◌≤◌, ◌≡◌, refl, ap, ◌∙◌, false, none, some, List, [], ◌∷◌, ◌++◌, map, arith, length,
  take, drop, All, if◌then◌else◌, flatten,
}
use rust_network_system.Error.{Result, ok, err}
use rust_network_system.Message.{Message}
use rust_network_system.Message.Stream.{encode_all}
use rust_network_system.Session.{
  Session, Receipt, WriteOutcome, is_idle, send, receive, close, set_inactive, begin_close,
  finish_close, new,
}
use rust_network_system.Session.Assembly.{ReadEvent, bytes}
use rust_network_system.Session.Delivery.{NonEmpty}
use rust_network_system.Session.Stream.{receive_times, receive_times_lem, Within, Ready}
use rust_network_system.Server.{ServerConfig, TcpServer, Task, abort_all, take_tasks}

-- The messages that reach the handler, the session, and the reads that are left.
abbrev pub Served : Type 0
Served = List Message × Session × List ReadEvent

unfoldable pub after_receipt : Receipt → (Session → List ReadEvent → Served) → Served
after_receipt (some (ok m), s, reads) again =
    (let (ms, s', reads') = again s reads in (m ∷ ms, s', reads'))
after_receipt (some (err e), s, reads) again = ([], s, reads)
after_receipt (none, s, reads) again = ([], s, reads)

-- The session loop for at most `n` calls of `receive`, the first of which has the number `c`. It ends with the first
-- error, or stands in a call that waits for data.
unfoldable pub serve : (n c : ℕ) → Session → (ℕ → ℕ → ℕ) → List ReadEvent → Served
unfolding after_receipt
serve zero c s clocks reads = ([], s, reads)
serve (suc n) c s clocks reads =
    after_receipt (receive s (clocks c) reads) (λ s' reads'. serve n (suc c) s' clocks reads')

pub after_receipt_ok :
    (r : Receipt) (again : Session → List ReadEvent → Served) (m : Message)
    → r.0 ≡ some (ok m)
    → (after_receipt r again).0 ≡ m ∷ (again r.1 r.2).0
unfolding after_receipt
after_receipt_ok (x, s, reads) again m e = rw (e, after_receipt) refl

-- The session that the task of a connection makes first.
unfoldable pub open_session : ServerConfig → (id peer_addr now : ℕ) → Session
unfolding new
open_session g id peer_addr now = new id peer_addr g.read_timeout g.write_timeout g.idle_timeout now

serve_received :
    (ms : List Message) (n c : ℕ) (s : Session) (clocks : ℕ → ℕ → ℕ) (reads : List ReadEvent)
    → length ms ≤ n
    → (receive_times (length ms) c s clocks reads).0 ≡ map (λ m. some (ok m)) ms
    → take (length ms) (serve n c s clocks reads).0 ≡ ms
unfolding serve receive_times
serve_received [] n c s clocks reads enough e = refl
serve_received (m ∷ ms) zero c s clocks reads enough e = absurd (omega (arith, enough))
serve_received (m ∷ ms) (suc n) c s clocks reads enough e =
    let r = receive s (clocks c) reads in
    let first : r.0 ≡ some (ok m) = cc in
    ap (take (suc (length ms)))
      (after_receipt_ok r (λ s' reads'. serve n (suc c) s' clocks reads') m first)
    ∙ ap (◌∷◌ m)
        (serve_received ms n (suc c) r.1 clocks r.2 (omega (arith, enough)) (ap (drop 1) e))

-- Let a peer send the messages `ms` in frames, behind what the session has buffered and in front of
-- any other bytes, and let the network cut the bytes into non-empty chunks in any way. If the clock
-- stays within a window that the session's timeouts allow, and the loop makes at least as many
-- calls of `receive` as there are messages, then the first messages that the handler of the server
-- gets are exactly those, in order.
pub serve_lem :
    (t d : ℕ) (clocks : ℕ → ℕ → ℕ) (ms : List Message) (n : ℕ) (s : Session)
    (chunks : List (List ℕ)) (rest : List ℕ) {w : List ℕ}
    → ((c : ℕ) → Within t d (clocks c))
    → Ready t d s
    → encode_all ms ≡ ok w
    → All NonEmpty chunks
    → w ++ rest ≡ s.read_buffer ++ flatten chunks
    → length ms ≤ n
    → take (length ms) (serve n 0 s clocks (map bytes chunks)).0 ≡ ms
serve_lem t d clocks ms n s chunks rest within ready sent ne e enough =
    serve_received ms n 0 s clocks (map bytes chunks) enough
      (receive_times_lem t d clocks ms s chunks rest within ready sent ne e)

-- One round of the cleanup task: the sessions that were idle at its start are closed.
unfoldable pub close_idle : ℕ → List Session → List Session
unfolding close begin_close finish_close
close_idle now [] = []
close_idle now (s ∷ ss) = (if is_idle s now then close s else s) ∷ close_idle now ss

-- A session of the snapshot, and what the send to it meets.
pub record Target : Type 0 where
  pub session : Session
  pub now : ℕ → ℕ
  pub outcome : WriteOutcome

-- The result of each send is dropped; the session and the bytes on its socket are returned.
deliver : Message → List Target → List (Session × List ℕ)
deliver m [] = []
deliver m (t ∷ ts) = (let r = send t.session m t.now t.outcome in (r.1, r.2)) ∷ deliver m ts

unfoldable pub broadcast : Message → List Target → Result (Unit {0}) × List (Session × List ℕ)
unfolding deliver
broadcast m ts = (ok tt, deliver m ts)

-- What `drop` does to a server that runs: `stop` without its awaits, and the sessions are marked.
unfoldable pub drop_server :
    TcpServer × List Task → List Session → (TcpServer × List Task) × List Session
unfolding take_tasks abort_all
drop_server (s, ts) sessions =
    if s.running
    then (
      take_tasks (
        record s { shutdown_tx = false; server_task = false; cleanup_task = false; sessions = [] },
        ts,
      ),
      map set_inactive sessions,
    )
    else ((s, ts), sessions)
