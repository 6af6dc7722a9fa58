-- ===== src/EndToEnd/Exchange.antt =====
-- A client of src/core/client.rs that sends a request, waits for the reply, and goes on, with a server of
-- src/core/server.rs whose handler answers each message on its session.
use rust_network_system.Base.{
  ℕ, ◌*◌, ◌≡◌, refl, sym, ap, ap₂, ◌∙◌, subst, true, Option, none, some, List, [], ◌∷◌, ◌++◌, map,
  length, All, flatten, arith, append-nil,
}
use rust_network_system.Error.{Result, ok, err}
use rust_network_system.Message.{Message, encode}
use rust_network_system.Message.Codec.{encode_ok}
use rust_network_system.Session.{
  Session, Receipt, WriteOutcome, receive, written, write_timed_out, write_failed, write,
}
use rust_network_system.Session
use rust_network_system.Session.Assembly.{bytes}
use rust_network_system.Session.Delivery.{NonEmpty, Timely}
use rust_network_system.Session.Stream.{Within, Ready, receive-Next}
use rust_network_system.Client.{TcpClient, is_connected}
use rust_network_system.Client.Writes.{Readiness, send, send-whole, would_block}
use rust_network_system.Client.Reads
use rust_network_system.Client.Reads.{receive_first}

-- One request with its reply: what the sockets and the clocks do, and how the network cuts the bytes.
pub record Round : Type 0 where
  pub request : Message
  pub ready : Readiness
  pub outcome : WriteOutcome
  pub request_chunks : List (List ℕ)
  pub received_at : ℕ → ℕ
  pub replied_at : ℕ → ℕ
  pub reply_outcome : WriteOutcome
  pub reply_chunks : List (List ℕ)
  pub read_at : ℕ → ℕ

-- The handler sends what `f` makes of the message on the session.
unfoldable pub reply : (Message → Message) → Round → Receipt → Session.Sent
reply f r (some (ok m), s, reads) = Session.send s (f m) r.replied_at r.reply_outcome
reply f r (some (err e), s, reads) = (err e, s, [])
reply f r (none, s, reads) = (ok tt, s, [])

-- What the server does in a round: its session receives the request and answers.
unfoldable pub serve_round : (Message → Message) → Session → Round → Session.Sent
unfolding reply
serve_round f s r = reply f r (receive s r.received_at (map bytes r.request_chunks))

-- What the client receives, round by round.
unfoldable pub replies :
    (Message → Message) → TcpClient → Session → List Round → List (Option (Result Message))
replies f c s [] = []
replies f c s (r ∷ rs) =
    (Reads.receive c r.read_at (map bytes r.reply_chunks)).0 ∷ replies f c (serve_round f s r).1 rs

-- Both sends of each round report success, the network delivers what they wrote, cut into non-empty chunks, and the clocks
-- stay within the timeouts.
abbrev pub AllDelivered :
    (t d : ℕ) → (Message → Message) → TcpClient → Session → List Round → Type 0
AllDelivered t d f c s [] = Unit
AllDelivered t d f c s (r ∷ rs) =
    ((send c r.request r.ready r.outcome).0 ≡ ok tt)
    × (flatten r.request_chunks ≡ (send c r.request r.ready r.outcome).1)
    × All NonEmpty r.request_chunks
    × Within t d r.received_at
    × Within t d r.replied_at
    × ((serve_round f s r).0 ≡ ok tt)
    × (flatten r.reply_chunks ≡ (serve_round f s r).2)
    × All NonEmpty r.reply_chunks
    × Timely (c.config.read_timeout * 3) (r.read_at 0) r.read_at
    × AllDelivered t d f c (serve_round f s r).1 rs

write_ok :
    (s : Session) (now : ℕ → ℕ) (w : List ℕ) (o : WriteOutcome)
    → (write s now w o).0 ≡ ok tt
    → write s now w o ≡ (ok tt, record s { last_activity = now 1 }, w)
unfolding write
write_ok s now w written e = refl
write_ok s now w (write_timed_out n) e = absurd (cc)
write_ok s now w (write_failed n text) e = absurd (cc)

-- A `send` of a session that succeeds puts the frame on the socket, and only updates the activity.
pub send_ok :
    (s : Session) (m : Message) (now : ℕ → ℕ) (o : WriteOutcome)
    → (Session.send s m now o).0 ≡ ok tt
    → (encode m ≡ ok (Session.send s m now o).2)
      × ((Session.send s m now o).1 ≡ record s { last_activity = now 1 })
unfolding Session.send
send_ok s m now o = encoded (encode m) refl
  where
    encoded :
        (r : Result (List ℕ))
        → encode m ≡ r
        → (Session.send s m now o).0 ≡ ok tt
        → (encode m ≡ ok (Session.send s m now o).2)
          × ((Session.send s m now o).1 ≡ record s { last_activity = now 1 })
    encoded (err x) e h = absurd (ground (arith, e, h))
    encoded (ok w) e h = ground (arith, e, h, write_ok s now w o)

reply_ok :
    (f : Message → Message) (r : Round) (got : Receipt) (m : Message)
    → got.0 ≡ some (ok m)
    → reply f r got ≡ Session.send got.1 (f m) r.replied_at r.reply_outcome
unfolding reply
reply_ok f r (x, s, reads) m e = rw (e, reply) refl

-- Nothing is left over when the bytes of one frame have been read.
nothing_left :
    (buf : List ℕ) (chunks : List (List ℕ))
    → All NonEmpty chunks
    → buf ++ flatten chunks ≡ []
    → (buf ≡ []) × (chunks ≡ [])
nothing_left [] [] ne e = (refl, refl)
nothing_left [] ([] ∷ chunks) ne e = absurd (ne.0 refl)
nothing_left [] ((x ∷ c) ∷ chunks) ne e = absurd (omega (arith, ap length e))
nothing_left (x ∷ buf) chunks ne e = absurd (omega (arith, ap length e))

-- The server's side of a round: it sends the message, and the session is ready for the next one.
pub record Served (t d : ℕ) (m : Message) (x : Session.Sent) : Type 0 where
  pub sent : encode m ≡ ok x.2
  pub ready : Ready t d x.1
  pub drained : x.1.read_buffer ≡ []

serve_round-Served :
    (t d : ℕ) (f : Message → Message) (s : Session) (r : Round) {w : List ℕ}
    → Ready t d s
    → s.read_buffer ≡ []
    → Within t d r.received_at
    → Within t d r.replied_at
    → encode r.request ≡ ok w
    → flatten r.request_chunks ≡ w
    → All NonEmpty r.request_chunks
    → (serve_round f s r).0 ≡ ok tt
    → Served t d (f r.request) (serve_round f s r)
unfolding serve_round
serve_round-Served t d f s r ready empty within within' sent same ne done =
    let (fits, framed) = encode_ok r.request sent in
    let got = receive-Next t d s r.received_at r.request_chunks r.request [] ready within fits ne (
      append-nil _
      ∙ sym framed
      ∙ sym same
      ∙ ap (λ (b : List ℕ). b ++ flatten r.request_chunks) (sym empty)) in
    let answered =
      reply_ok f r (receive s r.received_at (map bytes r.request_chunks)) r.request got.result in
    let (framed', kept) =
      send_ok _ (f r.request) r.replied_at r.reply_outcome (ap (λ x. x.0) (sym answered) ∙ done) in
    let left = nothing_left _ got.chunks got.non_empty got.left in
    subst (Served t d (f r.request)) (sym answered) (record {
      sent = framed';
      ready = rw kept (record {
        active = got.ready.active;
        open_half = got.ready.open_half;
        recent = (within' 1).0;
        patient = got.ready.patient;
        unhurried = got.ready.unhurried;
      });
      drained = rw kept left.0;
    })

-- Let a connected client with a stream and a session of the server that is ready and has nothing buffered go through
-- rounds in which the client sends a request and the handler answers it on the session with what `f` makes of it. If both
-- sends of each round report success, the network delivers their bytes cut into non-empty chunks in any
-- way, and the clocks stay within the timeouts, then what the client receives is, round by round,
-- exactly what `f` makes of the request.
pub replies_lem :
    (t d : ℕ) (f : Message → Message) (c : TcpClient) (s : Session) (rounds : List Round)
    → is_connected c.state ≡ true
    → c.stream ≡ true
    → Ready t d s
    → s.read_buffer ≡ []
    → AllDelivered t d f c s rounds
    → replies f c s rounds ≡ map (λ r. some (ok (f r.request))) rounds
unfolding replies
replies_lem t d f c s [] on up ready empty h = refl
replies_lem t d f c s (r ∷ rs) on up ready empty
      (asked, same, ne, within, within', done, same', ne', timely, later) =
    let (was_on, framed) = (send-whole c r.request r.ready would_block r.outcome).0 asked in
    let served = serve_round-Served t d f s r ready empty within within' framed same ne done in
    let (lost, left, got, rest) =
      receive_first c r.read_at (f r.request) [] r.reply_chunks on up timely served.sent ne'
        (same' ∙ sym (append-nil _)) in
    ap₂ ◌∷◌ (ap (λ x. x.0) got)
      (replies_lem t d f c (serve_round f s r).1 rs on up served.ready served.drained later)
