-- ===== src/Client/Reads.antt =====
-- `receive` of src/core/client.rs. Its buffer is made anew in each call and dropped at the end of it.
use rust_network_system.Base.{
  ℕ, suc, ◌-◌, ◌*◌, ◌≡◌, refl, sym, ap, ap₂, ◌∙◌, true, not, Option, some, List, [], ◌∷◌, ◌++◌, map,
  flatten, All, arith, length, length-append, if◌then◌else◌,
}
use rust_network_system.Error.{Result, ok, err, invalid_state}
use rust_network_system.Message.{Message, encode}
use rust_network_system.Message.Codec.{wire, encode_ok, length-wire}
use rust_network_system.Message.Stream.{Fits}
use rust_network_system.Session.Assembly.{ReadEvent, bytes, receive_loop, attempt, need_more}
use rust_network_system.Session.Delivery.{
  NonEmpty, Timely, attempt-wire, attempt-nil, receive_loop-Delivered,
}
use rust_network_system.Client.{TcpClient, is_connected}

-- `none` while the call still waits for data. The reads that were not consumed are returned.
unfoldable pub receive :
    TcpClient → (ℕ → ℕ) → List ReadEvent → Option (Result Message) × List ReadEvent
receive c now reads =
    if not (is_connected c.state)
    then (some (err (invalid_state "Client is not connected")), reads)
    else if not c.stream
    then (some (err (invalid_state "No active connection")), reads)
    else (let r = receive_loop (c.config.read_timeout * 3) (now 0) now 1 [] reads in
        (r.result, r.unread))

receive_runs :
    (c : TcpClient) (now : ℕ → ℕ) (reads : List ReadEvent)
    → is_connected c.state ≡ true
    → c.stream ≡ true
    → let r = receive_loop (c.config.read_timeout * 3) (now 0) now 1 [] reads in
      receive c now reads ≡ (r.result, r.unread)
unfolding receive
receive_runs c now reads on up = ground (arith, on, up)

-- On a connected client, the first message that the peer encoded since the last call of `receive` is returned, in whatever
-- chunks it arrives, when the clock stays within three read timeouts. The chunks that are still to
-- be read are a part of the bytes behind that message.
pub receive_first :
    (c : TcpClient) (now : ℕ → ℕ) (m : Message) (rest : List ℕ) (chunks : List (List ℕ))
    {w : List ℕ}
    → is_connected c.state ≡ true
    → c.stream ≡ true
    → Timely (c.config.read_timeout * 3) (now 0) now
    → encode m ≡ ok w
    → All NonEmpty chunks
    → flatten chunks ≡ w ++ rest
    → (lost : List ℕ) × (left : List (List ℕ)) × (receive c now (map bytes chunks)
        ≡ (some (ok m), map bytes left))
      × (lost ++ flatten left ≡ rest)
receive_first c now m rest chunks on up timely sent ne e =
    let (fits, same) = encode_ok m sent in
    let d =
      receive_loop-Delivered _ (now 0) now m rest fits timely 1 [] chunks ne
        (sym (e ∙ ap (λ u. u ++ rest) same)) in
    (
      _,
      d.chunks,
      receive_runs c now (map bytes chunks) on up ∙ ap₂ (λ r u. (r, u)) d.result d.unread,
      d.left,
    )

loop_whole :
    (assembly start : ℕ) (now : ℕ → ℕ) (k : ℕ) (m : Message) (extra : List ℕ)
    (reads : List ReadEvent)
    → Fits m
    → Timely assembly start now
    → receive_loop assembly start now k (wire m ++ extra) reads
      ≡ record { result = some (ok m); buffer = extra; reading = suc k; unread = reads }
unfolding receive_loop
loop_whole assembly start now k m extra [] fits timely =
    rw (attempt-wire assembly (now k - start) m extra (timely k) fits, receive_loop) refl
loop_whole assembly start now k m extra (e ∷ reads) fits timely =
    rw (attempt-wire assembly (now k - start) m extra (timely k) fits, receive_loop) refl

loop_reads :
    (assembly start : ℕ) (now : ℕ → ℕ) (k : ℕ) (buf c : List ℕ) (reads : List ReadEvent)
    → attempt assembly (now k - start) buf ≡ need_more buf
    → NonEmpty c
    → receive_loop assembly start now k buf (bytes c ∷ reads)
      ≡ receive_loop assembly start now (suc k) (buf ++ c) reads
unfolding receive_loop
loop_reads assembly start now k buf [] reads more ne = absurd (ne refl)
loop_reads assembly start now k buf (x ∷ xs) reads more ne = rw (more, receive_loop) refl

wire-append_NonEmpty : (m : Message) (extra : List ℕ) → NonEmpty (wire m ++ extra)
wire-append_NonEmpty m extra e =
    omega (arith, ap length e, length-append (wire m) extra, length-wire m)

loop_one_read :
    (assembly start : ℕ) (now : ℕ → ℕ) (m : Message) (extra : List ℕ) (reads : List ReadEvent)
    → Fits m
    → Timely assembly start now
    → receive_loop assembly start now 1 [] (bytes (wire m ++ extra) ∷ reads)
      ≡ record { result = some (ok m); buffer = extra; reading = 3; unread = reads }
loop_one_read assembly start now m extra reads fits timely =
    loop_reads assembly start now 1 [] (wire m ++ extra) reads
      (attempt-nil assembly (now 1 - start) (timely 1)) (wire-append_NonEmpty m extra)
    ∙ loop_whole assembly start now 2 m extra reads fits timely

-- Let a connected client with a stream receive while the clock stays within three read timeouts.
-- When one read brings a whole frame and more bytes, `receive` returns the message and drops the
-- bytes behind it: they are not among the reads that are left for a later call, also when they are
-- further frames.
pub receive_discards :
    (c : TcpClient) (now : ℕ → ℕ) (m : Message) (extra : List ℕ) (reads : List ReadEvent)
    {w : List ℕ}
    → is_connected c.state ≡ true
    → c.stream ≡ true
    → Timely (c.config.read_timeout * 3) (now 0) now
    → encode m ≡ ok w
    → receive c now (bytes (w ++ extra) ∷ reads) ≡ (some (ok m), reads)
receive_discards c now m extra reads on up timely sent =
    let (fits, same) = encode_ok m sent in
    let r = loop_one_read _ (now 0) now m extra reads fits timely in
    ap (λ u. receive c now (bytes (u ++ extra) ∷ reads)) same
    ∙ receive_runs c now (bytes (wire m ++ extra) ∷ reads) on up
    ∙ ap (λ s. (s.result, s.unread)) r
