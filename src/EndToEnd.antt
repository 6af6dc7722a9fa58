-- ===== src/EndToEnd.antt =====
-- A client of src/core/client.rs that sends to a server of src/core/server.rs.
pub mod Processed
pub mod Metered
pub mod Exchange
use rust_network_system.Base.{
  ℕ, ◌*◌, ◌≤◌, ◌≡◌, refl, List, [], ◌∷◌, ◌++◌, map, length, All, flatten,
}
use rust_network_system.Error.{ok}
use rust_network_system.Message.{Message, encode}
use rust_network_system.Message.Codec.{wire, encode_ok}
use rust_network_system.Message.Stream.{encode_all}
use rust_network_system.Session.{WriteOutcome}
use rust_network_system.Session.Assembly.{bytes}
use rust_network_system.Session.Delivery.{NonEmpty}
use rust_network_system.Session.Stream.{Within}
use rust_network_system.Server.{ServerConfig}
use rust_network_system.Server.Sessions.{serve, open_session}
use rust_network_system.Server.Serving.{serve-open_session}
use rust_network_system.Client.{TcpClient}
use rust_network_system.Client.Writes.{Readiness, send, send-whole, would_block}

-- A message that the client sends, and what the socket does.
pub record Post : Type 0 where
  pub message : Message
  pub ready : Readiness
  pub outcome : WriteOutcome

-- The bytes that the calls of `send` put on the socket.
unfoldable pub posted : TcpClient → List Post → List ℕ
posted c [] = []
posted c (p ∷ ps) = (send c p.message p.ready p.outcome).1 ++ posted c ps

abbrev pub messages : List Post → List Message
messages [] = []
messages (p ∷ ps) = p.message ∷ messages ps

-- Every `send` reports success.
abbrev pub AllSent : TcpClient → List Post → Type 0
AllSent c [] = Unit
AllSent c (p ∷ ps) = ((send c p.message p.ready p.outcome).0 ≡ ok tt) × AllSent c ps

pub posted-encode_all :
    (c : TcpClient) (ps : List Post) → AllSent c ps → encode_all (messages ps) ≡ ok (posted c ps)
unfolding posted encode_all
posted-encode_all c [] sent = refl
posted-encode_all c (p ∷ ps) sent =
    let (on, first) = (send-whole c p.message p.ready would_block p.outcome).0 sent.0 in
    rw (first, posted-encode_all c ps sent.1) refl

-- Let a client send messages by `send`, each call reporting success, and let the network deliver the bytes that
-- these calls wrote, cut into non-empty chunks in any way, to a connection that the server has opened at the time
-- `at`. If the server's clock stays within `d` nanoseconds from then on, where `d` is neither more than its idle
-- timeout nor than three times its read timeout, and its loop makes at least as many calls of `receive` as there
-- are messages, then the server's handler gets exactly the messages that were sent, in order and no others.
pub end_to_end :
    (c : TcpClient) (g : ServerConfig) (id peer_addr at d : ℕ) (clocks : ℕ → ℕ → ℕ)
    (posts : List Post) (n : ℕ) (chunks : List (List ℕ))
    → AllSent c posts
    → d ≤ g.idle_timeout
    → d ≤ g.read_timeout * 3
    → ((i : ℕ) → Within at d (clocks i))
    → All NonEmpty chunks
    → flatten chunks ≡ posted c posts
    → length (messages posts) ≤ n
    → (serve n 0 (open_session g id peer_addr at) clocks (map bytes chunks)).0 ≡ messages posts
end_to_end c g id peer_addr at d clocks posts n chunks sent patient unhurried within ne e enough =
    serve-open_session g id peer_addr at d clocks (messages posts) n chunks patient unhurried within
      (posted-encode_all c posts sent) ne e enough
