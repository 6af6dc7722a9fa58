-- ===== src/Tests/EndToEndRuns.antt =====
-- A client of src/core/client.rs and a server of src/core/server.rs on two messages, with the handlers of
-- src/integration.
use rust_network_system.Base.{ℕ, some, ◌+◌, ◌*◌, ◌≡◌, refl, List, [], ◌∷◌, map, arith, length}
use rust_network_system.Message.{Message, decode, decode_body, from_be_bytes, encode}
use rust_network_system.Error.{ok}
use rust_network_system.Session
use rust_network_system.Session.{Session, written, receive}
use rust_network_system.Session.Assembly.{ReadEvent, bytes, receive_loop, attempt}
use rust_network_system.Server.{default_config}
use rust_network_system.Server.Sessions.{serve, open_session}
use rust_network_system.Client.{
  TcpClient, default_config as client_config, with_config, up, is_connected,
}
use rust_network_system.Client.Writes.{writable, send}
use rust_network_system.ThreadPool.{
  Processor, encryption_processor, encrypt_from, pipeline, key_byte, bit_xor, identity_processor,
  completed,
}
use rust_network_system.ThreadPool.Cipher.{encrypt_twice}
use rust_network_system.ThreadPool.Pipelines.{backwards}
use rust_network_system.Monitor.{received}
use rust_network_system.Handlers.{
  default_session_handler, wrap, monitoring, with_pool, session_task,
}
use rust_network_system.Handlers.Transparency
use rust_network_system.Handlers.Transparency.{inner_acts, own_acts}
use rust_network_system.Handlers.Protocol
use rust_network_system.Handlers.Protocol.{recorder, Call, calls_of}
use rust_network_system.EndToEnd
use rust_network_system.EndToEnd.{Post, posted, AllSent}
use rust_network_system.EndToEnd.Processed
use rust_network_system.EndToEnd.Processed.{handle_all}
use rust_network_system.EndToEnd.Metered
use rust_network_system.EndToEnd.Exchange
use rust_network_system.EndToEnd.Exchange.{Round, replies, AllDelivered, serve_round}
use rust_network_system.Session.Stream.{Ready, receive_times}

abbrev hi : Message
hi = record { payload = 104 ∷ 105 ∷ [] }

abbrev ok_message : Message
ok_message = record { payload = 79 ∷ 75 ∷ 33 ∷ [] }

abbrev client : TcpClient
client = up (with_config "127.0.0.1:8080" client_config)

abbrev posts : List Post
posts =
    record { message = hi; ready = writable; outcome = written }
    ∷ record { message = ok_message; ready = writable; outcome = written }
    ∷ []

-- The two frames in three pieces.
abbrev pieces : List (List ℕ)
pieces = (0 ∷ 0 ∷ []) ∷ (0 ∷ 2 ∷ 104 ∷ 105 ∷ 0 ∷ []) ∷ (0 ∷ 0 ∷ 3 ∷ 79 ∷ 75 ∷ 33 ∷ []) ∷ []

abbrev steady : ℕ → ℕ → ℕ
steady c i = 110

all_sent : AllSent client posts
unfolding send encode with_config is_connected
all_sent = (refl, (refl, tt))

posted_lem : posted client posts ≡ 0 ∷ 0 ∷ 0 ∷ 2 ∷ 104 ∷ 105 ∷ 0 ∷ 0 ∷ 0 ∷ 3 ∷ 79 ∷ 75 ∷ 33 ∷ []
unfolding posted send encode with_config is_connected
posted_lem = refl

end_to_end_example :
    (serve 5 0 (open_session default_config 1 2 100) steady (map bytes pieces)).0
    ≡ hi ∷ ok_message ∷ []
unfolding default_config posted send encode with_config is_connected
end_to_end_example =
    EndToEnd.end_to_end client default_config 1 2 100 20 steady posts 5 pieces all_sent
      (omega arith) (omega arith) (λ i j. (omega arith, omega arith))
      ((λ e. cc), ((λ e. cc), ((λ e. cc), tt))) refl (omega arith)

metered_end_to_end_example :
    let acts =
      session_task
        (monitoring default_session_handler)
        5
        (open_session default_config 1 2 100)
        steady
        (map bytes pieces) in
    ((received (own_acts acts)).0 ≡ length posts)
    × (length (posted client posts) ≡ (received (own_acts acts)).1 + 4 * 2)
unfolding default_config posted send encode with_config is_connected
metered_end_to_end_example =
    Metered.metered_end_to_end default_session_handler client default_config 1 2 100 20 steady posts
      5 pieces all_sent (omega arith) (omega arith) (λ i j. (omega arith, omega arith))
      ((λ e. cc), ((λ e. cc), ((λ e. cc), tt))) refl (omega arith)

abbrev key : List ℕ
key = 1 ∷ 255 ∷ []

abbrev ciphers : List (Processor × Processor)
ciphers = (encryption_processor key, encryption_processor key) ∷ []

-- What the pipeline makes of the message with the bytes 105 and 150 is the first message above.
abbrev plain : List Message
plain = record { payload = 105 ∷ 150 ∷ [] } ∷ record { payload = 78 ∷ 180 ∷ 32 ∷ [] } ∷ []

processed_end_to_end_example :
    handle_all
      (pipeline (backwards ciphers))
      (serve 5 0 (open_session default_config 1 2 100) steady (map bytes pieces)).0
    ≡ plain
unfolding default_config posted send encode with_config is_connected pipeline encryption_processor
    encrypt_from key_byte bit_xor
processed_end_to_end_example =
    Processed.processed_end_to_end ciphers plain client default_config 1 2 100 20 steady posts 5
      pieces ((λ m m'. encrypt_twice key m m'), tt)
      (
        (omega arith, (omega arith, tt)),
        refl,
        ((omega arith, (omega arith, (omega arith, tt))), refl, tt),
      )
      all_sent (omega arith) (omega arith) (λ i j. (omega arith, omega arith))
      ((λ e. cc), ((λ e. cc), ((λ e. cc), tt))) refl (omega arith)

abbrev reads : List ReadEvent
reads = bytes (0 ∷ 0 ∷ 0 ∷ 2 ∷ 104 ∷ 105 ∷ []) ∷ bytes [] ∷ []

abbrev opened : Session
opened = open_session default_config 1 2 100

wrapped_task_example :
    let plain = session_task default_session_handler 5 opened steady reads in
    let logged = session_task (wrap default_session_handler) 5 opened steady reads in
    (inner_acts logged ≡ plain)
    × (own_acts logged ≡ plain)
    × (inner_acts (session_task (monitoring default_session_handler) 5 opened steady reads) ≡ plain)
    × (session_task
          (with_pool identity_processor (λ m. completed) default_session_handler)
          5
          opened
          steady
          reads
        ≡ plain)
wrapped_task_example = Transparency.wrapped_task default_session_handler 5 opened steady reads

session_task_lem_example :
    session_task recorder 5 opened steady reads
    ≡ Call.on_connected ∷ calls_of (receive_times 5 0 opened steady reads).0
session_task_lem_example = Protocol.session_task_lem 5 opened steady reads

-- The message, and the end of the stream.
calls_of-reads :
    calls_of (receive_times 5 0 opened steady reads).0
    ≡ Call.on_message hi ∷ Call.on_disconnected ∷ []
unfolding calls_of receive_times receive receive_loop attempt decode decode_body from_be_bytes
    open_session default_config
calls_of-reads = refl

-- The server answers every message with the second one.
abbrev answer : Message → Message
answer m = ok_message

abbrev round : Round
round = record {
  request = hi;
  ready = writable;
  outcome = written;
  request_chunks = (0 ∷ 0 ∷ []) ∷ (0 ∷ 2 ∷ 104 ∷ 105 ∷ []) ∷ [];
  received_at = steady 0;
  replied_at = steady 1;
  reply_outcome = written;
  reply_chunks = (0 ∷ 0 ∷ 0 ∷ 3 ∷ 79 ∷ []) ∷ (75 ∷ 33 ∷ []) ∷ [];
  read_at = steady 2;
}

opened-Ready : Ready 100 20 opened
unfolding default_config open_session
opened-Ready = record {
  active = refl;
  open_half = refl;
  recent = omega arith;
  patient = omega arith;
  unhurried = omega arith;
}

delivered : AllDelivered 100 20 answer client opened (round ∷ [])
unfolding send encode with_config is_connected default_config client_config serve_round receive
    receive_loop Session.send open_session attempt decode decode_body from_be_bytes
delivered = (
  refl,
  refl,
  ((λ e. cc), ((λ e. cc), tt)),
  (λ i. (omega arith, omega arith)),
  (λ i. (omega arith, omega arith)),
  refl,
  refl,
  ((λ e. cc), ((λ e. cc), tt)),
  (λ i. omega arith),
  tt,
)

replies_lem_example : replies answer client opened (round ∷ []) ≡ some (ok ok_message) ∷ []
unfolding with_config is_connected open_session
replies_lem_example =
    Exchange.replies_lem 100 20 answer client opened (round ∷ []) refl refl opened-Ready refl
      delivered
