-- ===== src/EndToEnd/Metered.antt =====
-- The metrics of a server with the monitored handler of src/integration/monitor.rs, against the bytes that a client of
-- src/core/client.rs sends.
use rust_network_system.Base.{
  ℕ, ◌+◌, ◌*◌, ◌≤◌, ◌≡◌, refl, ap, ◌∙◌, List, [], ◌∷◌, ◌++◌, map, length, All, flatten, inl, inr,
  ◌⊎◌, arith,
}
use rust_network_system.Message.{Message}
use rust_network_system.Session.{Session}
use rust_network_system.Session.Assembly.{ReadEvent, bytes}
use rust_network_system.Session.Delivery.{NonEmpty}
use rust_network_system.Session.Stream.{Within}
use rust_network_system.Server.{ServerConfig}
use rust_network_system.Server.Sessions.{serve, open_session}
use rust_network_system.Client.{TcpClient}
use rust_network_system.Monitor
use rust_network_system.Monitor.{MetricCall, received, on_messages, received_stream}
use rust_network_system.Handlers.{SessionHandler, monitoring, session_task}
use rust_network_system.Handlers.Transparency.{
  own_acts, own_view, own_acts-inr, Looks, see-session_task,
}
use rust_network_system.Handlers.Protocol.{session_loop-serve}
use rust_network_system.EndToEnd.{Post, posted, messages, AllSent, end_to_end, posted-encode_all}

-- The monitored handler without the one inside it.
unfoldable pub metrics_only : SessionHandler MetricCall
metrics_only = record {
  on_connected = λ s. Monitor.on_connected;
  on_message = λ s m. Monitor.on_message m;
  on_disconnected = λ s now. Monitor.on_disconnected;
}

metrics-Looks : {A : Type 0} (h : SessionHandler A) → Looks own_view (monitoring h) metrics_only
unfolding monitoring metrics_only Monitor.on_connected Monitor.on_message Monitor.on_disconnected
metrics-Looks h = record {
  connected = λ s.
      ap (λ (l : List MetricCall). Monitor.on_connected ++ l)
        (own_acts-inr MetricCall (h.on_connected s));
  message = λ s m.
      ap (λ (l : List MetricCall). Monitor.on_message m ++ l)
        (own_acts-inr MetricCall (h.on_message s m));
  disconnected = λ s now.
      ap (λ (l : List MetricCall). Monitor.on_disconnected ++ l)
        (own_acts-inr MetricCall (h.on_disconnected s now));
}

flatten-on_messages : (ms : List Message) → flatten (map Monitor.on_message ms) ≡ on_messages ms
unfolding on_messages
flatten-on_messages [] = refl
flatten-on_messages (m ∷ ms) =
    ap (λ (l : List MetricCall). Monitor.on_message m ++ l) (flatten-on_messages ms)

received_end :
    (ms : List Message) (e : List MetricCall)
    → (e ≡ []) ⊎ (e ≡ Monitor.on_disconnected)
    → received (on_messages ms ++ e) ≡ received (on_messages ms)
unfolding received on_messages Monitor.on_message Monitor.on_disconnected
received_end [] e (inl none_left) = ap received none_left
received_end [] e (inr last) = ap received last
received_end (m ∷ ms) e last = rw (received_end ms e last) refl

-- What the metrics of a connection say of received messages is what they say of those that the session loop receives.
received-serve :
    {A : Type 0} (h : SessionHandler A) (n : ℕ) (s : Session) (clocks : ℕ → ℕ → ℕ)
    (reads : List ReadEvent)
    → received (own_acts (session_task (monitoring h) n s clocks reads))
      ≡ received (on_messages (serve n 0 s clocks reads).0)
unfolding session_task metrics_only Monitor.on_connected received
received-serve h n s clocks reads =
    let ms = (serve n 0 s clocks reads).0 in
    let (e, acts, last) =
      session_loop-serve metrics_only Monitor.on_message Monitor.on_disconnected (λ s m. refl)
        (λ s now. refl) n 0 s clocks reads in
    ap received
      (see-session_task own_view (monitoring h) metrics_only (metrics-Looks h) n s clocks reads)
    ∙ ap received (acts ∙ ap (λ (l : List MetricCall). l ++ e) (flatten-on_messages ms))
    ∙ received_end ms e last

-- Let a client send messages by `send`, each call reporting success, to a connection that a monitored server has opened
-- at the time `at`, let the network cut the bytes into non-empty chunks in any way, let the server's clock
-- stay within `d` nanoseconds from then on, neither more than its idle timeout nor than three times its
-- read timeout, and let its loop make at least one call of `receive` for each message. Then, whatever handler is
-- inside the monitored one, the counter of received messages goes up by the number of messages that the client
-- sent, and the bytes that the client wrote are those that the counter of received bytes goes up by, and
-- 4 for the header of each message.
pub metered_end_to_end :
    {A : Type 0} (h : SessionHandler A) (c : TcpClient) (g : ServerConfig) (id peer_addr at d : ℕ)
    (clocks : ℕ → ℕ → ℕ) (posts : List Post) (n : ℕ) (chunks : List (List ℕ))
    → AllSent c posts
    → d ≤ g.idle_timeout
    → d ≤ g.read_timeout * 3
    → ((i : ℕ) → Within at d (clocks i))
    → All NonEmpty chunks
    → flatten chunks ≡ posted c posts
    → length (messages posts) ≤ n
    → let acts =
        session_task (monitoring h) n (open_session g id peer_addr at) clocks (map bytes chunks) in
      ((received (own_acts acts)).0 ≡ length (messages posts))
      × (length (posted c posts) ≡ (received (own_acts acts)).1 + 4 * length (messages posts))
metered_end_to_end h c g id peer_addr at d clocks posts n chunks sent patient unhurried within ne e
      enough =
    let same =
      received-serve h n (open_session g id peer_addr at) clocks (map bytes chunks)
      ∙ ap (λ ms. received (on_messages ms))
          (end_to_end c g id peer_addr at d clocks posts n chunks sent patient unhurried within ne e
            enough) in
    let (counted, sized) = received_stream (messages posts) (posted-encode_all c posts sent) in
    (ap (λ p. p.0) same ∙ counted, omega (arith, sized, ap (λ p. p.1) same))
