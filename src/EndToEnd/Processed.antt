-- ===== src/EndToEnd/Processed.antt =====
-- A client that puts its messages through processors of src/integration/thread_pool.rs before it sends them,
-- and a server whose handler is the one of that file, over the processors that undo these.
use rust_network_system.Base.{
  ℕ, ◌*◌, ◌≤◌, ◌≡◌, refl, ap, ◌∙◌, List, [], ◌∷◌, ◌++◌, map, length, All, flatten,
}
use rust_network_system.Error.{ok}
use rust_network_system.Message.{Message}
use rust_network_system.Session.Assembly.{bytes}
use rust_network_system.Session.Delivery.{NonEmpty}
use rust_network_system.Session.Stream.{Within}
use rust_network_system.Server.{ServerConfig}
use rust_network_system.Server.Sessions.{serve, open_session}
use rust_network_system.Client.{TcpClient}
use rust_network_system.ThreadPool.{Processor, pipeline, on_message, passed_on, completed}
use rust_network_system.ThreadPool.Cipher.{IsBytes}
use rust_network_system.ThreadPool.Pipelines.{Undoes, backwards, forwards, pipeline-backwards}
use rust_network_system.EndToEnd.{Post, posted, messages, AllSent, end_to_end}

-- The calls of `on_message` of the inner handler for messages that come one after the other, where the
-- pool finishes every job.
unfoldable pub handle_all : Processor → List Message → List Message
handle_all p [] = []
handle_all p (m ∷ ms) = on_message p completed m ++ handle_all p ms

-- Every message of the first list is one of bytes, and the processor makes of it that of the second.
abbrev pub AllProcessed : Processor → List Message → List Message → Type 0
AllProcessed p [] [] = Unit
AllProcessed p [] (m' ∷ ms') = ⊥
AllProcessed p (m ∷ ms) [] = ⊥
AllProcessed p (m ∷ ms) (m' ∷ ms') = IsBytes m × (p m ≡ ok m') × AllProcessed p ms ms'

handle_all-backwards :
    (ps : List (Processor × Processor)) (ms ms' : List Message)
    → All (λ x. Undoes x.0 x.1) ps
    → AllProcessed (pipeline (forwards ps)) ms ms'
    → handle_all (pipeline (backwards ps)) ms' ≡ ms
unfolding handle_all on_message
handle_all-backwards ps [] [] undo h = refl
handle_all-backwards ps [] (m' ∷ ms') undo h = absurd h
handle_all-backwards ps (m ∷ ms) [] undo h = absurd h
handle_all-backwards ps (m ∷ ms) (m' ∷ ms') undo h =
    let (clean, back) = pipeline-backwards ps m m' undo h.0 h.1 in
    rw (back, passed_on) (ap (◌∷◌ m) (handle_all-backwards ps ms ms' undo h.2))

-- Let each processor of a pipeline have one that undoes it, and let the pipeline turn the messages `ms` of bytes into
-- those of `posts`, which a client sends by `send`, each call reporting success. Let the network deliver the bytes,
-- cut into non-empty chunks in any way, to a connection that the server has opened at the time `at`, let the server's
-- clock stay within `d` nanoseconds from then on, neither more than its idle timeout nor than three times its
-- read timeout, and let its loop make at least one call of `receive` for each message. Then a handler that runs the
-- pipeline of the undoing processors, in the reverse order, on a pool that finishes every job
-- passes exactly the messages `ms` on to the inner handler, in order.
pub processed_end_to_end :
    (ps : List (Processor × Processor)) (ms : List Message) (c : TcpClient) (g : ServerConfig)
    (id peer_addr at d : ℕ) (clocks : ℕ → ℕ → ℕ) (posts : List Post) (n : ℕ)
    (chunks : List (List ℕ))
    → All (λ x. Undoes x.0 x.1) ps
    → AllProcessed (pipeline (forwards ps)) ms (messages posts)
    → AllSent c posts
    → d ≤ g.idle_timeout
    → d ≤ g.read_timeout * 3
    → ((i : ℕ) → Within at d (clocks i))
    → All NonEmpty chunks
    → flatten chunks ≡ posted c posts
    → length (messages posts) ≤ n
    → handle_all
        (pipeline (backwards ps))
        (serve n 0 (open_session g id peer_addr at) clocks (map bytes chunks)).0
      ≡ ms
processed_end_to_end ps ms c g id peer_addr at d clocks posts n chunks undo made sent patient
      unhurried within ne e enough =
    ap (handle_all (pipeline (backwards ps))) (
      end_to_end c g id peer_addr at d clocks posts n chunks sent patient unhurried within ne e
        enough)
    ∙ handle_all-backwards ps ms (messages posts) undo made
