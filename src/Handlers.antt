-- ===== src/Handlers.antt =====
-- The handlers of sessions: `SessionHandler` of src/session/mod.rs with its default, those of src/integration that
-- wrap another one, and the task of src/core/server.rs that calls a handler for one connection.
-- What a handler does is a list of acts of some type, in order; a wrapper adds acts of its own. `now` is the reading of
-- the clock for the uptime. A handler's calls return, and leave the session alone.
pub mod Transparency
pub mod Protocol
pub mod Monitored
use rust_network_system.Base.{
  ℕ, zero, suc, ◌-◌, Option, none, some, List, [], ◌∷◌, ◌++◌, map, ◌⊎◌, inl, inr, flatten, String,
}
use rust_network_system.Error.{Result, ok, err, other}
use rust_network_system.Message.{Message, size}
use rust_network_system.Session.{Session, Receipt, receive, uptime}
use rust_network_system.Session.Assembly.{ReadEvent}
use rust_network_system.ThreadPool
use rust_network_system.ThreadPool.{Processor, Job}
use rust_network_system.Monitor
use rust_network_system.Monitor.{MetricCall}

pub record SessionHandler (A : Type 0) : Type 0 where
  pub on_connected : Session → List A
  pub on_message : Session → Message → List A
  pub on_disconnected : Session → (now : ℕ) → List A

-- A line of the log, with what is formatted into it; a message is displayed by its size.
pub data LogLine : Type 0 where
  connected : (id peer_addr : ℕ) → LogLine
  received : (id bytes : ℕ) → LogLine
  disconnected : (id uptime : ℕ) → LogLine

unfoldable pub default_session_handler : SessionHandler LogLine
unfolding uptime
default_session_handler = record {
  on_connected = λ s. connected s.id s.peer_addr ∷ [];
  on_message = λ s m. received s.id (size m) ∷ [];
  on_disconnected = λ s now. disconnected s.id (uptime s now) ∷ [];
}

module _ {A : Type 0} where
  inner_connected : Option (SessionHandler A) → Session → List A
  inner_connected none s = []
  inner_connected (some h) s = h.on_connected s

  inner_message : Option (SessionHandler A) → Session → Message → List A
  inner_message none s m = []
  inner_message (some h) s m = h.on_message s m

  inner_disconnected : Option (SessionHandler A) → Session → ℕ → List A
  inner_disconnected none s now = []
  inner_disconnected (some h) s now = h.on_disconnected s now

  -- `LoggingSessionHandler` over the handler in its `inner`: each call writes its line first.
  unfoldable pub logging : Option (SessionHandler A) → SessionHandler (LogLine ⊎ A)
  unfolding inner_connected inner_message inner_disconnected uptime
  logging inner = record {
    on_connected = λ s. inl (connected s.id s.peer_addr) ∷ map inr (inner_connected inner s);
    on_message = λ s m. inl (received s.id (size m)) ∷ map inr (inner_message inner s m);
    on_disconnected =
        λ s now. inl (disconnected s.id (uptime s now)) ∷ map inr (inner_disconnected inner s now);
  }

  -- `LoggingSessionHandler::new` and `wrap`.
  unfoldable pub new : SessionHandler (LogLine ⊎ A)
  unfolding logging
  new = logging none

  unfoldable pub wrap : SessionHandler A → SessionHandler (LogLine ⊎ A)
  unfolding logging
  wrap h = logging (some h)

  -- `MonitoringSessionHandler`: each call updates its metrics first.
  unfoldable pub monitoring : SessionHandler A → SessionHandler (MetricCall ⊎ A)
  monitoring h = record {
    on_connected = λ s. map inl Monitor.on_connected ++ map inr (h.on_connected s);
    on_message = λ s m. map inl (Monitor.on_message m) ++ map inr (h.on_message s m);
    on_disconnected = λ s now. map inl Monitor.on_disconnected ++ map inr (h.on_disconnected s now);
  }

  -- `ThreadPoolSessionHandler`; `job` says what the pool does with the job for a message.
  unfoldable pub with_pool : Processor → (job : Message → Job) → SessionHandler A → SessionHandler A
  with_pool p job h = record {
    on_connected = h.on_connected;
    on_message = λ s m. flatten (map (h.on_message s) (ThreadPool.on_message p (job m) m));
    on_disconnected = h.on_disconnected;
  }

  -- `ThreadPoolSessionHandler::new`: the pool may fail to be made, and to start.
  new_pool :
      (create_failure start_failure : Option String)
      → Processor
      → (job : Message → Job) → SessionHandler A
      → Result (SessionHandler A)
  unfolding with_pool
  new_pool (some text) start_failure p job h = err (other text)
  new_pool none (some text) p job h = err (other text)
  new_pool none none p job h = ok (with_pool p job h)

  -- The arms of the session loop.
  unfoldable pub handle_receipt :
      SessionHandler A → (now : ℕ) → Receipt → (Session → List ReadEvent → List A) → List A
  handle_receipt h now (some (ok m), s, reads) again = h.on_message s m ++ again s reads
  handle_receipt h now (some (err e), s, reads) again = h.on_disconnected s now
  handle_receipt h now (none, s, reads) again = []

  -- The session loop for at most `n` calls of `receive`, the first of which has the number `c`, and what follows it.
  -- It stands in a call that waits for data.
  unfoldable pub session_loop :
      SessionHandler A → (n c : ℕ) → Session → (ℕ → ℕ → ℕ) → List ReadEvent → List A
  unfolding handle_receipt
  session_loop h zero c s clocks reads = []
  session_loop h (suc n) c s clocks reads =
      handle_receipt h (clocks (suc c) 0) (receive s (clocks c) reads)
        (λ s' reads'. session_loop h n (suc c) s' clocks reads')

  unfoldable pub session_task :
      SessionHandler A → ℕ → Session → (ℕ → ℕ → ℕ) → List ReadEvent → List A
  unfolding session_loop
  session_task h n s clocks reads = h.on_connected s ++ session_loop h n 0 s clocks reads
