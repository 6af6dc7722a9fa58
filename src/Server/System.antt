-- ===== src/Server/System.antt =====
-- The server of src/core/server.rs with the tasks of its connections, its accept loop and a call of `stop`.
use rust_network_system.Base.{ℕ, suc, ◌≡◌, Bool, true, false, Option, List, [], ◌∷◌, ◌++◌, String}
use rust_network_system.Error.{ok}
use rust_network_system.Server.{
  ServerConfig, TcpServer, with_config, Phase, spawned, starting, serving, leaving, ended, aborted,
  Task, start, accept, list_session, unlist_session, count_down, signal_stop, joined,
  clear_sessions, take_tasks,
}

-- Where `stop` stands: not called, waiting for the accept loop, closing the sessions, or before the
-- aborts.
pub data Control : Type 0 where
  ready joining closing clearing : Control

-- `accepting` is `true` while the accept loop runs; `next_id` is the number of the next connection.
pub record System : Type 0 where
  pub server : TcpServer
  pub tasks : List Task
  pub accepting : Bool
  pub control : Control
  pub next_id : ℕ

unfoldable pub initial : ServerConfig → System
unfolding with_config
initial c = record {
  server = with_config c;
  tasks = [];
  accepting = false;
  control = ready;
  next_id = 0;
}

abbrev pub at : ℕ → Bool → Phase → Task
at i b p = record { id = i; phase = p; abort = b }

pub data Step : System → System → Type 0 where
  starts :
      (s : System) (bad_address bind_failure : Option String)
      → s.control ≡ ready
      → (start s.server bad_address bind_failure).0 ≡ ok tt
      → Step s (record s { server = (start s.server bad_address bind_failure).1; accepting = true })
  accepts :
      (s : System) (converts : Bool)
      → s.accepting ≡ true
      → Step s (record s {
        server = (accept converts s.next_id (s.server, s.tasks)).0;
        tasks = (accept converts s.next_id (s.server, s.tasks)).1;
        next_id = suc s.next_id;
      })
  runs :
      (s : System) (front back : List Task) (i : ℕ) (b : Bool)
      → s.tasks ≡ front ++ (at i b spawned ∷ back)
      → Step s (record s { tasks = front ++ (at i b starting ∷ back) })
  lists :
      (s : System) (front back : List Task) (i : ℕ) (b : Bool)
      → s.tasks ≡ front ++ (at i b starting ∷ back)
      → Step s
          (record s { server = list_session i s.server; tasks = front ++ (at i b serving ∷ back) })
  leaves :
      (s : System) (front back : List Task) (i : ℕ) (b : Bool)
      → s.tasks ≡ front ++ (at i b serving ∷ back)
      → Step s (record s {
        server = unlist_session i s.server;
        tasks = front ++ (at i b leaving ∷ back);
      })
  ends :
      (s : System) (front back : List Task) (i : ℕ) (b : Bool)
      → s.tasks ≡ front ++ (at i b leaving ∷ back)
      → Step s (record s { server = count_down s.server; tasks = front ++ (at i b ended ∷ back) })
  cancels_new :
      (s : System) (front back : List Task) (i : ℕ)
      → s.tasks ≡ front ++ (at i true spawned ∷ back)
      → Step s (record s { tasks = front ++ (at i true aborted ∷ back) })
  cancels_serving :
      (s : System) (front back : List Task) (i : ℕ)
      → s.tasks ≡ front ++ (at i true serving ∷ back)
      → Step s (record s { tasks = front ++ (at i true aborted ∷ back) })
  stops :
      (s : System)
      → s.control ≡ ready
      → s.server.running ≡ true
      → Step s (record s { server = signal_stop s.server; control = joining })
  breaks :
      (s : System)
      → s.control ≡ joining
      → s.accepting ≡ true
      → Step s (record s { server = record s.server { running = false }; accepting = false })
  joins :
      (s : System)
      → s.control ≡ joining
      → s.accepting ≡ false
      → Step s (record s { server = joined s.server; control = closing })
  clears :
      (s : System)
      → s.control ≡ closing
      → Step s (record s { server = clear_sessions s.server; control = clearing })
  takes :
      (s : System)
      → s.control ≡ clearing
      → Step s (record s {
        server = (take_tasks (s.server, s.tasks)).0;
        tasks = (take_tasks (s.server, s.tasks)).1;
        control = ready;
      })

infix 40 ◌⟶*◌
pub data ◌⟶*◌ (s : System) : System → Type 0 where
  here : s ⟶* s
  next : {t u : System} → s ⟶* t → Step t u → s ⟶* u
