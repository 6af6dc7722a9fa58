-- ===== src/Server.antt =====
-- src/core/server.rs: the server's own state, and what its methods and tasks do to it between two points at
-- which another task can run. A session and the handle of its task are known by one number, the place of the
-- connection in the order in which connections came.
pub mod System
pub mod Counted
pub mod Limit
pub mod Stop
pub mod Leak
pub mod Callbacks
pub mod Weights
pub mod Listed
pub mod Late
pub mod Sessions
pub mod Serving
use rust_network_system.Base.{
  ℕ, zero, suc, ◌+◌, ◌-◌, ◌*◌, Bool, true, false, not, ◌||◌, ◌&&◌, Option, none, some, List, [],
  ◌∷◌, ◌++◌, map, String, ◌==◌, if◌then◌else◌, add_u64, u64_mod,
}
use rust_network_system.Error.{
  NetworkError, Result, ok, err, connection, invalid_state, invalid_address,
}

pub record ServerConfig : Type 0 where
  pub bind_address : String
  pub max_connections : ℕ
  pub read_timeout : ℕ
  pub write_timeout : ℕ
  pub idle_timeout : ℕ
  pub keep_alive : Option ℕ

-- Times are numbers of nanoseconds.
abbrev second : ℕ
second = 1000000000

unfoldable pub default_config : ServerConfig
default_config = record {
  bind_address = "127.0.0.1:8080";
  max_connections = 1000;
  read_timeout = 30 * second;
  write_timeout = 10 * second;
  idle_timeout = 300 * second;
  keep_alive = some (60 * second);
}

unfoldable pub new_config : String → ServerConfig
unfolding default_config
new_config address = record default_config { bind_address = address }

unfoldable pub with_max_connections : ServerConfig → ℕ → ServerConfig
with_max_connections c n = record c { max_connections = n }

unfoldable pub with_read_timeout : ServerConfig → ℕ → ServerConfig
with_read_timeout c t = record c { read_timeout = t }

unfoldable pub with_write_timeout : ServerConfig → ℕ → ServerConfig
with_write_timeout c t = record c { write_timeout = t }

unfoldable pub with_idle_timeout : ServerConfig → ℕ → ServerConfig
with_idle_timeout c t = record c { idle_timeout = t }

unfoldable pub with_keep_alive : ServerConfig → Option ℕ → ServerConfig
with_keep_alive c interval = record c { keep_alive = interval }

-- `permits` is what the semaphore has left. The three at the end are `true` while their `Option` is `Some`.
pub record TcpServer : Type 0 where
  pub config : ServerConfig
  pub running : Bool
  pub connection_count : ℕ
  pub permits : ℕ
  pub sessions : List ℕ
  pub session_tasks : List ℕ
  pub server_task : Bool
  pub cleanup_task : Bool
  pub shutdown_tx : Bool

unfoldable pub with_config : ServerConfig → TcpServer
with_config c = record {
  config = c;
  running = false;
  connection_count = 0;
  permits = c.max_connections;
  sessions = [];
  session_tasks = [];
  server_task = false;
  cleanup_task = false;
  shutdown_tx = false;
}

-- Where the task of a connection stands: spawned and not yet run; run, and its session not yet listed;
-- in the handler or in a read, where it can be aborted; its session off the list, and not yet
-- counted down; at its end; or dropped by an abort.
pub data Phase : Type 0 where
  spawned starting serving leaving ended aborted : Phase

-- `abort` is `true` once the handle's `abort` was called.
pub record Task : Type 0 where
  pub id : ℕ
  pub phase : Phase
  pub abort : Bool

unfoldable pub is_over : Phase → Bool
is_over ended = true
is_over aborted = true
is_over _ = false

unfoldable pub is_unfinished : List Task → ℕ → Bool
is_unfinished [] i = false
is_unfinished (t ∷ ts) i = (t.id == i && not (is_over t.phase)) || is_unfinished ts i

-- `retain` on the list of handles.
unfoldable pub retain_unfinished : List Task → List ℕ → List ℕ
retain_unfinished ts [] = []
retain_unfinished ts (i ∷ is) =
    (let rest = retain_unfinished ts is in if is_unfinished ts i then i ∷ rest else rest)

unfoldable pub fetch_sub : ℕ → ℕ
fetch_sub n = add_u64 n (u64_mod - 1)

-- The errors of the parser of addresses and of the bind; the tasks start as the last act.
launch : TcpServer → Option String → Option String → Result (Unit {0}) × TcpServer
launch s (some text) failure = (err (invalid_address text), s)
launch s none (some text) = (err (connection text), s)
launch s none none = (
  ok tt,
  record s { running = true; server_task = true; cleanup_task = true; shutdown_tx = true },
)

unfoldable pub start :
    TcpServer → (bad_address bind_failure : Option String) → Result (Unit {0}) × TcpServer
unfolding launch
start s bad_address bind_failure =
    if s.running
    then (err (invalid_state "Server is already running"), s)
    else launch s bad_address bind_failure

-- `handle_connection` with the two statements behind it. The task it spawns does not mention `_permit`, so the
-- permit is no part of the task and goes back to the semaphore when `handle_connection` returns.
unfoldable pub handle_connection : ℕ → TcpServer × List Task → TcpServer × List Task
handle_connection i (s, ts) =
    (let ts' = ts ++ (record { id = i; phase = spawned; abort = false } ∷ []) in
      (
        record s {
          permits = s.permits + 1;
          session_tasks = retain_unfinished ts' (s.session_tasks ++ (i ∷ []));
        },
        ts',
      ))

-- The connection count goes down again and the permit back when the stream cannot be converted.
unfoldable pub admit :
    Option ℕ → (converts : Bool) → ℕ → TcpServer × List Task → TcpServer × List Task
unfolding handle_connection fetch_sub
admit none converts i x = handle_connection i x
admit (some interval) true i x = handle_connection i x
admit (some interval) false i (s, ts) =
    (record s { connection_count = fetch_sub s.connection_count; permits = s.permits + 1 }, ts)

-- One accepted stream, from the attempt to take a permit to the next turn of the loop.
take_permit : ℕ → (converts : Bool) → ℕ → TcpServer × List Task → TcpServer × List Task
take_permit zero converts i x = x
take_permit (suc p) converts i (s, ts) =
    admit s.config.keep_alive converts i
      (record s { permits = p; connection_count = add_u64 s.connection_count 1 }, ts)

unfoldable pub accept : (converts : Bool) → ℕ → TcpServer × List Task → TcpServer × List Task
unfolding take_permit admit handle_connection fetch_sub
accept converts i (s, ts) = take_permit s.permits converts i (s, ts)

unfoldable pub remove_session : ℕ → List ℕ → List ℕ
remove_session i [] = []
remove_session i (j ∷ js) = (let rest = remove_session i js in if j == i then rest else (j ∷ rest))

-- The parts of the task of a connection that touch the server.
unfoldable pub list_session : ℕ → TcpServer → TcpServer
list_session i s = record s { sessions = s.sessions ++ (i ∷ []) }

unfoldable pub unlist_session : ℕ → TcpServer → TcpServer
unfolding remove_session
unlist_session i s = record s { sessions = remove_session i s.sessions }

unfoldable pub count_down : TcpServer → TcpServer
unfolding fetch_sub
count_down s = record s { connection_count = fetch_sub s.connection_count }

-- The parts of `stop`, between its awaits.
unfoldable pub signal_stop : TcpServer → TcpServer
signal_stop s = record s { running = false; shutdown_tx = false }

unfoldable pub joined : TcpServer → TcpServer
joined s = record s { server_task = false; cleanup_task = false }

unfoldable pub clear_sessions : TcpServer → TcpServer
clear_sessions s = record s { sessions = [] }

unfoldable pub member : ℕ → List ℕ → Bool
member i [] = false
member i (j ∷ js) = j == i || member i js

-- `abort` on every handle whose task is not finished.
unfoldable pub abort_all : List ℕ → List Task → List Task
unfolding member
abort_all is [] = []
abort_all is (t ∷ ts) =
    record t { abort = t.abort || (member t.id is && not (is_over t.phase)) } ∷ abort_all is ts

unfoldable pub take_tasks : TcpServer × List Task → TcpServer × List Task
unfolding abort_all member
take_tasks (s, ts) =
    (record s { session_tasks = []; running = false }, abort_all s.session_tasks ts)
