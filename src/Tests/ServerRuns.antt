-- ===== src/Tests/ServerRuns.antt =====
-- src/core/server.rs on a small server.
use rust_network_system.Base.{
  ℕ, suc, ◌+◌, ◌≡◌, ◌≤◌, ◌<◌, ◌%◌, refl, List, [], ◌∷◌, arith, none, some, true, false, map, take,
  length, All, u64_mod,
}
use rust_network_system.Server.{
  ServerConfig, new_config, default_config, with_max_connections, with_keep_alive, with_config,
  start, accept, admit, handle_connection, take_tasks, retain_unfinished, is_unfinished, is_over,
  serving, list_session, signal_stop, joined, clear_sessions,
}
use rust_network_system.Server.System.{
  System, initial, starts, accepts, runs, lists, stops, breaks, joins, clears, ◌⟶*◌, here, next, at,
  ready, clearing,
}
use rust_network_system.Server.Counted
use rust_network_system.Server.Counted.{uncounted}
use rust_network_system.Server.Limit
use rust_network_system.Server.Limit.{Serves}
use rust_network_system.Server.Stop
use rust_network_system.Server.Stop.{Stopped}
use rust_network_system.Server.Listed
use rust_network_system.Server.Weights.{listed, weigh, serves_as, is_task}
use rust_network_system.Server.Callbacks.{callbacks, cut, serving_tasks}
use rust_network_system.Monitor.Gauge
use rust_network_system.Monitor.Gauge.{metric_calls, increments, decrements, connections}

-- At most one connection, without keep-alive.
abbrev small : ServerConfig
small = with_keep_alive (with_max_connections (new_config "127.0.0.1:0") 1) none

abbrev one : System
one = record {
  server = record {
    config = small;
    running = true;
    connection_count = 1;
    permits = 1;
    sessions = 0 ∷ [];
    session_tasks = 0 ∷ [];
    server_task = true;
    cleanup_task = true;
    shutdown_tx = true;
  };
  tasks = at 0 false serving ∷ [];
  accepting = true;
  control = ready;
  next_id = 1;
}

-- The server starts, accepts a connection, and its task lists the session.
one_run : initial small ⟶* one
unfolding initial with_config new_config default_config with_max_connections with_keep_alive start
    accept admit handle_connection retain_unfinished is_unfinished is_over list_session
    rust_network_system.Base.add_u64
one_run =
    next
      (next (next (next here (starts (initial small) none none refl refl)) (accepts _ true refl))
        (runs _ [] [] 0 false refl))
      (lists _ [] [] 0 false refl)

abbrev one_clearing : System
one_clearing = record one {
  server = clear_sessions (joined (record (signal_stop one.server) { running = false }));
  accepting = false;
  control = clearing;
}

one_clearing_run : initial small ⟶* one_clearing
one_clearing_run =
    next (next (next (next one_run (stops one refl refl)) (breaks _ refl refl)) (joins _ refl refl))
      (clears _ refl)

run-IsCounted_example : one.server.connection_count ≡ uncounted one.tasks % u64_mod
run-IsCounted_example = Counted.run-IsCounted small one_run

limit_exceeded_example :
    (s : System) × (initial small ⟶* s)
    × (length s.server.sessions ≡ 7)
    × (length s.tasks ≡ 7)
    × All Serves s.tasks
    × (s.server.connection_count ≡ 7)
unfolding new_config with_max_connections with_keep_alive
limit_exceeded_example = Limit.limit_exceeded small 7 (omega arith) (omega arith)

stop_reaches_all_example : All Stopped (take_tasks (one_clearing.server, one_clearing.tasks)).1
stop_reaches_all_example = Stop.stop_reaches_all small one_clearing_run refl

gauge_balance_example :
    let calls = metric_calls (callbacks one_run) in
    (increments calls ≡ decrements calls + serving_tasks one.tasks + cut one_run)
    × (connections calls ≡ increments calls)
gauge_balance_example = Gauge.gauge_balance small one_run

sessions_listed_example :
    (listed 0 one.server.sessions ≡ weigh (serves_as 0) one.tasks)
    × (weigh (is_task 0) one.tasks ≤ 1)
unfolding one_run
sessions_listed_example = Listed.sessions_listed small one_run ((((tt, tt), tt), tt), tt) 0
