-- ===== src/Monitor/Gauge.antt =====
-- The gauge of active connections and the counter of connections of src/integration/monitor.rs, on a server of
-- src/core/server.rs that runs with the monitored handler.
use rust_network_system.Base.{
  ℕ, suc, ◌+◌, ◌≤◌, ◌<◌, ◌≡◌, refl, sym, ap, ◌∙◌, List, [], ◌∷◌, ◌++◌, arith, All,
}
use rust_network_system.Monitor
use rust_network_system.Monitor.{MetricCall, inc_connections, inc_active, dec_active}
use rust_network_system.Server.{ServerConfig}
use rust_network_system.Server.System.{System, initial, ◌⟶*◌, ready}
use rust_network_system.Server.Callbacks.{
  Callback, on_connected, on_disconnected, callbacks, connects, disconnects, cut, serving_tasks,
  callbacks_balance,
}
use rust_network_system.Server.Leak.{IsAborted, stop_forgets}

-- The calls of the metrics that the calls of the handler make.
unfoldable pub metric_calls : List Callback → List MetricCall
unfolding Monitor.on_connected Monitor.on_disconnected
metric_calls [] = []
metric_calls (on_connected ∷ calls) = Monitor.on_connected ++ metric_calls calls
metric_calls (on_disconnected ∷ calls) = Monitor.on_disconnected ++ metric_calls calls

-- What the calls add up to: connections, increments of the gauge, and decrements of it.
unfoldable pub connections : List MetricCall → ℕ
connections [] = 0
connections (inc_connections ∷ calls) = suc (connections calls)
connections (_ ∷ calls) = connections calls

unfoldable pub increments : List MetricCall → ℕ
increments [] = 0
increments (inc_active ∷ calls) = suc (increments calls)
increments (_ ∷ calls) = increments calls

unfoldable pub decrements : List MetricCall → ℕ
decrements [] = 0
decrements (dec_active ∷ calls) = suc (decrements calls)
decrements (_ ∷ calls) = decrements calls

metric_calls-connects :
    (calls : List Callback)
    → (connections (metric_calls calls) ≡ connects calls)
      × (increments (metric_calls calls) ≡ connects calls)
      × (decrements (metric_calls calls) ≡ disconnects calls)
unfolding metric_calls connections increments decrements connects disconnects
metric_calls-connects [] = (refl, refl, refl)
metric_calls-connects (on_connected ∷ calls) =
    let (total, ups, downs) = metric_calls-connects calls in (ap suc total, ap suc ups, downs)
metric_calls-connects (on_disconnected ∷ calls) =
    let (total, ups, downs) = metric_calls-connects calls in (total, ups, ap suc downs)

-- In every reachable state of a monitored server whose handlers do not wait, the gauge of active connections, which is
-- what its increments exceed its decrements by, is the number of tasks that serve a session and of those that an abort ended
-- while they served. Before any abort it is the number of the former. The counter of connections tells the increments.
pub gauge_balance :
    (c : ServerConfig) {s : System} (r : initial c ⟶* s)
    → let calls = metric_calls (callbacks r) in
      (increments calls ≡ decrements calls + serving_tasks s.tasks + cut r)
      × (connections calls ≡ increments calls)
gauge_balance c r =
    let (total, ups, downs) = metric_calls-connects (callbacks r) in
    (omega (arith, ups, downs, callbacks_balance c r), total ∙ sym ups)

-- The gauge keeps the connections that `stop` aborts. Unless `max_connections` is 0, for every number there is a run of a
-- monitored server, whose handlers do not wait, to a state in which `stop` has returned, no session is
-- listed and every task was aborted, where the gauge is at least that number.
pub gauge_leaks :
    (c : ServerConfig) (n : ℕ)
    → 0 < c.max_connections
    → (s : System) × (r : initial c ⟶* s) × (s.control ≡ ready)
      × (s.server.sessions ≡ [])
      × All IsAborted s.tasks
      × (decrements (metric_calls (callbacks r)) + n ≤ increments (metric_calls (callbacks r)))
gauge_leaks c n some_allowed =
    let (s, r, called, gone, over, more) = stop_forgets c n some_allowed in
    let (total, ups, downs) = metric_calls-connects (callbacks r) in
    (s, r, called, gone, over, omega (arith, ups, downs, more))
