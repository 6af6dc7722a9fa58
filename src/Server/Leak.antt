-- ===== src/Server/Leak.antt =====
-- The connection count of src/core/server.rs after `stop` has aborted the tasks.
use rust_network_system.Base.{
  ℕ, ◌+◌, ◌≤◌, length, ◌<◌, ◌≡◌, refl, sym, ap, ◌∙◌, subst, inl, inr, true, false, List, [], ◌∷◌,
  ◌++◌, arith, append_assoc, append-nil, u64_mod, All, All-zip, All-append,
}
use rust_network_system.Server.{
  ServerConfig, serving, aborted, Task, abort_all, signal_stop, joined, clear_sessions, take_tasks,
  is_over,
}
use rust_network_system.Server.System.{
  System, initial, at, ready, cancels_serving, stops, breaks, joins, clears, takes, ◌⟶*◌, next,
}
use rust_network_system.Server.Limit.{Serves, Crowd, crowded, connection_count-Crowd}
use rust_network_system.Server.Callbacks.{
  callbacks, step_callbacks, connects, disconnects, serving_tasks, serves, callbacks_balance,
}
use rust_network_system.Server.Stop.{Stopped, abort_all-Stopped, run-IsTracked}

abbrev pub IsAborted : Task → Type 0
IsAborted t = t.phase ≡ aborted

-- A task that serves and is told to abort.
abbrev Doomed : Task → Type 0
Doomed t = (t.phase ≡ serving) × (t.abort ≡ true)

cancel_all :
    {r : System} (s : System) (front back : List Task) (run : r ⟶* s)
    → s.tasks ≡ front ++ back
    → All IsAborted front
    → All Doomed back
    → (ts : List Task) × (run' : r ⟶* record s { tasks = ts }) × All IsAborted ts
      × (callbacks run' ≡ callbacks run)
unfolding callbacks step_callbacks
cancel_all s front [] run e over doomed =
    (s.tasks, run, subst (All IsAborted) (sym (e ∙ append-nil front)) over, refl)
cancel_all s front (t ∷ back) run e over ((serves, told), doomed) =
    let same : t ≡ at t.id true serving = cc in
    let (ts, run', ended, calls) =
      cancel_all (record s { tasks = front ++ (at t.id true aborted ∷ back) })
        (front ++ (at t.id true aborted ∷ [])) back
        (next run (cancels_serving s front back t.id (e ∙ ap (λ u. front ++ (u ∷ back)) same)))
        (sym (append_assoc front (at t.id true aborted ∷ []) back))
        (All-append IsAborted front (at t.id true aborted ∷ []) over (refl, tt)) doomed in
    (ts, run', ended, calls ∙ append-nil (callbacks run))

abort_all-Serves : (is : List ℕ) (ts : List Task) → All Serves ts → All Serves (abort_all is ts)
unfolding abort_all
abort_all-Serves is [] h = tt
abort_all-Serves is (t ∷ ts) h = (h.0, abort_all-Serves is ts h.1)

doom : (t : Task) → Serves t → Stopped t → Doomed t
unfolding is_over
doom t serves (inl over) = absurd (ground (arith, serves, over))
doom t serves (inr told) = (serves, told)

-- From a crowd to a state in which `stop` has returned, and no session has called back since.
stop-Crowd :
    (c : ServerConfig) (n : ℕ) (s : System) (crowd : Crowd c n s)
    → (t : System) × (r : initial c ⟶* t) × (t.control ≡ ready)
      × (t.server.running ≡ false)
      × (t.server.sessions ≡ [])
      × All IsAborted t.tasks
      × (t.server.connection_count ≡ s.server.connection_count)
      × (callbacks r ≡ callbacks crowd.run)
unfolding signal_stop joined clear_sessions take_tasks callbacks step_callbacks
stop-Crowd c n s crowd =
    let is = s.server.session_tasks in
    let (ts, run, over, calls) =
      cancel_all _ [] (abort_all is s.tasks)
        (next
          (next
            (next
              (next (next crowd.run (stops s crowd.called crowd.running))
                (breaks _ refl crowd.accepting))
              (joins _ refl refl))
            (clears _ refl))
          (takes _ refl))
        refl tt
        (All-zip (abort_all is s.tasks) doom (abort_all-Serves is s.tasks crowd.serving)
          (abort_all-Stopped is s.tasks (run-IsTracked c crowd.run))) in
    (_, run, refl, refl, refl, over, refl, calls ∙ simp append-nil)

-- The aborted tasks stay counted. Unless `max_connections` is 0, the server reaches, for every
-- number below 2 ^ 64, a state in which `stop` has returned, no session is listed and every task
-- was aborted, and the connection count is that number.
pub stop_leaks :
    (c : ServerConfig) (n : ℕ)
    → 0 < c.max_connections
    → n < u64_mod
    → (s : System) × (initial c ⟶* s)
      × (s.control ≡ ready)
      × (s.server.running ≡ false)
      × (s.server.sessions ≡ [])
      × All IsAborted s.tasks
      × (s.server.connection_count ≡ n)
stop_leaks c n some_allowed small =
    let (s, crowd) = crowded c n some_allowed in
    let (t, run, called, halted, gone, over, kept, calls) = stop-Crowd c n s crowd in
    (t, run, called, halted, gone, over, kept ∙ connection_count-Crowd c n s small crowd)

serving_tasks-Serves : (ts : List Task) → All Serves ts → serving_tasks ts ≡ length ts
unfolding serving_tasks serves
serving_tasks-Serves [] h = refl
serving_tasks-Serves (t ∷ ts) (here_serving, h) =
    omega (arith, ap serves here_serving, serving_tasks-Serves ts h)

-- Nor does an aborted task call `on_disconnected`. Unless `max_connections` is 0, for every number there is a run of the
-- server to a state in which `stop` has returned and every task was aborted, where `on_connected`
-- was called at least that many times more than `on_disconnected`.
pub stop_forgets :
    (c : ServerConfig) (n : ℕ)
    → 0 < c.max_connections
    → (s : System) × (r : initial c ⟶* s) × (s.control ≡ ready)
      × (s.server.sessions ≡ [])
      × All IsAborted s.tasks
      × (disconnects (callbacks r) + n ≤ connects (callbacks r))
stop_forgets c n some_allowed =
    let (s, crowd) = crowded c n some_allowed in
    let (t, run, called, halted, gone, over, kept, calls) = stop-Crowd c n s crowd in
    (
      t,
      run,
      called,
      gone,
      over,
      omega (
        arith,
        ap connects calls,
        ap disconnects calls,
        callbacks_balance c crowd.run,
        serving_tasks-Serves s.tasks crowd.serving,
        crowd.tasked,
      ),
    )
