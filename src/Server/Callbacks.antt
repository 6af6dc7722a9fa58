-- ===== src/Server/Callbacks.antt =====
-- The calls of a handler's `on_connected` and `on_disconnected` that the tasks of src/core/server.rs make. The handler's calls
-- return without waiting, so that a task is in one of them only between two points at which it can be aborted.
use rust_network_system.Base.{
  ℕ, zero, suc, ◌+◌, ◌≡◌, refl, ap, Bool, true, false, Option, none, some, List, [], ◌∷◌, ◌++◌,
  arith,
}
use rust_network_system.Server.{
  ServerConfig, TcpServer, Phase, spawned, starting, serving, leaving, ended, aborted, Task, accept,
  take_permit, admit, handle_connection, abort_all, take_tasks,
}
use rust_network_system.Server.System.{
  System, initial, Step, starts, accepts, runs, lists, leaves, ends, cancels_new, cancels_serving,
  stops, breaks, joins, clears, takes, ◌⟶*◌, here, next, at,
}

pub data Callback : Type 0 where
  on_connected on_disconnected : Callback

-- A task calls `on_connected` when it has listed its session, and `on_disconnected` when its loop has ended.
unfoldable pub step_callbacks : {s t : System} → Step s t → List Callback
step_callbacks (lists s front back i b h) = on_connected ∷ []
step_callbacks (leaves s front back i b h) = on_disconnected ∷ []
step_callbacks _ = []

unfoldable pub callbacks : {s t : System} → s ⟶* t → List Callback
unfolding step_callbacks
callbacks here = []
callbacks (next r st) = callbacks r ++ step_callbacks st

-- How many tasks an abort has ended while they served.
unfoldable pub step_cut : {s t : System} → Step s t → ℕ
step_cut (cancels_serving s front back i h) = 1
step_cut _ = 0

unfoldable pub cut : {s t : System} → s ⟶* t → ℕ
unfolding step_cut
cut here = 0
cut (next r st) = cut r + step_cut st

unfoldable pub serves : Phase → ℕ
serves serving = 1
serves _ = 0

unfoldable pub serving_tasks : List Task → ℕ
unfolding serves
serving_tasks [] = 0
serving_tasks (t ∷ ts) = serves t.phase + serving_tasks ts

unfoldable pub connects : List Callback → ℕ
connects [] = 0
connects (on_connected ∷ calls) = suc (connects calls)
connects (on_disconnected ∷ calls) = connects calls

unfoldable pub disconnects : List Callback → ℕ
disconnects [] = 0
disconnects (on_connected ∷ calls) = disconnects calls
disconnects (on_disconnected ∷ calls) = suc (disconnects calls)

pub connects-append : (xs ys : List Callback) → connects (xs ++ ys) ≡ connects xs + connects ys
unfolding connects
connects-append [] ys = omega arith
connects-append (on_connected ∷ xs) ys = omega (arith, connects-append xs ys)
connects-append (on_disconnected ∷ xs) ys = connects-append xs ys

pub disconnects-append :
    (xs ys : List Callback) → disconnects (xs ++ ys) ≡ disconnects xs + disconnects ys
unfolding disconnects
disconnects-append [] ys = omega arith
disconnects-append (on_connected ∷ xs) ys = disconnects-append xs ys
disconnects-append (on_disconnected ∷ xs) ys = omega (arith, disconnects-append xs ys)

serving_tasks-append :
    (xs ys : List Task) → serving_tasks (xs ++ ys) ≡ serving_tasks xs + serving_tasks ys
unfolding serving_tasks
serving_tasks-append [] ys = omega arith
serving_tasks-append (t ∷ xs) ys = omega (arith, serving_tasks-append xs ys)

-- A task of the list moves from one phase to another.
serving_tasks_swap :
    (ts front back : List Task) (t u : Task)
    → ts ≡ front ++ (t ∷ back)
    → serving_tasks (front ++ (u ∷ back)) + serves t.phase ≡ serving_tasks ts + serves u.phase
unfolding serving_tasks
serving_tasks_swap ts front back t u e = omega (
  arith,
  ap serving_tasks e,
  serving_tasks-append front (t ∷ back),
  serving_tasks-append front (u ∷ back),
)

serving_tasks-abort_all :
    (is : List ℕ) (ts : List Task) → serving_tasks (abort_all is ts) ≡ serving_tasks ts
unfolding serving_tasks abort_all
serving_tasks-abort_all is [] = refl
serving_tasks-abort_all is (t ∷ ts) =
    ap (λ (n : ℕ). serves t.phase + n) (serving_tasks-abort_all is ts)

spawned_serving :
    (i : ℕ) (x : TcpServer × List Task)
    → serving_tasks (handle_connection i x).1 ≡ serving_tasks x.1
unfolding handle_connection serving_tasks
spawned_serving i (s, ts) = omega (arith, serving_tasks-append ts (at i false spawned ∷ []))

accept_serving :
    (converts : Bool) (i : ℕ) (s : TcpServer) (ts : List Task)
    → serving_tasks (accept converts i (s, ts)).1 ≡ serving_tasks ts
unfolding accept take_permit admit
accept_serving converts i s ts = permitted s.permits
  where
    admitted :
        (interval : Option ℕ) (converts : Bool) (r : TcpServer)
        → serving_tasks (admit interval converts i (r, ts)).1 ≡ serving_tasks ts
    admitted none converts r = spawned_serving i (r, ts)
    admitted (some t) true r = spawned_serving i (r, ts)
    admitted (some t) false r = refl

    permitted : (p : ℕ) → serving_tasks (take_permit p converts i (s, ts)).1 ≡ serving_tasks ts
    permitted zero = refl
    permitted (suc p) = admitted s.config.keep_alive converts _

-- The calls of one step balance what it changes in the tasks.
step_balance :
    {s t : System} (st : Step s t)
    → connects (step_callbacks st) + serving_tasks s.tasks
      ≡ disconnects (step_callbacks st) + serving_tasks t.tasks + step_cut st
unfolding step_callbacks step_cut connects disconnects take_tasks serves
step_balance (starts s a b h k) = omega arith
step_balance (accepts s converts h) =
    omega (arith, accept_serving converts s.next_id s.server s.tasks)
step_balance (runs s front back i b h) =
    omega (arith, serving_tasks_swap s.tasks front back (at i b spawned) (at i b starting) h)
step_balance (lists s front back i b h) =
    omega (arith, serving_tasks_swap s.tasks front back (at i b starting) (at i b serving) h)
step_balance (leaves s front back i b h) =
    omega (arith, serving_tasks_swap s.tasks front back (at i b serving) (at i b leaving) h)
step_balance (ends s front back i b h) =
    omega (arith, serving_tasks_swap s.tasks front back (at i b leaving) (at i b ended) h)
step_balance (cancels_new s front back i h) =
    omega (arith, serving_tasks_swap s.tasks front back (at i true spawned) (at i true aborted) h)
step_balance (cancels_serving s front back i h) =
    omega (arith, serving_tasks_swap s.tasks front back (at i true serving) (at i true aborted) h)
step_balance (stops s h k) = omega arith
step_balance (breaks s h k) = omega arith
step_balance (joins s h k) = omega arith
step_balance (clears s h) = omega arith
step_balance (takes s h) = omega (arith, serving_tasks-abort_all s.server.session_tasks s.tasks)

-- In every reachable state, `on_connected` was called once for each task that serves, for each that has left its loop and called
-- `on_disconnected`, and for each that an abort ended while it served.
pub callbacks_balance :
    (c : ServerConfig) {s : System} (r : initial c ⟶* s)
    → connects (callbacks r) ≡ disconnects (callbacks r) + serving_tasks s.tasks + cut r
unfolding callbacks cut connects disconnects initial serving_tasks
callbacks_balance c here = omega arith
callbacks_balance c (next r st) = omega (
  arith,
  callbacks_balance c r,
  step_balance st,
  connects-append (callbacks r) (step_callbacks st),
  disconnects-append (callbacks r) (step_callbacks st),
)
