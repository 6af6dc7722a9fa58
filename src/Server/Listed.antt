-- ===== src/Server/Listed.antt =====
-- The list of sessions of src/core/server.rs against the tasks, until `stop` clears it.
use rust_network_system.Base.{
  ℕ, zero, suc, ◌≤◌, ◌≡◌, ◌≢◌, ◌⊎◌, inl, inr, refl, sym, ap, ◌∙◌, Bool, true, false, Option, none,
  some, List, [], ◌∷◌, ◌++◌, String, arith,
}
use rust_network_system.Server.{
  ServerConfig, TcpServer, with_config, Phase, spawned, starting, serving, leaving, ended, Task,
  start, launch, accept, take_permit, admit, handle_connection, list_session, unlist_session,
  count_down, signal_stop, joined,
}
use rust_network_system.Server.System.{
  System, initial, Step, starts, accepts, runs, lists, leaves, ends, cancels_new, cancels_serving,
  stops, breaks, joins, clears, takes, ◌⟶*◌, here, next, at, clearing,
}
use rust_network_system.Server.Callbacks.{serves}
use rust_network_system.Server.Weights.{
  weigh, weigh_swap, weigh_last, weigh_has, is_task, serves_as, to_abort, listed, listed_last,
  listed-remove_session, serves_as-le,
}

-- The list has each number as often as a task with it serves. Each number below `next_id` is that of one task at most, and
-- no other is; no task is told to abort, and `stop` has not come to its aborts.
pub record IsListed (s : System) : Type 0 where
  pub same : (i : ℕ) → listed i s.server.sessions ≡ weigh (serves_as i) s.tasks
  pub once : (i : ℕ) → weigh (is_task i) s.tasks ≤ 1
  pub fresh : (i : ℕ) → s.next_id ≤ i → weigh (is_task i) s.tasks ≡ 0
  pub alive : weigh to_abort s.tasks ≡ 0
  pub control : s.control ≢ clearing

launch-sessions : (s : TcpServer) (a b : Option String) → (launch s a b).1.sessions ≡ s.sessions
unfolding launch
launch-sessions s (some text) b = refl
launch-sessions s none (some text) = refl
launch-sessions s none none = refl

start-sessions : (s : TcpServer) (a b : Option String) → (start s a b).1.sessions ≡ s.sessions
unfolding start
start-sessions s a b = ground (arith, launch-sessions s a b)

-- What an accepted stream leaves of the list and the tasks.
abbrev Admitted : ℕ → TcpServer × List Task → TcpServer × List Task → Type 0
Admitted i x y =
    (y.0.sessions ≡ x.0.sessions) × ((y.1 ≡ x.1) ⊎ (y.1 ≡ x.1 ++ (at i false spawned ∷ [])))

accept-Admitted :
    (converts : Bool) (i : ℕ) (s : TcpServer) (ts : List Task)
    → Admitted i (s, ts) (accept converts i (s, ts))
unfolding accept take_permit admit handle_connection
accept-Admitted converts i s ts = permitted s.permits
  where
    admitted :
        (interval : Option ℕ) (converts : Bool) (r : TcpServer)
        → r.sessions ≡ s.sessions
        → Admitted i (s, ts) (admit interval converts i (r, ts))
    admitted none converts r e = (e, inr refl)
    admitted (some t) true r e = (e, inr refl)
    admitted (some t) false r e = (e, inl refl)

    permitted : (p : ℕ) → Admitted i (s, ts) (take_permit p converts i (s, ts))
    permitted zero = (refl, inl refl)
    permitted (suc p) = admitted s.config.keep_alive converts _ refl

-- A task moves to another phase: what is left to show is about the list.
moved-IsListed :
    (s : System) (front back : List Task) (i : ℕ) (b : Bool) (p q : Phase) (server : TcpServer)
    → s.tasks ≡ front ++ (at i b p ∷ back)
    → ((j : ℕ) → listed j server.sessions ≡ weigh (serves_as j) (front ++ (at i b q ∷ back)))
    → IsListed s
    → IsListed (record s { server = server; tasks = front ++ (at i b q ∷ back) })
moved-IsListed s front back i b p q server e same v = record {
  same = same;
  once = λ j.
      omega (arith, v.once j, weigh_swap (is_task j) s.tasks front back (at i b p) (at i b q) e);
  fresh = λ j h.
      omega (arith, v.fresh j h, weigh_swap (is_task j) s.tasks front back (at i b p) (at i b q) e);
  alive = omega (arith, v.alive, weigh_swap to_abort s.tasks front back (at i b p) (at i b q) e);
  control = v.control;
}

-- Between two phases in which it serves no session.
idles-IsListed :
    (s : System) (front back : List Task) (i : ℕ) (b : Bool) (p q : Phase) (server : TcpServer)
    → s.tasks ≡ front ++ (at i b p ∷ back)
    → server.sessions ≡ s.server.sessions
    → serves p ≡ 0
    → serves q ≡ 0
    → IsListed s
    → IsListed (record s { server = server; tasks = front ++ (at i b q ∷ back) })
idles-IsListed s front back i b p q server e kept was is v =
    moved-IsListed s front back i b p q server e
      (λ j. ground (
        arith,
        ap (listed j) kept,
        v.same j,
        weigh_swap (serves_as j) s.tasks front back (at i b p) (at i b q) e,
      ))
      v

lists-IsListed :
    (s : System) (front back : List Task) (i : ℕ) (b : Bool)
    → s.tasks ≡ front ++ (at i b starting ∷ back)
    → IsListed s
    → IsListed
        (record s { server = list_session i s.server; tasks = front ++ (at i b serving ∷ back) })
unfolding list_session serves
lists-IsListed s front back i b e v =
    moved-IsListed s front back i b starting serving (list_session i s.server) e
      (λ j. ground (
        arith,
        listed_last j i s.server.sessions,
        v.same j,
        weigh_swap (serves_as j) s.tasks front back (at i b starting) (at i b serving) e,
      ))
      v

leaves-IsListed :
    (s : System) (front back : List Task) (i : ℕ) (b : Bool)
    → s.tasks ≡ front ++ (at i b serving ∷ back)
    → IsListed s
    → IsListed
        (record s { server = unlist_session i s.server; tasks = front ++ (at i b leaving ∷ back) })
unfolding unlist_session serves
leaves-IsListed s front back i b e v =
    moved-IsListed s front back i b serving leaving (unlist_session i s.server) e
      (λ j. ground (
        arith,
        listed-remove_session j i s.server.sessions,
        v.same j,
        v.once j,
        serves_as-le j s.tasks,
        weigh_swap (serves_as j) s.tasks front back (at i b serving) (at i b leaving) e,
      ))
      v

accepts-IsListed :
    (s : System) (y : TcpServer × List Task)
    → Admitted s.next_id (s.server, s.tasks) y
    → IsListed s
    → IsListed (record s { server = y.0; tasks = y.1; next_id = suc s.next_id })
unfolding serves
accepts-IsListed s y (kept, inl same) v = record {
  same = λ j. ap (listed j) kept ∙ v.same j ∙ ap (weigh (serves_as j)) (sym same);
  once = λ j. omega (arith, v.once j, ap (weigh (is_task j)) same);
  fresh = λ j h. omega (arith, v.fresh j (omega (arith, h)), ap (weigh (is_task j)) same);
  alive = ap (weigh to_abort) same ∙ v.alive;
  control = v.control;
}
accepts-IsListed s y (kept, inr more) v =
    let new = at s.next_id false spawned in
    record {
      same = λ j. ground (
        arith,
        ap (listed j) kept,
        v.same j,
        ap (weigh (serves_as j)) more,
        weigh_last (serves_as j) s.tasks new,
      );
      once = λ j. ground (
        arith,
        v.once j,
        v.fresh s.next_id,
        ap (weigh (is_task j)) more,
        weigh_last (is_task j) s.tasks new,
      );
      fresh = λ j h. ground (
        arith,
        v.fresh j (omega (arith, h)),
        ap (weigh (is_task j)) more,
        weigh_last (is_task j) s.tasks new,
      );
      alive = ap (weigh to_abort) more ∙ omega (arith, v.alive, weigh_last to_abort s.tasks new);
      control = v.control;
    }

-- The step is none by which `stop` clears the list.
abbrev pub NotClears : {s t : System} → Step s t → Type 0
NotClears (clears s h) = ⊥
NotClears (starts s a b h k) = Unit
NotClears _ = Unit

step-IsListed : {s t : System} (st : Step s t) → NotClears st → IsListed s → IsListed t
unfolding serves count_down signal_stop joined
step-IsListed (starts s a b h k) _ v = record {
  same = λ i. ap (listed i) (start-sessions s.server a b) ∙ v.same i;
  once = v.once;
  fresh = v.fresh;
  alive = v.alive;
  control = v.control;
}
step-IsListed (accepts s converts h) _ v =
    accepts-IsListed s _ (accept-Admitted converts s.next_id s.server s.tasks) v
step-IsListed (runs s front back i b h) _ v =
    idles-IsListed s front back i b spawned starting s.server h refl refl refl v
step-IsListed (lists s front back i b h) _ v = lists-IsListed s front back i b h v
step-IsListed (leaves s front back i b h) _ v = leaves-IsListed s front back i b h v
step-IsListed (ends s front back i b h) _ v =
    idles-IsListed s front back i b leaving ended (count_down s.server) h refl refl refl v
step-IsListed (cancels_new s front back i h) _ v =
    absurd (omega (arith, v.alive, weigh_has to_abort s.tasks front back (at i true spawned) h))
step-IsListed (cancels_serving s front back i h) _ v =
    absurd (omega (arith, v.alive, weigh_has to_abort s.tasks front back (at i true serving) h))
step-IsListed (stops s h k) _ v = record {
  same = v.same;
  once = v.once;
  fresh = v.fresh;
  alive = v.alive;
  control = λ e. absurd (cc);
}
step-IsListed (breaks s h k) _ v = record {
  same = v.same;
  once = v.once;
  fresh = v.fresh;
  alive = v.alive;
  control = v.control;
}
step-IsListed (joins s h k) _ v = record {
  same = v.same;
  once = v.once;
  fresh = v.fresh;
  alive = v.alive;
  control = λ e. absurd (cc);
}
step-IsListed (clears s h) never v = absurd never
step-IsListed (takes s h) _ v = absurd (v.control h)

-- In the run, `stop` has not cleared the list.
abbrev pub Uncleared : {s t : System} → s ⟶* t → Type 0
Uncleared here = Unit
Uncleared (next r st) = Uncleared r × NotClears st

run-IsListed : (c : ServerConfig) {s : System} (r : initial c ⟶* s) → Uncleared r → IsListed s
unfolding initial with_config listed weigh
run-IsListed c here _ = record {
  same = λ i. refl;
  once = λ i. omega arith;
  fresh = λ i h. refl;
  alive = refl;
  control = λ e. absurd (cc);
}
run-IsListed c (next r st) (before, now) = step-IsListed st now (run-IsListed c r before)

-- However the tasks of the connections, the accept loop and calls of `stop` interleave, until `stop` clears the list of
-- sessions it has the number of a connection once if a task serves its session, and not at all otherwise; no two
-- tasks have the same number.
pub sessions_listed :
    (c : ServerConfig) {s : System} (r : initial c ⟶* s)
    → Uncleared r
    → (i : ℕ)
    → (listed i s.server.sessions ≡ weigh (serves_as i) s.tasks) × (weigh (is_task i) s.tasks ≤ 1)
sessions_listed c r before i = let v = run-IsListed c r before in (v.same i, v.once i)
