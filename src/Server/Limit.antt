-- ===== src/Server/Limit.antt =====
-- The limit of connections of src/core/server.rs.
use rust_network_system.Base.{
  ℕ, zero, suc, ◌+◌, ◌<◌, ◌≡◌, refl, ap, ◌∙◌, Bool, true, false, Option, none, some, List, [], ◌∷◌,
  ◌++◌, arith, add_u64, u64_mod, String, Bool-cases, inl, inr, All, All-append, length,
  length-append,
}
use rust_network_system.Server.{
  ServerConfig, TcpServer, with_config, serving, Task, start, launch, accept, take_permit, admit,
  handle_connection, list_session, unlist_session, count_down, signal_stop, joined, clear_sessions,
  take_tasks,
}
use rust_network_system.Server.System.{
  System, initial, Step, starts, accepts, runs, lists, leaves, ends, cancels_new, cancels_serving,
  stops, breaks, joins, clears, takes, ◌⟶*◌, here, next, at, ready,
}
use rust_network_system.Server.Counted.{uncounted, run-IsCounted, owes}

admit-permits :
    (interval : Option ℕ) (converts : Bool) (i : ℕ) (s : TcpServer) (ts : List Task)
    → (admit interval converts i (s, ts)).0.permits ≡ s.permits + 1
unfolding admit handle_connection
admit-permits none converts i s ts = refl
admit-permits (some t) true i s ts = refl
admit-permits (some t) false i s ts = refl

take_permit-permits :
    (p : ℕ) (converts : Bool) (i : ℕ) (s : TcpServer) (ts : List Task)
    → s.permits ≡ p
    → (take_permit p converts i (s, ts)).0.permits ≡ p
unfolding take_permit
take_permit-permits zero converts i s ts e = e
take_permit-permits (suc p) converts i s ts e = omega (
  arith,
  admit-permits s.config.keep_alive converts i
      (record s { permits = p; connection_count = add_u64 s.connection_count 1 }) ts,
)

launch-permits : (s : TcpServer) (a b : Option String) → (launch s a b).1.permits ≡ s.permits
unfolding launch
launch-permits s (some text) b = refl
launch-permits s none (some text) = refl
launch-permits s none none = refl

start-permits : (s : TcpServer) (a b : Option String) → (start s a b).1.permits ≡ s.permits
unfolding start
start-permits s a b = elim (Bool-cases s.running) [
  | inl on ↦ ground (arith, on)
  | inr off ↦ ground (arith, off, launch-permits s a b)
]

step-permits : {s t : System} → Step s t → t.server.permits ≡ s.server.permits
unfolding accept list_session unlist_session count_down signal_stop joined clear_sessions take_tasks
step-permits (starts s a b h k) = start-permits s.server a b
step-permits (accepts s converts h) =
    take_permit-permits s.server.permits converts s.next_id s.server s.tasks refl
step-permits (runs s front back i b h) = refl
step-permits (lists s front back i b h) = refl
step-permits (leaves s front back i b h) = refl
step-permits (ends s front back i b h) = refl
step-permits (cancels_new s front back i h) = refl
step-permits (cancels_serving s front back i h) = refl
step-permits (stops s h k) = refl
step-permits (breaks s h k) = refl
step-permits (joins s h k) = refl
step-permits (clears s h) = refl
step-permits (takes s h) = refl

-- Between two accepted streams the semaphore has all its permits, however many connections are live.
pub run-permits :
    (c : ServerConfig) {s : System} → initial c ⟶* s → s.server.permits ≡ c.max_connections
unfolding initial with_config
run-permits c here = refl
run-permits c (next r st) = step-permits st ∙ run-permits c r

abbrev pub Serves : Task → Type 0
Serves t = t.phase ≡ serving

abbrev append_run : {s t u : System} → s ⟶* t → t ⟶* u → s ⟶* u
append_run r here = r
append_run r (next q st) = next (append_run r q) st

admit_converted :
    (interval : Option ℕ) (i : ℕ) (x : TcpServer × List Task)
    → admit interval true i x ≡ handle_connection i x
unfolding admit
admit_converted none i x = refl
admit_converted (some t) i x = refl

-- What an accepted stream makes of a server that has a permit.
accept_admits :
    (p i : ℕ) (s : TcpServer) (ts : List Task)
    → s.permits ≡ suc p
    → accept true i (s, ts)
      ≡ handle_connection i
          (record s { permits = p; connection_count = add_u64 s.connection_count 1 }, ts)
unfolding accept take_permit
accept_admits p i s ts e =
    ap (λ n. take_permit n true i (s, ts)) e ∙ admit_converted s.config.keep_alive i _

-- A reachable state of a running server with `n` sessions, each with a task that serves it.
pub record Crowd (c : ServerConfig) (n : ℕ) (s : System) : Type 0 where
  pub run : initial c ⟶* s
  pub accepting : s.accepting ≡ true
  pub running : s.server.running ≡ true
  pub called : s.control ≡ ready
  pub listed : length s.server.sessions ≡ n
  pub tasked : length s.tasks ≡ n
  pub serving : All Serves s.tasks

grow :
    (c : ServerConfig) (n : ℕ) (s : System)
    → 0 < c.max_connections
    → Crowd c n s
    → (t : System) × Crowd c (suc n) t
unfolding list_session handle_connection
grow c n s some_allowed crowd = grow_permit s.server.permits refl
  where
    grow_permit : (p : ℕ) → s.server.permits ≡ p → (t : System) × Crowd c (suc n) t
    grow_permit zero e = absurd (omega (arith, e, run-permits c crowd.run, some_allowed))
    grow_permit (suc p) e =
        let came = accept_admits p s.next_id s.server s.tasks e in
        let listed_last = length-append s.server.sessions (s.next_id ∷ []) in
        let tasked_last = length-append s.tasks (at s.next_id false serving ∷ []) in
        (
          _,
          record {
            run =
                next
                  (next (next crowd.run (accepts s true crowd.accepting))
                    (runs _ s.tasks [] s.next_id false (ap (λ x. x.1) came)))
                  (lists _ s.tasks [] s.next_id false refl);
            accepting = crowd.accepting;
            running = ap (λ x. x.0.running) came ∙ crowd.running;
            called = crowd.called;
            listed =
                ap (λ x. length (x.0.sessions ++ (s.next_id ∷ []))) came
                ∙ omega (arith, listed_last, crowd.listed);
            tasked = omega (arith, tasked_last, crowd.tasked);
            serving =
                All-append Serves s.tasks (at s.next_id false serving ∷ []) crowd.serving
                  (refl, tt);
          },
        )

pub crowded : (c : ServerConfig) (n : ℕ) → 0 < c.max_connections → (s : System) × Crowd c n s
unfolding initial with_config start launch
crowded c zero some_allowed = (
  _,
  record {
    run = next here (starts (initial c) none none refl refl);
    accepting = refl;
    running = refl;
    called = refl;
    listed = refl;
    tasked = refl;
    serving = tt;
  },
)
crowded c (suc n) some_allowed =
    let (s, crowd) = crowded c n some_allowed in grow c n s some_allowed crowd

uncounted-Serves : (ts : List Task) → All Serves ts → uncounted ts ≡ length ts
unfolding uncounted owes
uncounted-Serves [] h = refl
uncounted-Serves (t ∷ ts) (here_serving, h) =
    omega (arith, ap owes here_serving, uncounted-Serves ts h)

pub connection_count-Crowd :
    (c : ServerConfig) (n : ℕ) (s : System)
    → n < u64_mod
    → Crowd c n s
    → s.server.connection_count ≡ n
connection_count-Crowd c n s small crowd =
    omega (arith, run-IsCounted c crowd.run, uncounted-Serves s.tasks crowd.serving, crowd.tasked)

-- `max_connections` does not limit the connections. Unless it is 0, the server reaches, for every
-- number below 2 ^ 64, a state with that many sessions that are all served at once, and its
-- connection count tells that number.
pub limit_exceeded :
    (c : ServerConfig) (n : ℕ)
    → 0 < c.max_connections
    → n < u64_mod
    → (s : System) × (initial c ⟶* s)
      × (length s.server.sessions ≡ n)
      × (length s.tasks ≡ n)
      × All Serves s.tasks
      × (s.server.connection_count ≡ n)
limit_exceeded c n some_allowed small =
    let (s, crowd) = crowded c n some_allowed in
    (
      s,
      crowd.run,
      crowd.listed,
      crowd.tasked,
      crowd.serving,
      connection_count-Crowd c n s small crowd,
    )
