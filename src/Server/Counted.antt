-- ===== src/Server/Counted.antt =====
-- The count of connections of src/core/server.rs against the tasks.
use rust_network_system.Base.{
  ℕ, zero, suc, ◌+◌, ◌%◌, ◌≡◌, refl, sym, ap, ◌∙◌, Bool, true, false, Option, none, some, List, [],
  ◌∷◌, ◌++◌, arith, add_u64, u64_mod, String, Bool-cases, inl, inr,
}
use rust_network_system.Server.{
  ServerConfig, TcpServer, with_config, Phase, spawned, starting, serving, leaving, ended, aborted,
  Task, start, launch, accept, take_permit, admit, handle_connection, list_session, unlist_session,
  fetch_sub, count_down, signal_stop, joined, clear_sessions, take_tasks, abort_all,
}
use rust_network_system.Server.System.{
  System, initial, Step, starts, accepts, runs, lists, leaves, ends, cancels_new, cancels_serving,
  stops, breaks, joins, clears, takes, ◌⟶*◌, here, next, at,
}

-- A task that has not counted itself down: it is not at its end, or it was aborted before.
unfoldable pub owes : Phase → ℕ
owes ended = 0
owes _ = 1

unfoldable pub uncounted : List Task → ℕ
uncounted [] = 0
uncounted (t ∷ ts) = owes t.phase + uncounted ts

pub uncounted-append : (xs ys : List Task) → uncounted (xs ++ ys) ≡ uncounted xs + uncounted ys
unfolding uncounted
uncounted-append [] ys = omega arith
uncounted-append (t ∷ xs) ys = omega (arith, uncounted-append xs ys)

pub uncounted_swap :
    (front back : List Task) (t u : Task)
    → uncounted (front ++ (u ∷ back)) + owes t.phase
      ≡ uncounted (front ++ (t ∷ back)) + owes u.phase
unfolding uncounted
uncounted_swap front back t u =
    omega (arith, uncounted-append front (t ∷ back), uncounted-append front (u ∷ back))

uncounted-abort_all : (is : List ℕ) (ts : List Task) → uncounted (abort_all is ts) ≡ uncounted ts
unfolding uncounted abort_all
uncounted-abort_all is [] = refl
uncounted-abort_all is (t ∷ ts) = ap (λ (n : ℕ). owes t.phase + n) (uncounted-abort_all is ts)

add_one : (n : ℕ) → add_u64 (n % u64_mod) 1 ≡ (n + 1) % u64_mod
unfolding add_u64
add_one n = omega arith

take_one : (n : ℕ) → fetch_sub ((n + 1) % u64_mod) ≡ n % u64_mod
unfolding add_u64 fetch_sub
take_one n = omega arith

abbrev pub IsCounted : TcpServer → List Task → Type 0
IsCounted s ts = s.connection_count ≡ uncounted ts % u64_mod

spawned_counts :
    (i : ℕ) (s : TcpServer) (ts : List Task)
    → s.connection_count ≡ (uncounted ts + 1) % u64_mod
    → IsCounted (handle_connection i (s, ts)).0 (handle_connection i (s, ts)).1
unfolding handle_connection uncounted owes
spawned_counts i s ts e =
    e ∙ ap (λ (n : ℕ). n % u64_mod) (sym (uncounted-append ts (at i false spawned ∷ [])))

admit_counts :
    (interval : Option ℕ) (converts : Bool) (i : ℕ) (s : TcpServer) (ts : List Task)
    → s.connection_count ≡ (uncounted ts + 1) % u64_mod
    → IsCounted (admit interval converts i (s, ts)).0 (admit interval converts i (s, ts)).1
unfolding admit
admit_counts none converts i s ts e = spawned_counts i s ts e
admit_counts (some t) true i s ts e = spawned_counts i s ts e
admit_counts (some t) false i s ts e = ap fetch_sub e ∙ take_one (uncounted ts)

take_permit_counts :
    (p : ℕ) (converts : Bool) (i : ℕ) (s : TcpServer) (ts : List Task)
    → IsCounted s ts
    → IsCounted (take_permit p converts i (s, ts)).0 (take_permit p converts i (s, ts)).1
unfolding take_permit
take_permit_counts zero converts i s ts e = e
take_permit_counts (suc p) converts i s ts e =
    admit_counts s.config.keep_alive converts i _ ts
      (ap (λ (n : ℕ). add_u64 n 1) e ∙ add_one (uncounted ts))

launch_counts :
    (s : TcpServer) (a b : Option String) → (launch s a b).1.connection_count ≡ s.connection_count
unfolding launch
launch_counts s (some text) b = refl
launch_counts s none (some text) = refl
launch_counts s none none = refl

start_counts :
    (s : TcpServer) (a b : Option String) → (start s a b).1.connection_count ≡ s.connection_count
unfolding start launch
start_counts s a b = elim (Bool-cases s.running) [
  | inl on ↦ ground (arith, on)
  | inr off ↦ ground (arith, off, launch_counts s a b)
]

same_count :
    (ts front back : List Task) (t u : Task) (c : ℕ)
    → ts ≡ front ++ (t ∷ back)
    → owes t.phase ≡ owes u.phase
    → c ≡ uncounted ts % u64_mod
    → c ≡ uncounted (front ++ (u ∷ back)) % u64_mod
same_count ts front back t u c h same e =
    let split = ap uncounted h in
    let moved : uncounted ts ≡ uncounted (front ++ (u ∷ back)) =
      omega (arith, split, same, uncounted_swap front back t u) in
    e ∙ ap (λ (n : ℕ). n % u64_mod) moved

step-IsCounted : {s t : System} → Step s t → IsCounted s.server s.tasks → IsCounted t.server t.tasks
unfolding accept list_session unlist_session count_down signal_stop joined clear_sessions take_tasks
    owes
step-IsCounted (starts s a b h k) e = start_counts s.server a b ∙ e
step-IsCounted (accepts s converts h) e =
    take_permit_counts s.server.permits converts s.next_id s.server s.tasks e
step-IsCounted (runs s front back i b h) e =
    same_count s.tasks front back (at i b spawned) (at i b starting) _ h refl e
step-IsCounted (lists s front back i b h) e =
    same_count s.tasks front back (at i b starting) (at i b serving) _ h refl e
step-IsCounted (leaves s front back i b h) e =
    same_count s.tasks front back (at i b serving) (at i b leaving) _ h refl e
step-IsCounted (ends s front back i b h) e =
    let split = ap uncounted h in
    let moved : uncounted s.tasks ≡ uncounted (front ++ (at i b ended ∷ back)) + 1 =
      omega (arith, split, uncounted_swap front back (at i b leaving) (at i b ended)) in
    ap fetch_sub (e ∙ ap (λ (n : ℕ). n % u64_mod) moved) ∙ take_one _
step-IsCounted (cancels_new s front back i h) e =
    same_count s.tasks front back (at i true spawned) (at i true aborted) _ h refl e
step-IsCounted (cancels_serving s front back i h) e =
    same_count s.tasks front back (at i true serving) (at i true aborted) _ h refl e
step-IsCounted (stops s h k) e = e
step-IsCounted (breaks s h k) e = e
step-IsCounted (joins s h k) e = e
step-IsCounted (clears s h) e = e
step-IsCounted (takes s h) e =
    e ∙ ap (λ (n : ℕ). n % u64_mod) (sym (uncounted-abort_all s.server.session_tasks s.tasks))

-- Whatever the tasks do, the connection count is the number of tasks that have not counted themselves down, as a
-- word of 64 bits: those of live connections, and those that `stop` aborted.
pub run-IsCounted : (c : ServerConfig) {s : System} → initial c ⟶* s → IsCounted s.server s.tasks
unfolding initial with_config uncounted
run-IsCounted c here = refl
run-IsCounted c (next r st) = step-IsCounted st (run-IsCounted c r)
