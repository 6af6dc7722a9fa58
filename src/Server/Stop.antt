-- ===== src/Server/Stop.antt =====
-- `stop` of src/core/server.rs: it reaches every task, and what the connection count tells after it.
use rust_network_system.Base.{
  ℕ, zero, suc, ◌≡◌, refl, sym, ap, ◌∙◌, ◌⊎◌, inl, inr, Bool, true, false, not, ◌&&◌, ◌||◌, Option,
  none, some, List, [], ◌∷◌, ◌++◌, arith, String, Bool-cases, All, All-append, All-weaken, All-zip,
  All-swap, subst, ◌==◌,
}
use rust_network_system.Server.{
  ServerConfig, TcpServer, Phase, spawned, starting, serving, leaving, ended, aborted, Task, start,
  launch, accept, take_permit, admit, handle_connection, list_session, unlist_session, count_down,
  signal_stop, joined, clear_sessions, take_tasks, retain_unfinished, is_over, is_unfinished,
  member, abort_all,
}
use rust_network_system.Server.System.{
  System, initial, Step, starts, accepts, runs, lists, leaves, ends, cancels_new, cancels_serving,
  stops, breaks, joins, clears, takes, ◌⟶*◌, here, next, at, clearing,
}

-- The task of an unfinished connection is told to abort, or its handle is kept.
abbrev pub Held : List ℕ → Task → Type 0
Held is t = (is_over t.phase ≡ true) ⊎ ((t.abort ≡ true) ⊎ (member t.id is ≡ true))

-- The task has ended, or it is told to abort.
abbrev pub Stopped : Task → Type 0
Stopped t = (is_over t.phase ≡ true) ⊎ (t.abort ≡ true)

member-append_left : (i : ℕ) (is js : List ℕ) → member i is ≡ true → member i (is ++ js) ≡ true
unfolding member
member-append_left i [] js h = absurd (cc)
member-append_left i (k ∷ is) js h = elim (Bool-cases (k == i)) [
  | inl e ↦ ground (arith, e)
  | inr ne ↦ ground (arith, ne, h, member-append_left i is js)
]

member-append_last : (i : ℕ) (is : List ℕ) → member i (is ++ (i ∷ [])) ≡ true
unfolding member
member-append_last i [] = ground arith
member-append_last i (k ∷ is) = elim (Bool-cases (k == i)) [
  | inl e ↦ ground (arith, e)
  | inr ne ↦ ground (arith, ne, member-append_last i is)
]

member-retain_unfinished :
    (ts : List Task) (i : ℕ) (is : List ℕ)
    → is_unfinished ts i ≡ true
    → member i is ≡ true
    → member i (retain_unfinished ts is) ≡ true
unfolding member retain_unfinished
member-retain_unfinished ts i [] live h = absurd (cc)
member-retain_unfinished ts i (k ∷ is) live h = elim (Bool-cases (k == i)) [
  | inl e ↦
      let same : k ≡ i = ground (arith, e) in ground (arith, e, ap (is_unfinished ts) same ∙ live)
  | inr ne ↦ elim (Bool-cases (is_unfinished ts k)) [
    | inl e ↦ ground (arith, ne, e, h, member-retain_unfinished ts i is live)
    | inr e ↦ ground (arith, ne, e, h, member-retain_unfinished ts i is live)
  ]
]

abbrev Known : List Task → Task → Type 0
Known ts t = (is_over t.phase ≡ true) ⊎ (is_unfinished ts t.id ≡ true)

All-Known :
    (ts us : List Task)
    → ((i : ℕ) → is_unfinished us i ≡ true → is_unfinished ts i ≡ true)
    → All (Known ts) us
unfolding is_unfinished
All-Known ts [] f = tt
All-Known ts (u ∷ us) f = (known, All-Known ts us (λ i h. f i (ground (arith, h))))
  where
    known : Known ts u
    known = elim (Bool-cases (is_over u.phase)) [
      | inl over ↦ inl over
      | inr live ↦ inr (f u.id (ground (arith, live)))
    ]

retained :
    (ts : List Task) (is : List ℕ) (t : Task)
    → Held is t
    → Known ts t
    → Held (retain_unfinished ts is) t
retained ts is t (inl over) k = inl over
retained ts is t (inr (inl told)) k = inr (inl told)
retained ts is t (inr (inr kept)) (inl over) = inl over
retained ts is t (inr (inr kept)) (inr live) =
    inr (inr (member-retain_unfinished ts t.id is live kept))

abbrev pub IsTracked : TcpServer → List Task → Type 0
IsTracked s ts = All (Held s.session_tasks) ts

Held-append : (is : List ℕ) (i : ℕ) (t : Task) → Held is t → Held (is ++ (i ∷ [])) t
Held-append is i t (inl over) = inl over
Held-append is i t (inr (inl told)) = inr (inl told)
Held-append is i t (inr (inr kept)) = inr (inr (member-append_left t.id is (i ∷ []) kept))

spawned-IsTracked :
    (i : ℕ) (s : TcpServer) (ts : List Task)
    → IsTracked s ts
    → IsTracked (handle_connection i (s, ts)).0 (handle_connection i (s, ts)).1
unfolding handle_connection
spawned-IsTracked i s ts v =
    let ts' = ts ++ (at i false spawned ∷ []) in
    All-zip ts' (retained ts' (s.session_tasks ++ (i ∷ [])))
      (All-append _ ts (at i false spawned ∷ []) (All-weaken ts (Held-append s.session_tasks i) v)
        (inr (inr (member-append_last i s.session_tasks)), tt))
      (All-Known ts' ts' (λ j h. h))

admit-IsTracked :
    (interval : Option ℕ) (converts : Bool) (i : ℕ) (s : TcpServer) (ts : List Task)
    → IsTracked s ts
    → IsTracked (admit interval converts i (s, ts)).0 (admit interval converts i (s, ts)).1
unfolding admit
admit-IsTracked none converts i s ts e = spawned-IsTracked i s ts e
admit-IsTracked (some t) true i s ts e = spawned-IsTracked i s ts e
admit-IsTracked (some t) false i s ts e = e

take_permit-IsTracked :
    (p : ℕ) (converts : Bool) (i : ℕ) (s : TcpServer) (ts : List Task)
    → IsTracked s ts
    → IsTracked (take_permit p converts i (s, ts)).0 (take_permit p converts i (s, ts)).1
unfolding take_permit
take_permit-IsTracked zero converts i s ts e = e
take_permit-IsTracked (suc p) converts i s ts e =
    admit-IsTracked s.config.keep_alive converts i _ ts e

launch-session_tasks :
    (s : TcpServer) (a b : Option String) → (launch s a b).1.session_tasks ≡ s.session_tasks
unfolding launch
launch-session_tasks s (some text) b = refl
launch-session_tasks s none (some text) = refl
launch-session_tasks s none none = refl

start-session_tasks :
    (s : TcpServer) (a b : Option String) → (start s a b).1.session_tasks ≡ s.session_tasks
unfolding start
start-session_tasks s a b = elim (Bool-cases s.running) [
  | inl on ↦ ground (arith, on)
  | inr off ↦ ground (arith, off, launch-session_tasks s a b)
]

abort-Stopped :
    (is : List ℕ) (t : Task)
    → Held is t
    → Stopped (record t { abort = t.abort || (member t.id is && not (is_over t.phase)) })
abort-Stopped is t (inl over) = inl over
abort-Stopped is t (inr (inl told)) = inr (ground (arith, told))
abort-Stopped is t (inr (inr kept)) = elim (Bool-cases (is_over t.phase)) [
  | inl over ↦ inl over
  | inr live ↦ elim (Bool-cases t.abort) [
    | inl told ↦ inr (ground (arith, told))
    | inr not_told ↦ inr (ground (arith, kept, live, not_told))
  ]
]

pub abort_all-Stopped :
    (is : List ℕ) (ts : List Task) → All (Held is) ts → All Stopped (abort_all is ts)
unfolding abort_all
abort_all-Stopped is [] h = tt
abort_all-Stopped is (t ∷ ts) h = (abort-Stopped is t h.0, abort_all-Stopped is ts h.1)

stays-Held :
    (is : List ℕ) (i : ℕ) (b : Bool) (p q : Phase)
    → is_over p ≡ false
    → Held is (at i b p)
    → Held is (at i b q)
stays-Held is i b p q live (inl over) = absurd (ground (arith, live, over))
stays-Held is i b p q live (inr held) = inr held

swap-IsTracked :
    (s : TcpServer) (ts front back : List Task) (t u : Task)
    → ts ≡ front ++ (t ∷ back)
    → (Held s.session_tasks t → Held s.session_tasks u)
    → IsTracked s ts
    → IsTracked s (front ++ (u ∷ back))
swap-IsTracked s ts front back t u e f v = All-swap _ front back t u f (subst (IsTracked s) e v)

step-IsTracked : {s t : System} → Step s t → IsTracked s.server s.tasks → IsTracked t.server t.tasks
unfolding accept list_session unlist_session count_down signal_stop joined clear_sessions take_tasks
    is_over
step-IsTracked (starts s a b h k) v =
    subst (λ is. All (Held is) s.tasks) (sym (start-session_tasks s.server a b)) v
step-IsTracked (accepts s converts h) v =
    take_permit-IsTracked s.server.permits converts s.next_id s.server s.tasks v
step-IsTracked (runs s front back i b h) v =
    swap-IsTracked s.server s.tasks front back _ _ h (stays-Held _ i b spawned starting refl) v
step-IsTracked (lists s front back i b h) v =
    swap-IsTracked s.server s.tasks front back _ _ h (stays-Held _ i b starting serving refl) v
step-IsTracked (leaves s front back i b h) v =
    swap-IsTracked s.server s.tasks front back _ _ h (stays-Held _ i b serving leaving refl) v
step-IsTracked (ends s front back i b h) v =
    swap-IsTracked s.server s.tasks front back _ _ h (stays-Held _ i b leaving ended refl) v
step-IsTracked (cancels_new s front back i h) v =
    swap-IsTracked s.server s.tasks front back _ _ h (stays-Held _ i true spawned aborted refl) v
step-IsTracked (cancels_serving s front back i h) v =
    swap-IsTracked s.server s.tasks front back _ _ h (stays-Held _ i true serving aborted refl) v
step-IsTracked (stops s h k) v = v
step-IsTracked (breaks s h k) v = v
step-IsTracked (joins s h k) v = v
step-IsTracked (clears s h) v = v
step-IsTracked (takes s h) v =
    All-weaken (abort_all s.server.session_tasks s.tasks) (λ t. held_of_stopped t)
      (abort_all-Stopped s.server.session_tasks s.tasks v)
  where
    held_of_stopped : (t : Task) → Stopped t → Held [] t
    held_of_stopped t (inl over) = inl over
    held_of_stopped t (inr told) = inr (inl told)

pub run-IsTracked : (c : ServerConfig) {s : System} → initial c ⟶* s → IsTracked s.server s.tasks
unfolding initial
run-IsTracked c here = tt
run-IsTracked c (next r st) = step-IsTracked st (run-IsTracked c r)

-- `stop` misses no connection: when it has taken the handles, the task of every connection that was ever accepted has
-- ended or was told to abort.
pub stop_reaches_all :
    (c : ServerConfig) {s : System}
    → initial c ⟶* s
    → s.control ≡ clearing
    → All Stopped (take_tasks (s.server, s.tasks)).1
unfolding take_tasks
stop_reaches_all c {s} r h = abort_all-Stopped s.server.session_tasks s.tasks (run-IsTracked c r)
