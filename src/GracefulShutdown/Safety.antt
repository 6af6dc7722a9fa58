-- ===== src/GracefulShutdown/Safety.antt =====
-- What the drain of src/stability/graceful_shutdown.rs guarantees, and the requests that slip in.
use rust_network_system.Base.{ℕ, ◌+◌, ◌≤◌, ◌<◌, ◌≡◌, refl, ◌≢◌, true, arith}
use rust_network_system.GracefulShutdown.{new, shutdown, drop_guard}
use rust_network_system.GracefulShutdown.System.{
  System, idle, completed, start, woken, Step, test, count, drop, notify, request, begin_wait,
  load_zero, load_busy, arm, expire, ◌⟶*◌, here, next,
}

-- The counter is the number of guards that are alive.
abbrev pub IsCounted : System → Type 0
IsCounted s = s.active_requests ≡ s.guards

step-IsCounted : {s t : System} → Step s t → IsCounted s → IsCounted t
unfolding drop_guard shutdown
step-IsCounted (test s h) v = v
step-IsCounted (count s h) v = ground arith
step-IsCounted (drop s h) v = ground arith
step-IsCounted (notify s h) v = v
step-IsCounted (request s) v = v
step-IsCounted (begin_wait s h) v = v
step-IsCounted (load_zero s h z) v = v
step-IsCounted (load_busy s h z) v = v
step-IsCounted (arm s h) v = v
step-IsCounted (expire s h) v = v

keeps-IsCounted : {s t : System} → s ⟶* t → IsCounted s → IsCounted t
keeps-IsCounted here v = v
keeps-IsCounted (next r st) v = step-IsCounted st (keeps-IsCounted r v)

-- Whatever the tasks do, the counter equals the number of guards that are alive.
pub run-IsCounted : (timeout : ℕ) {s : System} → start timeout ⟶* s → IsCounted s
run-IsCounted timeout r = keeps-IsCounted r (unfold start new in refl)

step_drains :
    {s t : System}
    → Step s t
    → s.shutdown_requested ≡ true
    → (t.shutdown_requested ≡ true)
      × (t.guards + t.entering ≤ s.guards + s.entering)
      × (t.entering ≤ s.entering)
unfolding drop_guard shutdown
step_drains (test s h) r = absurd (ground arith)
step_drains (count s h) r = ground arith
step_drains (drop s h) r = ground arith
step_drains (notify s h) r = ground arith
step_drains (request s) r = ground arith
step_drains (begin_wait s h) r = ground arith
step_drains (load_zero s h z) r = ground arith
step_drains (load_busy s h z) r = ground arith
step_drains (arm s h) r = ground arith
step_drains (expire s h) r = ground arith

-- Once a shutdown is requested it stays requested, and the requests only become fewer: those that are
-- active and those that passed the test of `enter` before, taken together, never grow in number.
pub run_drains :
    {s t : System}
    → s ⟶* t
    → s.shutdown_requested ≡ true
    → (t.shutdown_requested ≡ true)
      × (t.guards + t.entering ≤ s.guards + s.entering)
      × (t.entering ≤ s.entering)
run_drains here r = (r, omega arith, omega arith)
run_drains (next rs st) r =
    let (on, fewer, less) = run_drains rs r in
    let (on', fewer', less') = step_drains st on in (on', omega arith, omega arith)

step_completes :
    {s t : System}
    → Step s t
    → s.waiter ≢ completed
    → t.waiter ≡ completed
    → (s.active_requests ≡ 0) × (t.guards ≡ s.guards)
unfolding woken
step_completes (test s h) n e = absurd (n e)
step_completes (count s h) n e = absurd (n e)
step_completes (drop s h) n e = absurd (n e)
step_completes (notify s h) n e = absurd (ground arith)
step_completes (request s) n e = absurd (n e)
step_completes (begin_wait s h) n e = absurd (cc)
step_completes (load_zero s h z) n e = (z, refl)
step_completes (load_busy s h z) n e = absurd (cc)
step_completes (arm s h) n e = absurd (cc)
step_completes (expire s h) n e = absurd (cc)

-- Let `wait_for_completion` return `true` after a shutdown was requested, when no task stands between the
-- test and the count in `enter`. Then no request is active, now or in any later state.
pub completed_stays :
    (timeout : ℕ) {s t u : System}
    → start timeout ⟶* s
    → s.shutdown_requested ≡ true
    → s.entering ≡ 0
    → s.waiter ≢ completed
    → Step s t
    → t.waiter ≡ completed
    → t ⟶* u
    → (t.active_requests ≡ 0) × (u.active_requests ≡ 0)
completed_stays timeout {s} {t} {u} r on quiet n st e later =
    let (zero_now, kept) = step_completes st n e in
    let counted = run-IsCounted timeout r in
    let counted' = step-IsCounted st counted in
    let (on', fewer, less) = step_drains st on in
    let (_, fewer', less') = run_drains later on' in
    (
      omega (arith, zero_now, kept, counted, counted'),
      omega (arith, zero_now, kept, counted, counted', keeps-IsCounted later counted'),
    )

-- A request can slip in. From every state in which some task has passed the test of `enter` and has not
-- counted itself, and no request is active and none waits, a shutdown can be requested, `wait_for_completion` can return
-- `true`, and the request can become active after that.
pub late_entry :
    (s : System)
    → 0 < s.entering
    → s.active_requests ≡ 0
    → s.waiter ≡ idle
    → (t : System) × (s ⟶* t)
      × (t.shutdown_requested ≡ true)
      × (t.waiter ≡ completed)
      × (t.active_requests ≡ 1)
unfolding shutdown
late_entry s h z w = (
  _,
  next (next (next (next here (request s)) (begin_wait _ w)) (load_zero _ refl z)) (count _ h),
  refl,
  refl,
  ground arith,
)
