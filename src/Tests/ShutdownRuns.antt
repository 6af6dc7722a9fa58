-- ===== src/Tests/ShutdownRuns.antt =====
-- src/stability/graceful_shutdown.rs with one or two requests.
use rust_network_system.Base.{ℕ, ◌≡◌, refl, arith, true, false, Bool}
use rust_network_system.GracefulShutdown.{new, shutdown, drop_guard}
use rust_network_system.GracefulShutdown.System.{
  System, Waiter, idle, loading, waiting, completed, start, woken, test, count, drop, notify,
  request, begin_wait, load_zero, ◌⟶*◌, here, next,
}
use rust_network_system.GracefulShutdown.Safety
use rust_network_system.GracefulShutdown.Wakeup

abbrev state : Bool → (active entering guards : ℕ) → Waiter → System
state requested active entering guards w = record {
  shared = record { shutdown_requested = requested; active_requests = active; timeout = 5 };
  entering = entering;
  guards = guards;
  notifying = 0;
  waiter = w;
}

-- One request has passed the test of `enter`.
entered : start 5 ⟶* state false 0 1 0 idle
unfolding start new
entered = next here (test _ refl)

-- It is active, and a shutdown is requested.
serving : start 5 ⟶* state true 1 0 1 idle
unfolding shutdown
serving = next (next entered (count _ (omega arith))) (request _)

run-IsCounted_example : Safety.IsCounted (state true 1 0 1 idle)
run-IsCounted_example = Safety.run-IsCounted 5 serving

last_drop : state true 1 0 1 idle ⟶* state true 0 0 0 idle
unfolding drop_guard woken
last_drop = next (next here (drop _ (omega arith))) (notify _ (omega arith))

-- The drained coordinator, whose waiter is about to load the counter.
drained : start 5 ⟶* state true 0 0 0 loading
unfolding start new shutdown
drained = next (next here (request _)) (begin_wait _ refl)

completed_stays_example :
    ((state true 0 0 0 completed).active_requests ≡ 0)
    × ((state true 0 0 0 completed).active_requests ≡ 0)
unfolding shutdown
completed_stays_example =
    Safety.completed_stays 5 drained refl refl (λ e. cc) (load_zero _ refl refl) refl
      (next here (request (state true 0 0 0 completed)))

late_entry_example :
    (t : System) × (state false 0 1 0 idle ⟶* t)
    × (t.shutdown_requested ≡ true)
    × (t.waiter ≡ completed)
    × (t.active_requests ≡ 1)
late_entry_example = Safety.late_entry (state false 0 1 0 idle) (omega arith) refl refl

missed_notice_example :
    (t : System) × (state true 1 0 1 loading ⟶* t) × (t.waiter ≡ waiting) × Wakeup.IsLost t
missed_notice_example =
    Wakeup.missed_notice (state true 1 0 1 loading) refl refl refl refl refl refl
