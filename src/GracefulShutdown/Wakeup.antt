-- ===== src/GracefulShutdown/Wakeup.antt =====
-- How the waiter of src/stability/graceful_shutdown.rs learns that the last request has ended.
use rust_network_system.Base.{◌≡◌, refl, ◌⊎◌, true, arith}
use rust_network_system.GracefulShutdown.{shutdown, drop_guard}
use rust_network_system.GracefulShutdown.System.{
  System, loading, waiting, completed, timed_out, woken, Step, test, count, drop, notify, request,
  begin_wait, load_zero, load_busy, arm, expire, ◌⟶*◌, here, next,
}

-- A waiter that has armed its notification before the last guard goes is woken by it, and then finds the
-- counter at 0: `wait_for_completion` can return `true` with no further event.
pub wakes :
    (s : System)
    → s.waiter ≡ waiting
    → s.guards ≡ 1
    → s.active_requests ≡ 1
    → (t : System) × (s ⟶* t) × (t.waiter ≡ completed) × (t.active_requests ≡ 0)
unfolding drop_guard woken
wakes s w g a = (
  _,
  next (next (next here (drop s (omega arith))) (notify _ (ground arith)))
      (load_zero _ (ground arith) (ground arith)),
  refl,
  ground arith,
)

-- The drain is over, nothing is left to notify anybody, and the waiter waits or has given up.
pub record IsLost (s : System) : Type 0 where
  pub requested : s.shutdown_requested ≡ true
  pub no_entry : s.entering ≡ 0
  pub no_guard : s.guards ≡ 0
  pub no_notice : s.notifying ≡ 0
  pub none_active : s.active_requests ≡ 0
  pub stuck : (s.waiter ≡ waiting) ⊎ (s.waiter ≡ timed_out)

-- A notification can be lost. From every state in which the waiter is about to load the counter and one
-- last guard is alive, the guard can go between the load and the creation of the notification. Then
-- the waiter waits, although the drain is over.
pub missed_notice :
    (s : System)
    → s.waiter ≡ loading
    → s.guards ≡ 1
    → s.active_requests ≡ 1
    → s.entering ≡ 0
    → s.notifying ≡ 0
    → s.shutdown_requested ≡ true
    → (t : System) × (s ⟶* t) × (t.waiter ≡ waiting) × IsLost t
unfolding drop_guard woken
missed_notice s w g a e q r = (
  _,
  next
      (next (next (next here (load_busy s w (λ z. ground arith))) (drop _ (omega arith)))
        (notify _ (ground arith)))
      (arm _ refl),
  refl,
  ground arith,
)

step-IsLost : {s t : System} → Step s t → IsLost s → IsLost t
unfolding shutdown drop_guard woken
step-IsLost (test s h) v = absurd (ground arith)
step-IsLost (count s h) v = absurd (ground arith)
step-IsLost (drop s h) v = absurd (ground arith)
step-IsLost (notify s h) v = absurd (ground arith)
step-IsLost (request s) v = ground arith
step-IsLost (begin_wait s h) v = absurd (ground arith)
step-IsLost (load_zero s h z) v = absurd (ground arith)
step-IsLost (load_busy s h z) v = absurd (ground arith)
step-IsLost (arm s h) v = absurd (ground arith)
step-IsLost (expire s h) v = ground arith

-- After a lost notification no event wakes the waiter: in every later state it still waits or has run into
-- its timeout, so that `wait_for_completion` returns `false` although no request is active.
pub run-IsLost : {s t : System} → s ⟶* t → IsLost s → IsLost t
run-IsLost here v = v
run-IsLost (next r st) v = step-IsLost st (run-IsLost r v)
