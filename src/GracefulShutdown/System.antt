-- ===== src/GracefulShutdown/System.antt =====
-- Tasks that share a coordinator of src/stability/graceful_shutdown.rs.
use rust_network_system.Base.{ℕ, suc, ◌-◌, ◌<◌, ◌≡◌, ◌≢◌, ◌⊎◌, false, if◌then◌else◌}
use rust_network_system.GracefulShutdown.{GracefulShutdown, new, shutdown, drop_guard}

-- Where the task in `wait_for_completion` stands: before the call, before the load in
-- `wait_until_idle`, between the load and the creation of `notified()`, waiting for the notification,
-- or back with `true` or `false`.
pub data Waiter : Type 0 where
  idle loading seen_busy waiting completed timed_out : Waiter

-- `entering` tasks have passed the test of `enter` and have not counted themselves; `guards` guards
-- are alive; `notifying` drops have taken the count to 0 and have not notified.
pub record System : Type 0 where
  pub shared : GracefulShutdown
  pub open shared use *
  pub entering : ℕ
  pub guards : ℕ
  pub notifying : ℕ
  pub waiter : Waiter

unfoldable pub start : ℕ → System
unfolding new
start timeout = record {
  shared = new timeout;
  entering = 0;
  guards = 0;
  notifying = 0;
  waiter = idle;
}

-- `notify_waiters` wakes a task that waits, and leaves no permit for one that does not.
unfoldable pub woken : Waiter → Waiter
woken waiting = loading
woken w = w

pub data Step : System → System → Type 0 where
  test :
      (s : System) → s.shutdown_requested ≡ false → Step s (record s { entering = suc s.entering })
  count :
      (s : System)
      → 0 < s.entering
      → Step s (record s {
        shared = record s.shared { active_requests = suc s.active_requests };
        entering = s.entering - 1;
        guards = suc s.guards;
      })
  drop :
      (s : System)
      → 0 < s.guards
      → Step s (record s {
        shared = (drop_guard s.shared).1;
        guards = s.guards - 1;
        notifying = if (drop_guard s.shared).0 then suc s.notifying else s.notifying;
      })
  notify :
      (s : System)
      → 0 < s.notifying
      → Step s (record s { notifying = s.notifying - 1; waiter = woken s.waiter })
  request : (s : System) → Step s (record s { shared = shutdown s.shared })
  begin_wait : (s : System) → s.waiter ≡ idle → Step s (record s { waiter = loading })
  load_zero :
      (s : System)
      → s.waiter ≡ loading
      → s.active_requests ≡ 0
      → Step s (record s { waiter = completed })
  load_busy :
      (s : System)
      → s.waiter ≡ loading
      → s.active_requests ≢ 0
      → Step s (record s { waiter = seen_busy })
  arm : (s : System) → s.waiter ≡ seen_busy → Step s (record s { waiter = waiting })
  expire :
      (s : System)
      → (s.waiter ≡ loading) ⊎ ((s.waiter ≡ seen_busy) ⊎ (s.waiter ≡ waiting))
      → Step s (record s { waiter = timed_out })

infix 40 ◌⟶*◌
pub data ◌⟶*◌ (s : System) : System → Type 0 where
  here : s ⟶* s
  next : {t u : System} → s ⟶* t → Step t u → s ⟶* u
