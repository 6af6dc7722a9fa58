-- ===== src/GracefulShutdown.antt =====
-- src/stability/graceful_shutdown.rs: the drain of active requests before a shutdown.
-- The functions run one method alone; `GracefulShutdown/System.antt` interleaves the tasks between any two
-- accesses to the shared atomics. A guard occupies memory, so that their number stays below 2^64.
pub mod System
pub mod Safety
pub mod Wakeup
use rust_network_system.Base.{
  ℕ, suc, ◌+◌, ◌-◌, Bool, true, false, Option, none, some, List, [], ◌∷◌, ◌++◌, map, ◌==◌,
  if◌then◌else◌, length, get_elem?,
}

pub record GracefulShutdown : Type 0 where
  pub shutdown_requested : Bool
  pub active_requests : ℕ
  pub timeout : ℕ

unfoldable pub new : ℕ → GracefulShutdown
new timeout = record { shutdown_requested = false; active_requests = 0; timeout = timeout }

-- Whether a guard is handed out, and the state after it.
unfoldable pub enter : GracefulShutdown → Bool × GracefulShutdown
enter g =
    if g.shutdown_requested
    then (false, g)
    else (true, record g { active_requests = suc g.active_requests })

unfoldable pub shutdown : GracefulShutdown → GracefulShutdown
shutdown g = record g { shutdown_requested = true }

-- The drop of a guard: whether the waiters are notified, and the state after it.
unfoldable pub drop_guard : GracefulShutdown → Bool × GracefulShutdown
drop_guard g = (g.active_requests == 1, record g { active_requests = g.active_requests - 1 })

-- The flags of the signals, in the order of their creation. A component holds the number of its
-- signal, which stands for the shared flag.
pub record ShutdownCoordinator : Type 0 where
  pub signals : List Bool
  pub graceful : GracefulShutdown

unfoldable pub new_coordinator : ℕ → ShutdownCoordinator
unfolding new
new_coordinator timeout = record { signals = []; graceful = new timeout }

unfoldable pub create_signal : ShutdownCoordinator → ℕ × ShutdownCoordinator
create_signal c = (length c.signals, record c { signals = c.signals ++ (false ∷ []) })

unfoldable pub is_triggered : ShutdownCoordinator → ℕ → Bool
is_triggered c i = elim (get_elem? c.signals i) [ some b ↦ b | none ↦ false ]

set : List Bool → ℕ → List Bool
set [] i = []
set (b ∷ bs) ℕ.zero = true ∷ bs
set (b ∷ bs) (suc i) = b ∷ set bs i

-- A component triggers its own signal.
unfoldable pub trigger : ShutdownCoordinator → ℕ → ShutdownCoordinator
unfolding set
trigger c i = record c { signals = set c.signals i }

-- The part of `shutdown_all` before it waits.
unfoldable pub trigger_all : ShutdownCoordinator → ShutdownCoordinator
unfolding shutdown
trigger_all c = record c { signals = map (λ _. true) c.signals; graceful = shutdown c.graceful }
