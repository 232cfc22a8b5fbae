-- ===== src/Kernel/Safety.antt =====
-- Calls of the primitives of Kernel/os_kernel.c in a well-formed state.
pub mod Locks
pub mod Tokens
pub mod Time
pub mod Switch
use sentinel_rtos.Base.{ℕ, ◌≡◌, Option, some}
use sentinel_rtos.Kernel.State.{Kernel, running}
use sentinel_rtos.Kernel.Run.{Run, done, yielded, fault, halted}

-- The call neither faults nor spins, and `P` holds at its return or at its first switch.
abbrev pub Stops {ℓ} : {A : Type ℓ} → (Kernel → Type 0) → Run A → Type 0
Stops P (done a k) = P k
Stops P (yielded k g) = P k
Stops P fault = ⊥
Stops P (halted k) = ⊥

-- Task `c` is the one that runs.
pub record Runs (k : Kernel) (c : ℕ) : Type 0 where
  pub is_current : k.current_tcb ≡ some c
  pub is_running : (k.os_tasks c).state ≡ running
