-- ===== src/Kernel/ContextSwitch/Frames.antt =====
-- The register frames that the context switch of Kernel/os_kernel_asm.s writes and reads.
use sentinel_rtos.Base.{
  ℕ, zero, suc, ◌+◌, ◌*◌, ◌≤◌, ◌<◌, ◌≡◌, ◌⊎◌, refl, ap, subst, inl, inr, ◌&&◌, leb, ltb,
  if◌then◌else◌, update, arith, ℕ_discrete, Option-cases,
}
use sentinel_rtos.Kernel.State.{Kernel}
use sentinel_rtos.Kernel.Run.{done}
use sentinel_rtos.Kernel.Scheduler.{
  choose, switch, dispatch, preempt, os_scheduler, os_stack_overflow_hook,
}
use sentinel_rtos.Kernel.Safety.Switch.{os_tasks-dispatch, os_tasks-preempt, preempt_idle}
use sentinel_rtos.Kernel.ContextSwitch.{store_registers, load_registers}

-- The words outside the block keep their values.
pub store_registers-out :
    (saved memory : ℕ → ℕ) (a i left x : ℕ)
    → (x < a + 4 * i) ⊎ (a + 4 * (i + left) ≤ x)
    → store_registers saved memory a i left x ≡ memory x
unfolding store_registers
store_registers-out saved memory a i zero x apart = refl
store_registers-out saved memory a i (suc left) x apart =
    ground (arith, store_registers-out saved (update memory (a + 4 * i) (saved i)) a (i + 1) left x)

-- Each register goes to its word.
pub store_registers-in :
    (saved memory : ℕ → ℕ) (a i left j : ℕ)
    → i ≤ j
    → j < i + left
    → store_registers saved memory a i left (a + 4 * j) ≡ saved j
unfolding store_registers
store_registers-in saved memory a i zero j le lt = absurd (omega arith)
store_registers-in saved memory a i (suc left) j le lt = elim (ℕ_discrete i j) [
  | yes e ↦
      subst
        (λ n.
          store_registers saved (update memory (a + 4 * i) (saved i)) a (i + 1) left (a + 4 * n)
          ≡ saved n)
        e
        (ground (
          arith,
          store_registers-out saved (update memory (a + 4 * i) (saved i)) a (i + 1) left
              (a + 4 * i),
        ))
  | no ne ↦
      store_registers-in saved (update memory (a + 4 * i) (saved i)) a (i + 1) left j (omega arith)
        (omega arith)
]

pub load_registers_lem :
    (saved memory : ℕ → ℕ) (a i left j : ℕ)
    → load_registers saved memory a i left j
      ≡ (if leb i j && ltb j (i + left) then memory (a + 4 * j) else saved j)
unfolding load_registers
load_registers_lem saved memory a i zero j = ground arith
load_registers_lem saved memory a i (suc left) j =
    ground (arith, load_registers_lem (update saved i (memory (a + 4 * i))) memory a (i + 1) left j)

-- The stack pointers, and the words of memory, that a switch between tasks leaves alone.
dispatch-stack_ptr :
    (k : Kernel) (b u : ℕ) → ((dispatch k b).os_tasks u).stack_ptr ≡ (k.os_tasks u).stack_ptr
dispatch-stack_ptr k b u = elim (Option-cases k.current_tcb) [
  | inl e ↦
      ground
        (arith, os_tasks-dispatch k b u, ap (λ (j : Kernel). j.os_tasks u) (preempt_idle k b e))
  | inr (c, e) ↦ ground (arith, os_tasks-dispatch k b u, os_tasks-preempt k b c u e)
]

dispatch-memory : (k : Kernel) (b : ℕ) → (dispatch k b).memory ≡ k.memory
unfolding dispatch preempt
dispatch-memory k b = ground arith

pub os_scheduler-stacks :
    (k k' : Kernel) (u : ℕ)
    → os_scheduler k ≡ done tt k'
    → ((k'.os_tasks u).stack_ptr ≡ (k.os_tasks u).stack_ptr) × (k'.memory ≡ k.memory)
unfolding os_scheduler switch os_stack_overflow_hook
os_scheduler-stacks k k' u e = elim (Option-cases (choose k)) [
  | inl stay ↦ ground arith
  | inr (b, go) ↦ ground (arith, dispatch-stack_ptr k b u, dispatch-memory k b)
]
