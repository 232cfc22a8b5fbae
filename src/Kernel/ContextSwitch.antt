-- ===== src/Kernel/ContextSwitch.antt =====
-- The context switch of Kernel/os_kernel_asm.s, with the registers of the processor.
pub mod Frames
pub mod RoundTrip
use sentinel_rtos.Base.{ℕ, zero, suc, ◌+◌, ◌-◌, ◌*◌, false, none, some, ◌==◌, if◌then◌else◌, update}
use sentinel_rtos.Kernel.State.{Kernel, set_task}
use sentinel_rtos.Kernel.Run.{M, done, fault, bind}
use sentinel_rtos.Kernel.Scheduler.{os_scheduler}

-- PSP, and the registers that software saves: R4 to R11, numbered from 0.
pub record Cpu : Type 0 where
  pub psp : ℕ
  pub saved : ℕ → ℕ

-- `STMDB R0!, {R4-R11}`: the lowest register goes to the lowest address. `left` registers from `i`
-- on are still to go, to the block at `a`.
unfoldable pub store_registers : (ℕ → ℕ) → (ℕ → ℕ) → ℕ → ℕ → ℕ → ℕ → ℕ
store_registers saved memory a i zero = memory
store_registers saved memory a i (suc left) =
    store_registers saved (update memory (a + 4 * i) (saved i)) a (i + 1) left

-- `LDMIA R0!, {R4-R11}` from the block at `a`.
unfoldable pub load_registers : (ℕ → ℕ) → (ℕ → ℕ) → ℕ → ℕ → ℕ → ℕ → ℕ
load_registers saved memory a i zero = saved
load_registers saved memory a i (suc left) =
    load_registers (update saved i (memory (a + 4 * i))) memory a (i + 1) left

-- Step 1 of the handler, in task `c`. Taking the exception clears the pending flag.
unfoldable pub save_context : Cpu → ℕ → Kernel → Kernel
save_context cpu c k =
    let stacked = record k {
      memory = store_registers cpu.saved k.memory (cpu.psp - 32) 0 8;
      pend_sv = false;
    } in
    set_task stacked c (record (k.os_tasks c) { stack_ptr = cpu.psp - 32 })

-- Step 3, for task `b`.
unfoldable pub restore_context : Cpu → ℕ → Kernel → Cpu
restore_context cpu b k = record {
  psp = (k.os_tasks b).stack_ptr + 32;
  saved = load_registers cpu.saved k.memory (k.os_tasks b).stack_ptr 0 8;
}

unfoldable pub restore_current : Cpu → M Cpu
restore_current cpu k = elim k.current_tcb [
  | none ↦ fault
  | some b ↦ done (restore_context cpu b k) k
]

unfoldable pub pend_sv_handler : Cpu → M Cpu
pend_sv_handler cpu k = elim k.current_tcb [
  | none ↦ fault
  | some c ↦ bind (os_scheduler (save_context cpu c k)) (λ _. restore_current cpu)
]
