-- ===== src/Kernel/Boot.antt =====
-- `os_kernel_init` and `os_kernel_launch` of Kernel/os_kernel.c. The debug, SysTick and NVIC
-- registers are not part of the state.
use sentinel_rtos.Base.{ℕ, ◌+◌, true, false, none, some}
use sentinel_rtos.Kernel.State.{Kernel}
use sentinel_rtos.Kernel.Run.{M, done, fault, ◌>>◌}
use sentinel_rtos.Kernel.Scheduler.{os_scheduler}

unfoldable pub os_kernel_init : Kernel → Kernel
os_kernel_init k = record k {
  primask = 1;
  task_count = 0;
  current_tcb = none;
  os_ticks = 0;
  kernel_running = false;
}

-- The registers with which `os_start_first_task` enters a task.
pub record FirstTask : Type 0 where
  pub psp : ℕ
  pub pc : ℕ

-- The PSP past the task's first frame, and the entry point from the frame's PC slot.
unfoldable pub entered : Kernel → ℕ → FirstTask
entered k c =
    let stack_ptr = (k.os_tasks c).stack_ptr in
    record { psp = stack_ptr + 64; pc = k.memory (stack_ptr + 56) }

-- `kernel_running = true;`, and `os_start_first_task`: it reads through `current_tcb`, enables
-- interrupts and goes into the task.
unfoldable pub start_first_task : M FirstTask
start_first_task k = elim k.current_tcb [
  | none ↦ fault
  | some c ↦ done (entered k c) (record k { kernel_running = true; primask = 0 })
]

unfoldable pub os_kernel_launch : M FirstTask
os_kernel_launch = do os_scheduler; start_first_task
