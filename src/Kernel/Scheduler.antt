-- ===== src/Kernel/Scheduler.antt =====
-- `os_scheduler` of Kernel/os_kernel.c, with the default `os_stack_overflow_hook`.
pub mod Choice
pub mod Contract
pub mod Turns
pub mod Next
use sentinel_rtos.Base.{
  ℕ, zero, suc, ◌+◌, ◌%◌, Bool, true, false, not, ◌&&◌, Option, none, some, ◌==◌, ltb,
  if◌then◌else◌, update,
}
use sentinel_rtos.Kernel.State.{
  Kernel, TaskState, ready, running, blocked, suspended, set_task, stack_canary,
}
use sentinel_rtos.Kernel.Run.{Run, M, done, halted}

abbrev pub runnable : TaskState → Bool
runnable ready = true
runnable running = true
runnable blocked = false
runnable suspended = false

abbrev pub is_running : TaskState → Bool
is_running running = true
is_running ready = false
is_running blocked = false
is_running suspended = false

-- One round of the loop, at task `t`.
unfoldable pub consider : Kernel → ℕ → Option ℕ → Option ℕ
consider k t none = if runnable (k.os_tasks t).state then some t else none
consider k t (some b) =
    if runnable (k.os_tasks t).state
      && ltb (k.os_tasks b).current_priority (k.os_tasks t).current_priority
    then some t
    else some b

-- The loop with `n` rounds left, from round `i` on.
unfoldable pub scan : Kernel → ℕ → ℕ → ℕ → Option ℕ → Option ℕ
scan k start zero i best = best
scan k start (suc n) i best = scan k start n (i + 1) (consider k ((start + i) % k.task_count) best)

-- The slot at which the scan starts: one past the running task.
unfoldable pub scan_start : Kernel → ℕ
scan_start k = elim k.current_tcb [ none ↦ 0 | some c ↦ (c + 1) % 256 ]

-- The outgoing task goes back to READY, if it was RUNNING.
unfoldable pub preempt : Kernel → ℕ → Kernel
preempt k b = elim k.current_tcb [
  | none ↦ k
  | some c ↦
      if not (c == b) && is_running (k.os_tasks c).state
      then set_task k c (record (k.os_tasks c) { state = ready })
      else k
]

unfoldable pub dispatch : Kernel → ℕ → Kernel
dispatch k b =
    let k1 = preempt k b in
    record (set_task k1 b (record (k1.os_tasks b) { state = running })) { current_tcb = some b }

unfoldable pub choose : Kernel → Option ℕ
choose k = scan k (scan_start k) k.task_count 0 none

unfoldable pub switch : Kernel → Kernel
switch k = elim (choose k) [ none ↦ k | some b ↦ dispatch k b ]

-- The canary of the running task is in place, or there is no such task.
unfoldable pub canary_intact : Kernel → Bool
canary_intact k = elim k.current_tcb [
  | none ↦ true
  | some c ↦ k.memory (k.os_tasks c).stack_base == stack_canary
]

-- The default overflow hook spins.
unfoldable pub os_stack_overflow_hook : M (Unit {0})
os_stack_overflow_hook k = halted k

unfoldable pub os_scheduler : M (Unit {0})
os_scheduler k =
    if k.task_count == 0
    then done tt k
    else if canary_intact k
    then done tt (switch k)
    else os_stack_overflow_hook k
