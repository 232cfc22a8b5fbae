-- ===== src/Kernel/Tick.antt =====
-- `SysTick_Handler`, `os_get_ticks` and `os_delay` of Kernel/os_kernel.c.
pub mod Effect
pub mod Timing
use sentinel_rtos.Base.{
  ℕ, zero, suc, ◌+◌, ◌-◌, ◌%◌, ◌||◌, not, true, false, Option, none, some, ◌==◌, if◌then◌else◌,
  update,
}
use sentinel_rtos.Kernel.State.{
  Kernel, Tcb, ready, blocked, set_task, os_timeout, os_enter_critical, os_exit_critical, os_yield,
  u32_mod,
}
use sentinel_rtos.Kernel.Run.{Run, M, done, fault, yield_then}
use sentinel_rtos.Kernel.Blocking.{wait_queue_remove}

-- A timed-out waiter leaves its queue with OS_TIMEOUT.
unfoldable pub time_out : Kernel → ℕ → Kernel
time_out k i = elim (k.os_tasks i).wait_queue [
  | none ↦ k
  | some _ ↦
      let k1 = wait_queue_remove k i in
      set_task k1 i (record (k1.os_tasks i) { wait_result = os_timeout })
]

-- One round of the loop of `SysTick_Handler`.
unfoldable pub tick_task : Kernel → ℕ → Kernel
tick_task k i =
    let left = (k.os_tasks i).sleep_time in
    if left == 0
    then k
    else (let k1 = set_task k i (record (k.os_tasks i) { sleep_time = left - 1 }) in
        if left - 1 == 0
        then (let k2 = time_out k1 i in set_task k2 i (record (k2.os_tasks i) { state = ready }))
        else k1)

-- The loop with `n` rounds left, from task `i` on.
unfoldable pub tick_tasks : Kernel → ℕ → ℕ → Kernel
tick_tasks k i zero = k
tick_tasks k i (suc n) = tick_tasks (tick_task k i) (i + 1) n

unfoldable pub sys_tick_handler : Kernel → Kernel
sys_tick_handler k =
    let k1 = record k { os_ticks = (k.os_ticks + 1) % u32_mod } in
    os_yield (tick_tasks k1 0 k.task_count)

unfoldable pub os_get_ticks : Kernel → ℕ
os_get_ticks k = k.os_ticks

-- The TCB that `os_delay` writes.
abbrev pub sleeping_tcb : Tcb → ℕ → Tcb
sleeping_tcb t ms = record t { sleep_time = ms; wait_queue = none; state = blocked }

unfoldable pub os_delay : ℕ → M (Unit {0})
os_delay ms k =
    if not k.kernel_running || ms == 0
    then done tt k
    else (let (primask, k1) = os_enter_critical k in
        elim k1.current_tcb [
          | none ↦ fault
          | some c ↦
              yield_then (done tt)
                (os_exit_critical primask (set_task k1 c (sleeping_tcb (k1.os_tasks c) ms)))
        ])
