-- ===== src/Kernel/Safety/Time.antt =====
-- `os_delay` and `SysTick_Handler` of Kernel/os_kernel.c keep the state well formed.
use sentinel_rtos.Base.{ℕ, ◌+◌, ◌%◌, ◌||◌, not, inl, inr, ◌==◌, arith, Bool-cases}
use sentinel_rtos.Kernel.State.{Kernel, mutex_queue, semaphore_queue, os_enter_critical, u32_mod}
use sentinel_rtos.Kernel.Tick.{tick_tasks, sys_tick_handler, os_delay, sleeping_tcb}
use sentinel_rtos.Kernel.Tick.Effect.{
  ticked, os_tasks-tick_tasks, tick_tasks-SameObjects, tick_tasks-QueuesAgree,
  tick_tasks-wait_count,
}
use sentinel_rtos.Kernel.Invariant.{IsValid}
use sentinel_rtos.Kernel.Invariant.Frame.{SameObjects}
use sentinel_rtos.Kernel.Invariant.Writes.{
  os_enter_critical-IsValid, os_exit_critical-IsValid, os_yield-IsValid, IsValid-set_task,
  IsValid-registers,
}
use sentinel_rtos.Kernel.Safety.{Stops, Runs}

-- A running task's `os_delay` neither faults nor spins, and leaves the state well formed.
pub os_delay-IsValid :
    (k : Kernel) (ms c : ℕ) → Runs k c → IsValid k → Stops IsValid (os_delay ms k)
unfolding os_delay os_enter_critical
os_delay-IsValid k ms c run v = elim (Bool-cases (not k.kernel_running || ms == 0)) [
  | inl e ↦ rw e v
  | inr e ↦
      rw (e, run.is_current)
        (os_yield-IsValid _ (
          os_exit_critical-IsValid k.primask _ (
            IsValid-set_task (record k { primask = 1 }) c (sleeping_tcb (k.os_tasks c) ms)
              (ground (arith, v.tcbs c, run.is_running))
              (ground (arith, v.tcbs c, run.is_running, run.is_current, v.current_in))
              (os_enter_critical-IsValid k v))))
]

tick_tasks-IsValid : (k : Kernel) (n : ℕ) → IsValid k → IsValid (tick_tasks k 0 n)
unfolding ticked
tick_tasks-IsValid k n v = record {
  few = rw f.count v.few;
  current_in = rw (f.count, f.current) v.current_in;
  agree = tick_tasks-QueuesAgree k 0 n v.agree;
  tcbs = λ t. rw (f.count, f.current) (ground (arith, v.tcbs t, os_tasks-tick_tasks k 0 n t));
  mutexes = λ m. ground (
    arith,
    v.mutexes m,
    f.count,
    f.locks m,
    f.owners m,
    tick_tasks-wait_count k 0 n (mutex_queue m),
  );
  semaphores = λ s. ground (
    arith,
    v.semaphores s,
    f.tokens s,
    f.limits s,
    tick_tasks-wait_count k 0 n (semaphore_queue s),
  );
}
  where
    f : SameObjects k (tick_tasks k 0 n)
    f = tick_tasks-SameObjects k 0 n

-- `SysTick_Handler` leaves the state well formed.
pub sys_tick_handler-IsValid : (k : Kernel) → IsValid k → IsValid (sys_tick_handler k)
unfolding sys_tick_handler
sys_tick_handler-IsValid k v = os_yield-IsValid _ (
    tick_tasks-IsValid _ k.task_count (
      IsValid-registers k ((k.os_ticks + 1) % u32_mod) k.primask k.kernel_running k.pend_sv k.memory
        v))
