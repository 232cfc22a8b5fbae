-- ===== src/Kernel/Semaphore.antt =====
-- The semaphore of Kernel/os_kernel.c.
pub mod Branches
pub mod Handoff
pub mod Only
use sentinel_rtos.Base.{
  ℕ, ◌+◌, ◌-◌, ◌||◌, not, true, false, Option, none, some, ◌==◌, ltb, if◌then◌else◌, update,
}
use sentinel_rtos.Kernel.State.{
  Kernel, semaphore_queue, set_semaphore, os_success, os_timeout, max_tasks, os_enter_critical,
  os_exit_critical,
}
use sentinel_rtos.Kernel.WaitQueue.{pick_waiter}
use sentinel_rtos.Kernel.Run.{Run, M, done, fault, yield_then}
use sentinel_rtos.Kernel.Blocking.{wake_task}
use sentinel_rtos.Kernel.Mutex.{wait_on}

unfoldable pub os_semaphore_init : ℕ → ℕ → ℕ → Kernel → Kernel
os_semaphore_init s initial max_count k = set_semaphore k s (record {
  count = initial;
  max_count = max_count;
  waiters = record (k.semaphores s).waiters { wait_count = 0 };
})

unfoldable pub os_semaphore_acquire : ℕ → ℕ → M ℕ
os_semaphore_acquire s timeout k =
    let (primask, k1) = os_enter_critical k in
    let x = k1.semaphores s in
    if ltb 0 x.count
    then done os_success
        (os_exit_critical primask (set_semaphore k1 s (record x { count = x.count - 1 })))
    else if timeout == 0 || not k1.kernel_running
    then done os_timeout (os_exit_critical primask k1)
    else elim k1.current_tcb [
      | none ↦ fault
      | some c ↦ wait_on (semaphore_queue s) max_tasks timeout primask c k1
    ]

unfoldable pub os_semaphore_release : ℕ → M (Unit {0})
os_semaphore_release s k =
    let (primask, k1) = os_enter_critical k in
    let x = k1.semaphores s in
    elim (pick_waiter k1.os_tasks x.waiters) [
      | some next ↦ yield_then (done tt) (os_exit_critical primask (wake_task k1 next))
      | none ↦ done tt (
          os_exit_critical primask (
            if ltb x.count x.max_count
            then set_semaphore k1 s (record x { count = x.count + 1 })
            else k1))
    ]
