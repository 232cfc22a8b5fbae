-- ===== src/Kernel/Mutex.antt =====
-- The mutex of Kernel/os_kernel.c, with priority inheritance and direct handoff.
pub mod Branches
pub mod Inheritance
pub mod Handoff
use sentinel_rtos.Base.{
  ℕ, ◌||◌, not, true, false, Option, none, some, ◌==◌, ltb, if◌then◌else◌, same_pointer, update,
}
use sentinel_rtos.Kernel.State.{
  Kernel, WaitRef, mutex_queue, set_task, set_mutex, os_success, os_timeout, os_fail,
  max_waiting_tasks, os_enter_critical, os_exit_critical,
}
use sentinel_rtos.Kernel.WaitQueue.{pick_waiter}
use sentinel_rtos.Kernel.Run.{Run, M, done, fault, yield_then}
use sentinel_rtos.Kernel.Blocking.{block_current, wake_task, resume}

unfoldable pub os_mutex_init : ℕ → Kernel → Kernel
os_mutex_init m k =
    set_mutex k m
      (record { lock = 0; owner = none; waiters = record (k.mutexes m).waiters { wait_count = 0 } })

-- Task `c` lends its priority to the owner `o`.
unfoldable pub donate : Kernel → ℕ → ℕ → Kernel
donate k c o =
    if ltb (k.os_tasks o).current_priority (k.os_tasks c).current_priority
    then set_task k o (record (k.os_tasks o) { current_priority = (k.os_tasks c).current_priority })
    else k

-- `block_current`, then the switch and the result, or OS_FAIL from a full queue.
unfoldable pub wait_on : WaitRef → ℕ → ℕ → ℕ → ℕ → M ℕ
wait_on r max timeout primask c k =
    let (parked, k1) = block_current k c r max timeout in
    if parked
    then yield_then resume (os_exit_critical primask k1)
    else done os_fail (os_exit_critical primask k1)

-- The contended part of `os_mutex_acquire`.
unfoldable pub contend : ℕ → ℕ → ℕ → M ℕ
contend m timeout primask k = elim k.current_tcb [
  | none ↦ fault
  | some c ↦ elim (k.mutexes m).owner [
    | none ↦ fault
    | some o ↦ wait_on (mutex_queue m) max_waiting_tasks timeout primask c (donate k c o)
  ]
]

unfoldable pub os_mutex_acquire : ℕ → ℕ → M ℕ
os_mutex_acquire m timeout k =
    let (primask, k1) = os_enter_critical k in
    let x = k1.mutexes m in
    if x.lock == 0
    then done os_success
        (os_exit_critical primask (set_mutex k1 m (record x { lock = 1; owner = k1.current_tcb })))
    else if same_pointer x.owner k1.current_tcb
    then done os_fail (os_exit_critical primask k1)
    else if timeout == 0 || not k1.kernel_running
    then done os_timeout (os_exit_critical primask k1)
    else contend m timeout primask k1

-- The owner's priority falls back to its base.
unfoldable pub drop_donation : Kernel → ℕ → Kernel
drop_donation k m = elim (k.mutexes m).owner [
  | none ↦ k
  | some o ↦
      set_task k o (record (k.os_tasks o) { current_priority = (k.os_tasks o).base_priority })
]

-- The choice of the next owner, which the mutex goes to without being unlocked.
unfoldable pub hand_over : ℕ → ℕ → M (Unit {0})
hand_over m primask k = elim (pick_waiter k.os_tasks (k.mutexes m).waiters) [
  | some next ↦
      let k1 = set_mutex k m (record (k.mutexes m) { owner = some next }) in
      yield_then (done tt) (os_exit_critical primask (wake_task k1 next))
  | none ↦
      done tt
        (os_exit_critical primask (set_mutex k m (record (k.mutexes m) { lock = 0; owner = none })))
]

unfoldable pub os_mutex_release : ℕ → M (Unit {0})
os_mutex_release m k =
    let (primask, k1) = os_enter_critical k in hand_over m primask (drop_donation k1 m)
