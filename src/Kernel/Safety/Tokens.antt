-- ===== src/Kernel/Safety/Tokens.antt =====
-- The semaphore calls of Kernel/os_kernel.c keep the state well formed.
use sentinel_rtos.Base.{ℕ, refl, ◌||◌, not, inl, inr, ltb, ◌==◌, arith, Option-cases, Bool-cases}
use sentinel_rtos.Kernel.State.{Kernel, semaphore_queue, os_enter_critical, max_tasks}
use sentinel_rtos.Kernel.WaitQueue.{pick_waiter}
use sentinel_rtos.Kernel.WaitQueue.Choice.{pick_waiter-none}
use sentinel_rtos.Kernel.Semaphore.{os_semaphore_acquire, os_semaphore_release}
use sentinel_rtos.Kernel.Invariant.{IsValid}
use sentinel_rtos.Kernel.Invariant.Writes.{
  os_enter_critical-IsValid, os_exit_critical-IsValid, os_yield-IsValid, IsValid-set_semaphore,
  IsValid-wake_task,
}
use sentinel_rtos.Kernel.Safety.{Stops, Runs}
use sentinel_rtos.Kernel.Safety.Locks.{wait_on-IsValid}

-- A running task's `os_semaphore_acquire` neither faults nor spins, and leaves the state well
-- formed.
pub os_semaphore_acquire-IsValid :
    (k : Kernel) (s timeout c : ℕ)
    → Runs k c
    → IsValid k
    → Stops IsValid (os_semaphore_acquire s timeout k)
unfolding os_semaphore_acquire os_enter_critical
os_semaphore_acquire-IsValid k s timeout c run v =
    elim (Bool-cases (ltb 0 (k.semaphores s).count)) [
      | inl e ↦ rw e (
          os_exit_critical-IsValid k.primask _
            (IsValid-set_semaphore k1 s _ refl (ground (arith, v.semaphores s)) entered))
      | inr e ↦ rw e (elim (Bool-cases (timeout == 0 || not k.kernel_running)) [
        | inl poll ↦ rw poll (os_exit_critical-IsValid k.primask k1 entered)
        | inr waits ↦
            rw (waits, run.is_current)
              (wait_on-IsValid k1 (semaphore_queue s) max_tasks timeout k.primask c
                (record { is_current = run.is_current; is_running = run.is_running }) (ground arith)
                entered)
      ])
    ]
  where
    k1 : Kernel
    k1 = record k { primask = 1 }

    entered : IsValid k1
    entered = os_enter_critical-IsValid k v

-- `os_semaphore_release` in a well-formed state, called from a task or a handler, neither faults nor
-- spins, and leaves the state well formed.
pub os_semaphore_release-IsValid :
    (k : Kernel) (s : ℕ) → IsValid k → Stops IsValid (os_semaphore_release s k)
unfolding os_semaphore_release os_enter_critical
os_semaphore_release-IsValid k s v =
    elim (Option-cases (pick_waiter k.os_tasks (k.semaphores s).waiters)) [
      | inl e ↦
          rw (e, os_semaphore_release)
            (os_exit_critical-IsValid k.primask _
              (elim (Bool-cases (ltb (k.semaphores s).count (k.semaphores s).max_count)) [
                | inl less ↦ rw less (
                    IsValid-set_semaphore k1 s _ refl
                      (ground (
                        arith,
                        v.semaphores s,
                        pick_waiter-none k.os_tasks (k.semaphores s).waiters e,
                      ))
                      entered)
                | inr full ↦ rw full entered
              ]))
      | inr (next, e) ↦
          rw (e, os_semaphore_release)
            (os_yield-IsValid _
              (os_exit_critical-IsValid k.primask _ (IsValid-wake_task k1 next entered)))
    ]
  where
    k1 : Kernel
    k1 = record k { primask = 1 }

    entered : IsValid k1
    entered = os_enter_critical-IsValid k v
