-- ===== src/Kernel/Semaphore/Handoff.antt =====
-- `os_semaphore_release` of Kernel/os_kernel.c with waiters: the token goes straight to one of them.
use sentinel_rtos.Base.{ℕ, ◌<◌, ◌≡◌, refl, none, arith}
use sentinel_rtos.Base.Occurs.{erase}
use sentinel_rtos.Kernel.State.{
  Kernel, semaphore_queue, ready, os_success, os_enter_critical, os_exit_critical, os_yield,
}
use sentinel_rtos.Kernel.WaitQueue.Choice.{IsFirstHighest, pick_waiter_finds, pick_waiter-occurs}
use sentinel_rtos.Kernel.Run.{done, yielded}
use sentinel_rtos.Kernel.Blocking.{wake_task}
use sentinel_rtos.Kernel.Semaphore.{os_semaphore_release}
use sentinel_rtos.Kernel.Invariant.{IsValid, waiters_of}
use sentinel_rtos.Kernel.Invariant.Queues.{os_tasks-wake_task, waiters_of-wake_waiter}
use sentinel_rtos.Kernel.Invariant.Frame.{wake_task-SameObjects}
use sentinel_rtos.Kernel.Invariant.Writes.{os_enter_critical-IsValid}

-- The release of a semaphore with waiters in a well-formed state wakes the first of those with the
-- highest priority: it is READY with OS_SUCCESS and in no queue, the others wait on in their order,
-- the count stays, and PRIMASK is as it was.
pub os_semaphore_release_hands_over :
    (k : Kernel) (s : ℕ)
    → IsValid k
    → 0 < (k.semaphores s).waiters.wait_count
    → (k' : Kernel) × (next : ℕ) × (os_semaphore_release s k ≡ yielded k' (done tt))
      × IsFirstHighest k.os_tasks (waiters_of k (semaphore_queue s)) next
      × ((k'.os_tasks next).state ≡ ready)
      × ((k'.os_tasks next).wait_result ≡ os_success)
      × ((k'.os_tasks next).wait_queue ≡ none)
      × (waiters_of k' (semaphore_queue s) ≡ erase next (waiters_of k (semaphore_queue s)))
      × ((k'.semaphores s).count ≡ (k.semaphores s).count)
      × (k'.primask ≡ k.primask)
unfolding os_semaphore_release os_enter_critical os_exit_critical os_yield
os_semaphore_release_hands_over k s v h =
    let (next, picked, best) = pick_waiter_finds k.os_tasks (k.semaphores s).waiters h in
    let k1 = record k { primask = 1 } in
    let v1 = os_enter_critical-IsValid k v in
    (
      os_yield (os_exit_critical k.primask (wake_task k1 next)),
      next,
      rw (picked, os_semaphore_release) refl,
      best,
      ground (arith, os_tasks-wake_task k1 next next),
      ground (arith, os_tasks-wake_task k1 next next),
      ground (arith, os_tasks-wake_task k1 next next),
      waiters_of-wake_waiter k1 next (semaphore_queue s) v1.agree
          (pick_waiter-occurs k.os_tasks (k.semaphores s).waiters next picked),
      (wake_task-SameObjects k1 next).tokens s,
      refl,
    )
