-- ===== src/Kernel/Semaphore/Only.antt =====
-- The release of a semaphore of Kernel/os_kernel.c in whose queue one task waits.
use sentinel_rtos.Base.{ℕ, ◌≡◌, ap, ◌∙◌, none, some, arith}
use sentinel_rtos.Kernel.State.{
  Kernel, Tcb, WaitQueue, semaphore_queue, ready, os_success, set_task, set_semaphore,
  os_enter_critical, os_exit_critical, os_yield,
}
use sentinel_rtos.Kernel.Run.{done, yielded}
use sentinel_rtos.Kernel.WaitQueue.{pick_from, pick_waiter, take_out, find_slot, shift_down}
use sentinel_rtos.Kernel.Blocking.{wake_task, wait_queue_remove}
use sentinel_rtos.Kernel.Semaphore.{os_semaphore_release}

-- A queue with one task.
pub pick_only :
    (tasks : ℕ → Tcb) (q : WaitQueue) (b : ℕ)
    → q.wait_count ≡ 1
    → q.slots 0 ≡ b
    → pick_waiter tasks q ≡ some b
unfolding pick_waiter pick_from
pick_only tasks q b one only = ap (λ n. pick_from tasks q.slots 0 n none) one ∙ ap some only

pub take_out_only :
    (q : WaitQueue) (b : ℕ)
    → q.wait_count ≡ 1
    → q.slots 0 ≡ b
    → take_out q b ≡ record { slots = q.slots; wait_count = 0 }
unfolding take_out find_slot shift_down
take_out_only q b one only = ground (arith, one, only)

-- The state in which the only waiter `b` of semaphore `s` has been woken.
abbrev pub woken : Kernel → ℕ → ℕ → Kernel
woken k s b =
    let x = k.semaphores s in
    let emptied : WaitQueue = record { slots = x.waiters.slots; wait_count = 0 } in
    set_task (set_semaphore k s (record x { waiters = emptied })) b (record (k.os_tasks b) {
      wait_queue = none;
      sleep_time = 0;
      wait_result = os_success;
      state = ready;
    })

wakes :
    (k : Kernel) (s b : ℕ)
    → (k.semaphores s).waiters.wait_count ≡ 1
    → (k.semaphores s).waiters.slots 0 ≡ b
    → (k.os_tasks b).wait_queue ≡ some (semaphore_queue s)
    → wake_task k b ≡ woken k s b
unfolding wake_task wait_queue_remove
wakes k s b one only queued =
    rw (queued, wait_queue_remove, take_out_only (k.semaphores s).waiters b one only) (ground arith)

pub release_to_only :
    (k : Kernel) (s b : ℕ)
    → (k.semaphores s).waiters.wait_count ≡ 1
    → (k.semaphores s).waiters.slots 0 ≡ b
    → (k.os_tasks b).wait_queue ≡ some (semaphore_queue s)
    → os_semaphore_release s k ≡ yielded (os_yield (woken k s b)) (done tt)
unfolding os_semaphore_release os_enter_critical os_exit_critical os_yield
release_to_only k s b one only queued =
    rw (pick_only k.os_tasks (k.semaphores s).waiters b one only, os_semaphore_release)
      (ap (λ k1. yielded (os_yield (os_exit_critical k.primask k1)) (done tt))
        (wakes (record k { primask = 1 }) s b one only queued))
