-- ===== src/Kernel/Semaphore/Branches.antt =====
-- The outcomes of the semaphore calls of Kernel/os_kernel.c, one by one.
use sentinel_rtos.Base.{
  ℕ, ◌+◌, ◌-◌, ◌<◌, ◌≡◌, ◌≢◌, ◌∙◌, true, some, ltb, inl, inr, Bool-cases, if◌then◌else◌, arith,
}
use sentinel_rtos.Kernel.State.{
  Kernel, semaphore_queue, set_task, os_yield, max_tasks, os_success, os_timeout, set_semaphore,
  os_enter_critical, os_exit_critical,
}
use sentinel_rtos.Kernel.WaitQueue.Choice.{pick_waiter_empty}
use sentinel_rtos.Kernel.WaitQueue.{park}
use sentinel_rtos.Kernel.Blocking.{block_current, parked_tcb, resume}
use sentinel_rtos.Kernel.Mutex.{wait_on}
use sentinel_rtos.Kernel.Run.{done, yielded}
use sentinel_rtos.Kernel.Semaphore.{os_semaphore_acquire, os_semaphore_release}

module _ (k : Kernel) (s : ℕ) where
  -- A token is taken, whatever the timeout.
  pub acquire_token :
      (timeout : ℕ)
      → 0 < (k.semaphores s).count
      → os_semaphore_acquire s timeout k
        ≡ done os_success
            (set_semaphore k s (record (k.semaphores s) { count = (k.semaphores s).count - 1 }))
  unfolding os_semaphore_acquire os_enter_critical os_exit_critical
  acquire_token timeout h = ground arith

  -- A poll of an empty semaphore changes nothing.
  pub acquire_poll : (k.semaphores s).count ≡ 0 → os_semaphore_acquire s 0 k ≡ done os_timeout k
  unfolding os_semaphore_acquire os_enter_critical os_exit_critical
  acquire_poll e = ground arith

  -- A release for which nobody waits adds a token, up to the maximum.
  pub release_idle :
      (k.semaphores s).waiters.wait_count ≡ 0
      → os_semaphore_release s k
        ≡ done tt (
            if ltb (k.semaphores s).count (k.semaphores s).max_count
            then set_semaphore k s (record (k.semaphores s) { count = (k.semaphores s).count + 1 })
            else k)
  unfolding os_semaphore_release os_enter_critical os_exit_critical
  release_idle e =
      rw (pick_waiter_empty k.os_tasks (k.semaphores s).waiters e, os_semaphore_release)
        (elim (Bool-cases (ltb (k.semaphores s).count (k.semaphores s).max_count)) [
          | inl less ↦ rw less
          | inr full ↦ rw full
        ])

  pub release_room :
      (k.semaphores s).waiters.wait_count ≡ 0
      → (k.semaphores s).count < (k.semaphores s).max_count
      → os_semaphore_release s k
        ≡ done tt
            (set_semaphore k s (record (k.semaphores s) { count = (k.semaphores s).count + 1 }))
  release_room e h = release_idle e ∙ ground arith

  -- The state in which task `c` waits in the semaphore's queue.
  abbrev pub waiting_for : ℕ → ℕ → Kernel
  waiting_for c timeout = os_yield (
      set_task
        (set_semaphore k s (record (k.semaphores s) { waiters = park (k.semaphores s).waiters c }))
        c (parked_tcb (k.os_tasks c) (semaphore_queue s) timeout))

  -- Without a token the running task waits, if it has time and there is room.
  pub acquire_waits :
      (c timeout : ℕ)
      → k.kernel_running ≡ true
      → k.current_tcb ≡ some c
      → (k.semaphores s).count ≡ 0
      → (k.semaphores s).waiters.wait_count < max_tasks
      → timeout ≢ 0
      → os_semaphore_acquire s timeout k ≡ yielded (waiting_for c timeout) resume
  unfolding os_semaphore_acquire os_enter_critical os_exit_critical os_yield wait_on block_current
  acquire_waits c timeout live current none_left room some_time = ground arith
