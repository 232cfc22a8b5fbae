-- ===== src/Kernel/Mutex/Branches.antt =====
-- The outcomes of `os_mutex_acquire` and `os_mutex_release` of Kernel/os_kernel.c, one by one.
use sentinel_rtos.Base.{ℕ, update, ◌≡◌, refl, ap, ◌∙◌, none, ◌==◌, if◌then◌else◌, arith}
use sentinel_rtos.Kernel.State.{
  Kernel, os_success, os_fail, set_mutex, os_enter_critical, os_exit_critical,
}
use sentinel_rtos.Kernel.WaitQueue.Choice.{pick_waiter_empty}
use sentinel_rtos.Kernel.Run.{done}
use sentinel_rtos.Kernel.Mutex.{os_mutex_acquire, os_mutex_release, drop_donation, hand_over}

module _ (k : Kernel) (m : ℕ) where
  -- A free mutex is taken, whatever the timeout.
  pub acquire_free :
      (timeout : ℕ)
      → (k.mutexes m).lock ≡ 0
      → os_mutex_acquire m timeout k
        ≡ done os_success (set_mutex k m (record (k.mutexes m) { lock = 1; owner = k.current_tcb }))
  unfolding os_mutex_acquire os_enter_critical os_exit_critical
  acquire_free timeout e = rw (e, ◌==◌, if◌then◌else◌)

  -- The owner is refused its own mutex.
  pub acquire_own :
      (timeout : ℕ)
      → (k.mutexes m).lock ≡ 1
      → (k.mutexes m).owner ≡ k.current_tcb
      → os_mutex_acquire m timeout k ≡ done os_fail k
  unfolding os_mutex_acquire os_enter_critical os_exit_critical
  acquire_own timeout held own = ground arith

  pub drop_donation-masked :
      (primask : ℕ)
      → drop_donation (record k { primask = primask }) m
        ≡ record (drop_donation k m) { primask = primask }
  unfolding drop_donation
  drop_donation-masked primask = ground arith

  pub mutexes-drop_donation : (drop_donation k m).mutexes ≡ k.mutexes
  unfolding drop_donation
  mutexes-drop_donation = ground arith

  pub primask-drop_donation : (drop_donation k m).primask ≡ k.primask
  unfolding drop_donation
  primask-drop_donation = ground arith

  hand_over_idle :
      (primask : ℕ)
      → (k.mutexes m).waiters.wait_count ≡ 0
      → hand_over m primask k
        ≡ done tt (
            os_exit_critical primask
              (set_mutex k m (record (k.mutexes m) { lock = 0; owner = none })))
  unfolding hand_over
  hand_over_idle primask e =
      rw (pick_waiter_empty k.os_tasks (k.mutexes m).waiters e, hand_over) refl

-- Dropping a donation writes TCBs only.
pub drop_donation_frame :
    (k : Kernel) (m : ℕ) → drop_donation k m ≡ record k { os_tasks = (drop_donation k m).os_tasks }
unfolding drop_donation
drop_donation_frame k m = ground arith

-- The release of a mutex for which nobody waits frees it.
pub release_idle :
    (k : Kernel) (m : ℕ)
    → (k.mutexes m).waiters.wait_count ≡ 0
    → os_mutex_release m k
      ≡ done tt (record k {
        os_tasks = (drop_donation k m).os_tasks;
        mutexes = update k.mutexes m (record (k.mutexes m) { lock = 0; owner = none });
      })
unfolding os_mutex_release os_enter_critical os_exit_critical
release_idle k m e = rw (drop_donation-masked k m 1) (
    hand_over_idle (record (drop_donation k m) { primask = 1 }) m k.primask
      (ground (arith, mutexes-drop_donation k m))
    ∙ ap
        (λ (d : Kernel). done tt (
          os_exit_critical k.primask (
            set_mutex (record d { primask = 1 }) m
              (record (d.mutexes m) { lock = 0; owner = none }))))
        (drop_donation_frame k m))
