-- ===== src/Kernel/Mutex/Handoff.antt =====
-- `os_mutex_release` of Kernel/os_kernel.c with waiters: the mutex goes straight to one of them.
use sentinel_rtos.Base.{
  ℕ, ◌<◌, ◌≤◌, ◌≡◌, refl, subst, ap, ◌∙◌, Option, none, some, ◌==◌, if◌then◌else◌, arith,
}
use sentinel_rtos.Base.Occurs.{occurs, erase}
use sentinel_rtos.Kernel.State.{
  Kernel, Mutex, mutex_queue, semaphore_queue, ready, os_success, set_mutex, os_enter_critical,
  os_exit_critical, os_yield,
}
use sentinel_rtos.Kernel.WaitQueue.{waiting, pick_waiter}
use sentinel_rtos.Kernel.WaitQueue.Choice.{
  IsFirstHighest, IsFirstHighest-ext, pick_waiter_finds, pick_waiter-occurs,
}
use sentinel_rtos.Kernel.Run.{done, yielded}
use sentinel_rtos.Kernel.Blocking.{wake_task}
use sentinel_rtos.Kernel.Mutex.{drop_donation, hand_over, os_mutex_release}
use sentinel_rtos.Kernel.Mutex.Branches.{mutexes-drop_donation}
use sentinel_rtos.Kernel.Invariant.{IsValid, QueuesAgree, waiters_of}
use sentinel_rtos.Kernel.Invariant.Queues.{os_tasks-wake_task, waiters_of-wake_waiter}
use sentinel_rtos.Kernel.Invariant.Frame.{wake_task-SameObjects}
use sentinel_rtos.Kernel.Invariant.Writes.{os_enter_critical-IsValid}
use sentinel_rtos.Kernel.Safety.Locks.{drop_donation-IsValid}

set_owner-QueuesAgree :
    (k : Kernel) (m : ℕ) (o : Option ℕ)
    → QueuesAgree k
    → QueuesAgree (set_mutex k m (record (k.mutexes m) { owner = o }))
set_owner-QueuesAgree k m o v (mutex_queue n) t = ground (arith, v (mutex_queue n) t)
set_owner-QueuesAgree k m o v (semaphore_queue s) t = v (semaphore_queue s) t

set_owner-waiters :
    (k : Kernel) (m : ℕ) (o : Option ℕ)
    → waiters_of (set_mutex k m (record (k.mutexes m) { owner = o })) (mutex_queue m)
      ≡ waiters_of k (mutex_queue m)
set_owner-waiters k m o = ground arith

-- The owner's TCB after its donation is dropped, and the others.
drop_donation_tasks :
    (k : Kernel) (m o t : ℕ)
    → (k.mutexes m).owner ≡ some o
    → (drop_donation k m).os_tasks t ≡ (
        if t == o
        then record (k.os_tasks o) { current_priority = (k.os_tasks o).base_priority }
        else k.os_tasks t)
unfolding drop_donation
drop_donation_tasks k m o t e = ground arith

module _ (k : Kernel) (m next : ℕ) where
  abbrev handed : Kernel
  handed = set_mutex k m (record (k.mutexes m) { owner = some next })

  abbrev after_handover : ℕ → Kernel
  after_handover primask = os_yield (os_exit_critical primask (wake_task handed next))

  -- The mutex goes to the waiter that was picked.
  hand_over_lem :
      (primask : ℕ)
      → pick_waiter k.os_tasks (k.mutexes m).waiters ≡ some next
      → hand_over m primask k ≡ yielded (after_handover primask) (done tt)
  unfolding hand_over
  hand_over_lem primask e = rw (e, hand_over) refl

  handed_waiters :
      (primask : ℕ)
      → QueuesAgree k
      → 1 ≤ occurs next (waiters_of k (mutex_queue m))
      → waiters_of (after_handover primask) (mutex_queue m)
        ≡ erase next (waiters_of k (mutex_queue m))
  unfolding os_exit_critical os_yield
  handed_waiters primask v h =
      waiters_of-wake_waiter handed next (mutex_queue m) (set_owner-QueuesAgree k m (some next) v)
        (rw (set_owner-waiters k m (some next)) h)
      ∙ ap (erase next) (set_owner-waiters k m (some next))

  handed_owner :
      (primask : ℕ)
      → (((after_handover primask).mutexes m).owner ≡ some next)
        × (((after_handover primask).mutexes m).lock ≡ (k.mutexes m).lock)
        × ((after_handover primask).primask ≡ primask)
  unfolding os_exit_critical os_yield
  handed_owner primask = (
    (wake_task-SameObjects handed next).owners m ∙ ground arith,
    (wake_task-SameObjects handed next).locks m ∙ ground arith,
    refl,
  )

  handed_tasks :
      (primask t : ℕ) → (after_handover primask).os_tasks t ≡ (wake_task handed next).os_tasks t
  unfolding os_exit_critical os_yield
  handed_tasks primask t = refl

-- The release of a mutex with waiters, in a well-formed state where task `o` owns it, hands it to the
-- first of the waiters with the highest priority without unlocking it. The new owner is READY with
-- OS_SUCCESS, in no queue, and at least as urgent as those left waiting, which keep their order; the
-- old owner is back at its base priority; and PRIMASK is as it was.
pub os_mutex_release_hands_over :
    (k : Kernel) (m o : ℕ)
    → IsValid k
    → (k.mutexes m).owner ≡ some o
    → 0 < (k.mutexes m).waiters.wait_count
    → (k' : Kernel) × (next : ℕ) × (os_mutex_release m k ≡ yielded k' (done tt))
      × IsFirstHighest k'.os_tasks (waiters_of k (mutex_queue m)) next
      × ((k'.mutexes m).owner ≡ some next)
      × ((k'.mutexes m).lock ≡ (k.mutexes m).lock)
      × ((k'.os_tasks next).state ≡ ready)
      × ((k'.os_tasks next).wait_result ≡ os_success)
      × ((k'.os_tasks next).wait_queue ≡ none)
      × (waiters_of k' (mutex_queue m) ≡ erase next (waiters_of k (mutex_queue m)))
      × ((k'.os_tasks o).current_priority ≡ (k.os_tasks o).base_priority)
      × (k'.primask ≡ k.primask)
unfolding os_mutex_release os_enter_critical
os_mutex_release_hands_over k m o v own h =
    let k1 = record k { primask = 1 } in
    let kd = drop_donation k1 m in
    let vd = drop_donation-IsValid k1 m (os_enter_critical-IsValid k v) in
    let queues : kd.mutexes ≡ k.mutexes = mutexes-drop_donation k1 m in
    let same : waiters_of kd (mutex_queue m) ≡ waiters_of k (mutex_queue m) =
      ap (λ (f : ℕ → Mutex). waiting (f m).waiters) queues in
    let (next, picked, best) =
      pick_waiter_finds kd.os_tasks (kd.mutexes m).waiters (ground (arith, queues)) in
    let owned = handed_owner kd m next k.primask in
    let tasks = handed_tasks kd m next k.primask in
    (
      after_handover kd m next k.primask,
      next,
      hand_over_lem kd m next k.primask picked,
      subst (λ l. IsFirstHighest (after_handover kd m next k.primask).os_tasks l next) same
          (IsFirstHighest-ext kd.os_tasks _ (waiters_of kd (mutex_queue m)) next
            (λ t. ground (arith, tasks t, os_tasks-wake_task (handed kd m next) next t)) best),
      owned.0,
      owned.1 ∙ ap (λ (f : ℕ → Mutex). (f m).lock) queues,
      ground (arith, tasks next, os_tasks-wake_task (handed kd m next) next next),
      ground (arith, tasks next, os_tasks-wake_task (handed kd m next) next next),
      ground (arith, tasks next, os_tasks-wake_task (handed kd m next) next next),
      handed_waiters kd m next k.primask vd.agree
            (pick_waiter-occurs kd.os_tasks (kd.mutexes m).waiters next picked)
          ∙ ap (erase next) same,
      ground (
        arith,
        tasks o,
        os_tasks-wake_task (handed kd m next) next o,
        drop_donation_tasks k1 m o o own,
      ),
      owned.2,
    )
