-- ===== src/Kernel/Masking.antt =====
-- The interrupt mask across the calls of Kernel/os_kernel.c.
use sentinel_rtos.Base.{
  ℕ, ◌≡◌, refl, inl, inr, ◌||◌, not, some, ◌==◌, ltb, same_pointer, arith, Bool-cases, Option-cases,
}
use sentinel_rtos.Kernel.State.{
  Kernel, WaitRef, mutex_queue, semaphore_queue, os_enter_critical, os_exit_critical, os_yield,
  max_waiting_tasks, max_tasks,
}
use sentinel_rtos.Kernel.WaitQueue.{pick_waiter}
use sentinel_rtos.Kernel.Blocking.{block_current}
use sentinel_rtos.Kernel.Mutex.{
  donate, wait_on, contend, os_mutex_acquire, drop_donation, hand_over, os_mutex_release,
}
use sentinel_rtos.Kernel.Semaphore.{os_semaphore_acquire, os_semaphore_release}
use sentinel_rtos.Kernel.Tick.{os_delay}
use sentinel_rtos.Kernel.Invariant.{IsValid}
use sentinel_rtos.Kernel.Safety.{Stops, Runs}

-- PRIMASK is `primask`.
abbrev pub Masked : ℕ → Kernel → Type 0
Masked primask k = k.primask ≡ primask

wait_on-Masked :
    (k : Kernel) (r : WaitRef) (max timeout primask c : ℕ)
    → Stops (Masked primask) (wait_on r max timeout primask c k)
unfolding wait_on os_exit_critical os_yield
wait_on-Masked k r max timeout primask c = elim (Bool-cases (block_current k c r max timeout).0) [
  | inl e ↦ rw (e, wait_on) refl
  | inr e ↦ rw (e, wait_on) refl
]

contend-Masked :
    (k : Kernel) (m timeout primask c o : ℕ)
    → k.current_tcb ≡ some c
    → (k.mutexes m).owner ≡ some o
    → Stops (Masked primask) (contend m timeout primask k)
unfolding contend
contend-Masked k m timeout primask c o cur own =
    rw (cur, contend, own)
      (wait_on-Masked (donate k c o) (mutex_queue m) max_waiting_tasks timeout primask c)

acquire-Masked :
    (k : Kernel) (m timeout c : ℕ)
    → IsValid k
    → Runs k c
    → Stops (Masked k.primask) (os_mutex_acquire m timeout k)
unfolding os_mutex_acquire os_enter_critical os_exit_critical
acquire-Masked k m timeout c v run = elim (Bool-cases ((k.mutexes m).lock == 0)) [
  | inl e ↦ rw e refl
  | inr e ↦ rw e (elim (Bool-cases (same_pointer (k.mutexes m).owner k.current_tcb)) [
    | inl own ↦ rw own refl
    | inr other ↦ rw other (elim (Bool-cases (timeout == 0 || not k.kernel_running)) [
      | inl poll ↦ rw poll refl
      | inr waits ↦
          let held : (k.mutexes m).lock ≡ 1 = ground (arith, v.mutexes m) in
          let (o, own) = (v.mutexes m).held held in
          rw waits
            (contend-Masked (record k { primask = 1 }) m timeout k.primask c o run.is_current own)
    ])
  ])
]

hand_over-Masked : (k : Kernel) (m primask : ℕ) → Stops (Masked primask) (hand_over m primask k)
unfolding hand_over os_exit_critical os_yield
hand_over-Masked k m primask = elim (Option-cases (pick_waiter k.os_tasks (k.mutexes m).waiters)) [
  | inl e ↦ rw (e, hand_over) refl
  | inr (next, e) ↦ rw (e, hand_over) refl
]

take-Masked :
    (k : Kernel) (s timeout c : ℕ)
    → Runs k c
    → Stops (Masked k.primask) (os_semaphore_acquire s timeout k)
unfolding os_semaphore_acquire os_enter_critical os_exit_critical
take-Masked k s timeout c run = elim (Bool-cases (ltb 0 (k.semaphores s).count)) [
  | inl e ↦ rw e refl
  | inr e ↦ rw e (elim (Bool-cases (timeout == 0 || not k.kernel_running)) [
    | inl poll ↦ rw poll refl
    | inr waits ↦
        rw (waits, run.is_current)
          (wait_on-Masked (record k { primask = 1 }) (semaphore_queue s) max_tasks timeout k.primask
            c)
  ])
]

give-Masked : (k : Kernel) (s : ℕ) → Stops (Masked k.primask) (os_semaphore_release s k)
unfolding os_semaphore_release os_enter_critical os_exit_critical os_yield
give-Masked k s = elim (Option-cases (pick_waiter k.os_tasks (k.semaphores s).waiters)) [
  | inl e ↦ rw (e, os_semaphore_release) refl
  | inr (next, e) ↦ rw (e, os_semaphore_release) refl
]

delay-Masked : (k : Kernel) (ms c : ℕ) → Runs k c → Stops (Masked k.primask) (os_delay ms k)
unfolding os_delay os_enter_critical os_exit_critical os_yield
delay-Masked k ms c run = elim (Bool-cases (not k.kernel_running || ms == 0)) [
  | inl e ↦ rw e refl
  | inr e ↦ rw (e, run.is_current) refl
]

-- In a well-formed state, every call of the running task on a mutex or a semaphore, and a delay,
-- returns, or stops at its switch, with PRIMASK as it was before the call.
pub calls_restore_primask :
    (k : Kernel) (m s timeout ms c : ℕ)
    → IsValid k
    → Runs k c
    → Stops (Masked k.primask) (os_mutex_acquire m timeout k)
      × Stops (Masked k.primask) (os_mutex_release m k)
      × Stops (Masked k.primask) (os_semaphore_acquire s timeout k)
      × Stops (Masked k.primask) (os_semaphore_release s k)
      × Stops (Masked k.primask) (os_delay ms k)
unfolding os_mutex_release os_enter_critical
calls_restore_primask k m s timeout ms c v run = (
  acquire-Masked k m timeout c v run,
  hand_over-Masked (drop_donation (record k { primask = 1 }) m) m k.primask,
  take-Masked k s timeout c run,
  give-Masked k s,
  delay-Masked k ms c run,
)
