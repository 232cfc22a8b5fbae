-- ===== src/Kernel/Safety/Locks.antt =====
-- The mutex calls of Kernel/os_kernel.c keep the state well formed.
use sentinel_rtos.Base.{
  ℕ, ◌≡◌, ◌≢◌, refl, inl, inr, some, ◌==◌, ltb, not, ◌||◌, arith, Option-cases, Bool-cases,
  same_pointer,
}
use sentinel_rtos.Kernel.State.{Kernel, WaitRef, mutex_queue, os_enter_critical, max_waiting_tasks}
use sentinel_rtos.Kernel.WaitQueue.{pick_waiter}
use sentinel_rtos.Kernel.WaitQueue.Choice.{pick_waiter-occurs, pick_waiter-none, pick_waiter-some}
use sentinel_rtos.Kernel.Blocking.{block_current}
use sentinel_rtos.Kernel.Mutex.{
  donate, wait_on, contend, os_mutex_acquire, drop_donation, hand_over, os_mutex_release,
}
use sentinel_rtos.Kernel.Invariant.{places, IsValid}
use sentinel_rtos.Kernel.Invariant.Writes.{
  os_enter_critical-IsValid, os_exit_critical-IsValid, os_yield-IsValid, IsValid-set_mutex,
  IsValid-set_task, IsValid-block_current, IsValid-wake_task, Contended,
}
use sentinel_rtos.Kernel.Safety.{Stops, Runs}

donate-IsValid : (k : Kernel) (c o : ℕ) → IsValid k → IsValid (donate k c o)
unfolding donate
donate-IsValid k c o v =
    elim (Bool-cases (ltb (k.os_tasks o).current_priority (k.os_tasks c).current_priority)) [
      | inl e ↦ rw e (IsValid-set_task k o _ refl (ground (arith, v.tcbs o)) v)
      | inr e ↦ rw e v
    ]

pub wait_on-IsValid :
    (k : Kernel) (r : WaitRef) (max timeout primask c : ℕ)
    → Runs k c
    → Contended k r max
    → IsValid k
    → Stops IsValid (wait_on r max timeout primask c k)
unfolding wait_on
wait_on-IsValid k r max timeout primask c run con v =
    elim (Bool-cases (block_current k c r max timeout).0) [
      | inl e ↦ rw (e, wait_on) (os_yield-IsValid _ (os_exit_critical-IsValid primask _ after))
      | inr e ↦ rw (e, wait_on) (os_exit_critical-IsValid primask _ after)
    ]
  where
    after : IsValid (block_current k c r max timeout).1
    after = IsValid-block_current k c r max timeout run.is_current run.is_running con v

donate-mutexes : (k : Kernel) (c o : ℕ) → (donate k c o).mutexes ≡ k.mutexes
unfolding donate
donate-mutexes k c o = ground arith

donate-Runs : (k : Kernel) (c o : ℕ) → Runs k c → Runs (donate k c o) c
unfolding donate
donate-Runs k c o run = ground arith

contend-IsValid :
    (k : Kernel) (m timeout primask c : ℕ)
    → Runs k c
    → (k.mutexes m).lock ≢ 0
    → IsValid k
    → Stops IsValid (contend m timeout primask k)
unfolding contend
contend-IsValid k m timeout primask c run held v =
    rw (run.is_current, contend, owned.1)
      (wait_on-IsValid (donate k c owned.0) (mutex_queue m) max_waiting_tasks timeout primask c
        (donate-Runs k c owned.0 run) (ground (arith, donate-mutexes k c owned.0))
        (donate-IsValid k c owned.0 v))
  where
    owned : (o : ℕ) × ((k.mutexes m).owner ≡ some o)
    owned = (v.mutexes m).held (ground (arith, v.mutexes m))

pub drop_donation-IsValid : (k : Kernel) (m : ℕ) → IsValid k → IsValid (drop_donation k m)
unfolding drop_donation
drop_donation-IsValid k m v = elim (Option-cases (k.mutexes m).owner) [
  | inl e ↦ rw (e, drop_donation) v
  | inr (o, e) ↦ rw (e, drop_donation) (IsValid-set_task k o _ refl (ground (arith, v.tcbs o)) v)
]

-- A running task's `os_mutex_acquire` neither faults nor spins, and leaves the state well formed.
pub os_mutex_acquire-IsValid :
    (k : Kernel) (m timeout c : ℕ)
    → Runs k c
    → IsValid k
    → Stops IsValid (os_mutex_acquire m timeout k)
unfolding os_mutex_acquire os_enter_critical
os_mutex_acquire-IsValid k m timeout c run v = elim (Bool-cases ((k.mutexes m).lock == 0)) [
  | inl e ↦ rw e (
      os_exit_critical-IsValid k.primask _ (
        IsValid-set_mutex k1 m _ refl
          (rw run.is_current (ground (arith, v.mutexes m, v.current_in))) entered))
  | inr e ↦ rw e (elim (Bool-cases (same_pointer (k.mutexes m).owner k.current_tcb)) [
    | inl own ↦ rw own (os_exit_critical-IsValid k.primask k1 entered)
    | inr other ↦ rw other (elim (Bool-cases (timeout == 0 || not k.kernel_running)) [
      | inl poll ↦ rw poll (os_exit_critical-IsValid k.primask k1 entered)
      | inr waits ↦ rw waits (
          contend-IsValid k1 m timeout k.primask c
            (record { is_current = run.is_current; is_running = run.is_running }) (ground arith)
            entered)
    ])
  ])
]
  where
    k1 : Kernel
    k1 = record k { primask = 1 }

    entered : IsValid k1
    entered = os_enter_critical-IsValid k v

hand_over-IsValid : (k : Kernel) (m primask : ℕ) → IsValid k → Stops IsValid (hand_over m primask k)
unfolding hand_over places
hand_over-IsValid k m primask v =
    elim (Option-cases (pick_waiter k.os_tasks (k.mutexes m).waiters)) [
      | inl e ↦
          rw (e, hand_over)
            (os_exit_critical-IsValid primask _ (
              IsValid-set_mutex k m _ refl
                (ground (arith, pick_waiter-none k.os_tasks (k.mutexes m).waiters e)) v))
      | inr (next, e) ↦
          rw (e, hand_over)
            (os_yield-IsValid _ (
              os_exit_critical-IsValid primask _ (
                IsValid-wake_task _ next (
                  IsValid-set_mutex k m _ refl
                    (ground (
                      arith,
                      v.mutexes m,
                      v.tcbs next,
                      v.agree (mutex_queue m) next,
                      pick_waiter-occurs k.os_tasks (k.mutexes m).waiters next e,
                      pick_waiter-some k.os_tasks (k.mutexes m).waiters next e,
                    ))
                    v))))
    ]

-- `os_mutex_release` in a well-formed state neither faults nor spins, and leaves the state well
-- formed.
pub os_mutex_release-IsValid :
    (k : Kernel) (m : ℕ) → IsValid k → Stops IsValid (os_mutex_release m k)
unfolding os_mutex_release os_enter_critical
os_mutex_release-IsValid k m v =
    hand_over-IsValid _ m k.primask
      (drop_donation-IsValid (record k { primask = 1 }) m (os_enter_critical-IsValid k v))
