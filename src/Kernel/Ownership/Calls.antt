-- ===== src/Kernel/Ownership/Calls.antt =====
-- The calls of Kernel/os_kernel.c and the owners of its mutexes.
use sentinel_rtos.Base.{
  ℕ, ◌+◌, ◌%◌, ◌≡◌, ◌≢◌, ap, inl, inr, none, some, ◌==◌, ltb, not, ◌||◌, update, arith,
  Option-cases, Bool-cases, same_pointer,
}
use sentinel_rtos.Kernel.State.{
  Kernel, Mutex, WaitRef, mutex_queue, semaphore_queue, os_enter_critical, os_exit_critical,
  os_yield, max_waiting_tasks, max_tasks, u32_mod,
}
use sentinel_rtos.Kernel.WaitQueue.{pick_waiter}
use sentinel_rtos.Kernel.Blocking.{block_current, wake_task}
use sentinel_rtos.Kernel.Mutex.{
  donate, wait_on, contend, os_mutex_acquire, drop_donation, hand_over, os_mutex_release,
}
use sentinel_rtos.Kernel.Semaphore.{os_semaphore_acquire, os_semaphore_release}
use sentinel_rtos.Kernel.Tick.{sys_tick_handler, os_delay}
use sentinel_rtos.Kernel.Tick.Effect.{ticked, os_tasks-tick_tasks, tick_tasks-SameObjects}
use sentinel_rtos.Kernel.Scheduler.{dispatch}
use sentinel_rtos.Kernel.Invariant.{places, IsValid}
use sentinel_rtos.Kernel.Invariant.Queues.{os_tasks-wake_task}
use sentinel_rtos.Kernel.Invariant.Frame.{wake_task-SameObjects}
use sentinel_rtos.Kernel.Safety.{Stops, Runs}
use sentinel_rtos.Kernel.Safety.Switch.{
  os_tasks-dispatch, os_tasks-preempt, preempt_idle, dispatch-objects,
}
use sentinel_rtos.Kernel.Ownership.{
  OwnersApart, SameOwners, SameOwners-OwnersApart, block_current-OwnersApart, wake_task-SameOwners,
}

-- The running task is in no queue.
pub Runs-nowhere : (k : Kernel) (c : ℕ) → IsValid k → Runs k c → (k.os_tasks c).wait_queue ≡ none
Runs-nowhere k c v run = ground (arith, v.tcbs c, run.is_running)

wait_on-OwnersApart :
    (k : Kernel) (r : WaitRef) (max timeout primask c : ℕ)
    → ((m : ℕ) → r ≡ mutex_queue m → (k.mutexes m).owner ≢ some c)
    → OwnersApart k
    → Stops OwnersApart (wait_on r max timeout primask c k)
unfolding wait_on os_yield os_exit_critical
wait_on-OwnersApart k r max timeout primask c foreign apart =
    elim (Bool-cases (block_current k c r max timeout).0) [
      | inl e ↦ rw (e, wait_on) (block_current-OwnersApart k c r max timeout foreign apart)
      | inr e ↦ rw (e, wait_on) (block_current-OwnersApart k c r max timeout foreign apart)
    ]

donate-SameOwners : (k : Kernel) (c o : ℕ) → SameOwners k (donate k c o)
unfolding donate
donate-SameOwners k c o = record { owners = λ m. ground arith; waits_less = λ t. ground arith }

contend-OwnersApart :
    (k : Kernel) (m timeout primask c o : ℕ)
    → k.current_tcb ≡ some c
    → (k.mutexes m).owner ≡ some o
    → o ≢ c
    → OwnersApart k
    → Stops OwnersApart (contend m timeout primask k)
unfolding contend
contend-OwnersApart k m timeout primask c o cur own other apart =
    rw (cur, contend, own)
      (wait_on-OwnersApart (donate k c o) (mutex_queue m) max_waiting_tasks timeout primask c
        (λ n e. ground (arith, (donate-SameOwners k c o).owners n))
        (SameOwners-OwnersApart (donate-SameOwners k c o) apart))

-- A free mutex may go to the running task, which is in no queue.
taken-OwnersApart :
    (k : Kernel) (m c : ℕ)
    → (k.os_tasks c).wait_queue ≡ none
    → k.current_tcb ≡ some c
    → OwnersApart k
    → OwnersApart (record k {
      mutexes = update k.mutexes m (record (k.mutexes m) { lock = 1; owner = k.current_tcb });
    })
unfolding places
taken-OwnersApart k m c nowhere cur apart n o e = ground (arith, apart n o)

pub os_mutex_acquire-OwnersApart :
    (k : Kernel) (m timeout c : ℕ)
    → Runs k c
    → IsValid k
    → OwnersApart k
    → Stops OwnersApart (os_mutex_acquire m timeout k)
unfolding os_mutex_acquire os_enter_critical os_exit_critical
os_mutex_acquire-OwnersApart k m timeout c run v apart =
    elim (Bool-cases ((k.mutexes m).lock == 0)) [
      | inl e ↦ rw e (taken-OwnersApart k m c (Runs-nowhere k c v run) run.is_current apart)
      | inr e ↦ rw e (elim (Bool-cases (same_pointer (k.mutexes m).owner k.current_tcb)) [
        | inl own ↦ rw own apart
        | inr other ↦ rw other (elim (Bool-cases (timeout == 0 || not k.kernel_running)) [
          | inl poll ↦ rw poll apart
          | inr waits_for ↦
              let held : (k.mutexes m).lock ≢ 0 = ground arith in
              rw waits_for (
                contend-OwnersApart (record k { primask = 1 }) m timeout k.primask c (owned held).0
                  run.is_current (owned held).1 (ground (arith, run.is_current, (owned held).1))
                  apart)
        ])
      ])
    ]
  where
    owned : (k.mutexes m).lock ≢ 0 → (o : ℕ) × ((k.mutexes m).owner ≡ some o)
    owned held = (v.mutexes m).held (ground (arith, v.mutexes m))

drop_donation-SameOwners : (k : Kernel) (m : ℕ) → SameOwners k (drop_donation k m)
unfolding drop_donation
drop_donation-SameOwners k m = record { owners = λ n. ground arith; waits_less = λ t. ground arith }

-- Without waiters the owner is NULL.
dropped-OwnersApart :
    (k : Kernel) (m : ℕ)
    → OwnersApart k
    → OwnersApart (record k {
      mutexes = update k.mutexes m (record (k.mutexes m) { lock = 0; owner = none });
    })
dropped-OwnersApart k m apart n o e = ground (arith, apart n o)

-- The next owner leaves its queue.
handed-OwnersApart :
    (k : Kernel) (m next : ℕ)
    → OwnersApart k
    → OwnersApart (
        wake_task
          (record k { mutexes = update k.mutexes m (record (k.mutexes m) { owner = some next }) })
          next)
unfolding places
handed-OwnersApart k m next apart n o e =
    let handed = record k {
      mutexes = update k.mutexes m (record (k.mutexes m) { owner = some next });
    } in
    ground (
      arith,
      apart n o,
      os_tasks-wake_task handed next o,
      (wake_task-SameObjects handed next).owners n,
    )

hand_over-OwnersApart :
    (k : Kernel) (m primask : ℕ) → OwnersApart k → Stops OwnersApart (hand_over m primask k)
unfolding hand_over os_exit_critical os_yield
hand_over-OwnersApart k m primask apart =
    elim (Option-cases (pick_waiter k.os_tasks (k.mutexes m).waiters)) [
      | inl e ↦ rw (e, hand_over) (dropped-OwnersApart k m apart)
      | inr (next, e) ↦ rw (e, hand_over) (handed-OwnersApart k m next apart)
    ]

pub os_mutex_release-OwnersApart :
    (k : Kernel) (m : ℕ) → OwnersApart k → Stops OwnersApart (os_mutex_release m k)
unfolding os_mutex_release os_enter_critical
os_mutex_release-OwnersApart k m apart =
    hand_over-OwnersApart (drop_donation (record k { primask = 1 }) m) m k.primask
      (SameOwners-OwnersApart (drop_donation-SameOwners (record k { primask = 1 }) m) apart)

pub os_semaphore_acquire-OwnersApart :
    (k : Kernel) (s timeout c : ℕ)
    → Runs k c
    → OwnersApart k
    → Stops OwnersApart (os_semaphore_acquire s timeout k)
unfolding os_semaphore_acquire os_enter_critical os_exit_critical
os_semaphore_acquire-OwnersApart k s timeout c run apart =
    elim (Bool-cases (ltb 0 (k.semaphores s).count)) [
      | inl e ↦ rw e apart
      | inr e ↦ rw e (elim (Bool-cases (timeout == 0 || not k.kernel_running)) [
        | inl poll ↦ rw poll apart
        | inr waits_for ↦
            rw (waits_for, run.is_current)
              (wait_on-OwnersApart (record k { primask = 1 }) (semaphore_queue s) max_tasks timeout
                k.primask c (λ m e1. cc) apart)
      ])
    ]

pub os_semaphore_release-OwnersApart :
    (k : Kernel) (s : ℕ) → OwnersApart k → Stops OwnersApart (os_semaphore_release s k)
unfolding os_semaphore_release os_enter_critical os_exit_critical os_yield
os_semaphore_release-OwnersApart k s apart =
    elim (Option-cases (pick_waiter k.os_tasks (k.semaphores s).waiters)) [
      | inl e ↦
          rw (e, os_semaphore_release)
            (elim (Bool-cases (ltb (k.semaphores s).count (k.semaphores s).max_count)) [
              | inl less ↦ rw less apart
              | inr full ↦ rw full apart
            ])
      | inr (next, e) ↦
          rw (e, os_semaphore_release)
            (SameOwners-OwnersApart (wake_task-SameOwners (record k { primask = 1 }) next) apart)
    ]

pub os_delay-OwnersApart :
    (k : Kernel) (ms c : ℕ) → Runs k c → OwnersApart k → Stops OwnersApart (os_delay ms k)
unfolding os_delay os_enter_critical os_exit_critical os_yield places
os_delay-OwnersApart k ms c run apart = elim (Bool-cases (not k.kernel_running || ms == 0)) [
  | inl e ↦ rw e apart
  | inr e ↦ rw (e, run.is_current) (λ m o own. ground (arith, apart m o))
]

pub sys_tick_handler-OwnersApart : (k : Kernel) → OwnersApart k → OwnersApart (sys_tick_handler k)
unfolding sys_tick_handler os_yield ticked places
sys_tick_handler-OwnersApart k apart m o e =
    let k1 = record k { os_ticks = (k.os_ticks + 1) % u32_mod } in
    ground (
      arith,
      apart m o,
      os_tasks-tick_tasks k1 0 k.task_count o,
      (tick_tasks-SameObjects k1 0 k.task_count).owners m,
    )

dispatch-SameOwners : (k : Kernel) (b : ℕ) → SameOwners k (dispatch k b)
dispatch-SameOwners k b = record {
  owners = λ m. ap (λ (f : ℕ → Mutex). (f m).owner) (dispatch-objects k b).1;
  waits_less = λ t. elim (Option-cases k.current_tcb) [
    | inl e ↦
        ground
          (arith, os_tasks-dispatch k b t, ap (λ (j : Kernel). j.os_tasks t) (preempt_idle k b e))
    | inr (c, e) ↦ ground (arith, os_tasks-dispatch k b t, os_tasks-preempt k b c t e)
  ];
}

pub dispatch-OwnersApart : (k : Kernel) (b : ℕ) → OwnersApart k → OwnersApart (dispatch k b)
dispatch-OwnersApart k b apart = SameOwners-OwnersApart (dispatch-SameOwners k b) apart
