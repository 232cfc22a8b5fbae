-- ===== src/Kernel/Invariant/Queues.antt =====
-- The queues and the TCBs agree after parking, taking out and waking, in Kernel/os_kernel.c.
use sentinel_rtos.Base.{
  ℕ, ◌≤◌, ◌≡◌, refl, ◌∙◌, inl, inr, true, Option, none, some, [], ◌∷◌, ◌++◌, if◌then◌else◌, ◌==◌,
  leb, ◌&&◌, not, arith, Option-cases,
}
use sentinel_rtos.Base.Occurs.{occurs, erase, occurs-append, occurs-singleton, occurs-erase}
use sentinel_rtos.Kernel.State.{
  Kernel, Tcb, ready, os_success, WaitRef, mutex_queue, semaphore_queue, WaitQueue, same_ref,
  set_task, wait_queue_at, set_wait_queue,
}
use sentinel_rtos.Kernel.WaitQueue.{waiting, take_out, park}
use sentinel_rtos.Kernel.WaitQueue.Lists.{waiting-take_out, waiting-park}
use sentinel_rtos.Kernel.Blocking.{wait_queue_remove, block_current, wake_task, parked_tcb}
use sentinel_rtos.Kernel.Invariant.{waiters_of, places, QueuesAgree}

-- Writing one queue leaves the others as they are.
pub waiters_of-set_wait_queue :
    (k : Kernel) (r s : WaitRef) (q : WaitQueue)
    → waiters_of (set_wait_queue k r q) s ≡ (if same_ref r s then waiting q else waiters_of k s)
waiters_of-set_wait_queue k (mutex_queue a) (mutex_queue b) q = ground arith
waiters_of-set_wait_queue k (mutex_queue a) (semaphore_queue b) q = refl
waiters_of-set_wait_queue k (semaphore_queue a) (mutex_queue b) q = refl
waiters_of-set_wait_queue k (semaphore_queue a) (semaphore_queue b) q = ground arith

pub os_tasks-set_wait_queue :
    (k : Kernel) (r : WaitRef) (q : WaitQueue) → (set_wait_queue k r q).os_tasks ≡ k.os_tasks
os_tasks-set_wait_queue k (mutex_queue a) q = refl
os_tasks-set_wait_queue k (semaphore_queue a) q = refl

pub same_ref_eq : (r s : WaitRef) → same_ref r s ≡ true → r ≡ s
same_ref_eq (mutex_queue a) (mutex_queue b) h = ground arith
same_ref_eq (mutex_queue a) (semaphore_queue b) h = cc
same_ref_eq (semaphore_queue a) (mutex_queue b) h = cc
same_ref_eq (semaphore_queue a) (semaphore_queue b) h = ground arith

pub same_ref_refl : (r : WaitRef) → same_ref r r ≡ true
same_ref_refl (mutex_queue a) = ground arith
same_ref_refl (semaphore_queue a) = ground arith

pub waiters_of-set_task :
    (k : Kernel) (t : ℕ) (c : Tcb) (s : WaitRef) → waiters_of (set_task k t c) s ≡ waiters_of k s
waiters_of-set_task k t c (mutex_queue a) = refl
waiters_of-set_task k t c (semaphore_queue a) = refl

-- A write of a TCB that keeps its `wait_queue`.
pub QueuesAgree-set_task :
    (k : Kernel) (t : ℕ) (c : Tcb)
    → c.wait_queue ≡ (k.os_tasks t).wait_queue
    → QueuesAgree k
    → QueuesAgree (set_task k t c)
QueuesAgree-set_task k t c e v r u = ground (arith, v r u, waiters_of-set_task k t c r)

-- `wait_queue_remove` changes one field of one TCB.
pub os_tasks-wait_queue_remove :
    (k : Kernel) (t u : ℕ)
    → (wait_queue_remove k t).os_tasks u
      ≡ (if u == t then record (k.os_tasks t) { wait_queue = none } else k.os_tasks u)
unfolding wait_queue_remove
os_tasks-wait_queue_remove k t u = elim (Option-cases (k.os_tasks t).wait_queue) [
  | inl e ↦ rw (e, wait_queue_remove) (ground arith)
  | inr (r, e) ↦
      rw (e, wait_queue_remove)
        (ground (arith, os_tasks-set_wait_queue k r (take_out (wait_queue_at k r) t)))
]

pub waiters_of-wait_queue_remove :
    (k : Kernel) (t : ℕ) (s : WaitRef)
    → waiters_of (wait_queue_remove k t) s ≡ (
        if places (k.os_tasks t).wait_queue s == 1
        then erase t (waiters_of k s)
        else waiters_of k s)
unfolding wait_queue_remove places
waiters_of-wait_queue_remove k t s = elim (Option-cases (k.os_tasks t).wait_queue) [
  | inl e ↦ rw (e, wait_queue_remove) (ground arith)
  | inr (r, e) ↦
      rw (e, wait_queue_remove)
        (ground (
          arith,
          waiters_of-set_task (set_wait_queue k r (take_out (wait_queue_at k r) t)) t
              (record (k.os_tasks t) { wait_queue = none }) s,
          waiters_of-set_wait_queue k r s (take_out (wait_queue_at k r) t),
          waiting-take_out (wait_queue_at k r) t,
          same_ref_eq r s,
        ))
]

pub wait_queue_remove-QueuesAgree :
    (k : Kernel) (t : ℕ) → QueuesAgree k → QueuesAgree (wait_queue_remove k t)
unfolding places
wait_queue_remove-QueuesAgree k t v s u = ground (
  arith,
  v s u,
  v s t,
  os_tasks-wait_queue_remove k t u,
  waiters_of-wait_queue_remove k t s,
  occurs-erase u t (waiters_of k s),
)

-- `block_current`, where it parks, changes one TCB and appends it to the queue.
pub os_tasks-block_current :
    (k : Kernel) (c : ℕ) (r : WaitRef) (max timeout u : ℕ)
    → (block_current k c r max timeout).1.os_tasks u ≡ (
        if u == c && not (leb max (wait_queue_at k r).wait_count)
        then parked_tcb (k.os_tasks c) r timeout
        else k.os_tasks u)
unfolding block_current
os_tasks-block_current k c r max timeout u =
    ground (arith, os_tasks-set_wait_queue k r (park (wait_queue_at k r) c))

pub waiters_of-block_current :
    (k : Kernel) (c : ℕ) (r : WaitRef) (max timeout : ℕ) (s : WaitRef)
    → waiters_of (block_current k c r max timeout).1 s ≡ (
        if same_ref r s && not (leb max (wait_queue_at k r).wait_count)
        then waiters_of k s ++ (c ∷ [])
        else waiters_of k s)
unfolding block_current
waiters_of-block_current k c r max timeout s = ground (
  arith,
  waiters_of-set_task (set_wait_queue k r (park (wait_queue_at k r) c)) c
      (parked_tcb (k.os_tasks c) r timeout) s,
  waiters_of-set_wait_queue k r s (park (wait_queue_at k r) c),
  waiting-park (wait_queue_at k r) c,
  same_ref_eq r s,
)

-- A task that waits nowhere is parked in one queue.
pub block_current-QueuesAgree :
    (k : Kernel) (c : ℕ) (r : WaitRef) (max timeout : ℕ)
    → (k.os_tasks c).wait_queue ≡ none
    → QueuesAgree k
    → QueuesAgree (block_current k c r max timeout).1
unfolding places
block_current-QueuesAgree k c r max timeout e v s u = ground (
  arith,
  v s u,
  v s c,
  os_tasks-block_current k c r max timeout u,
  waiters_of-block_current k c r max timeout s,
  occurs-append u (waiters_of k s) (c ∷ []),
  occurs-singleton u c,
)

-- What `wake_task` makes of a TCB.
abbrev pub woken : Tcb → Tcb
woken c = record c { wait_queue = none; sleep_time = 0; wait_result = os_success; state = ready }

pub os_tasks-wake_task :
    (k : Kernel) (t u : ℕ)
    → (wake_task k t).os_tasks u ≡ (if u == t then woken (k.os_tasks t) else k.os_tasks u)
unfolding wake_task
os_tasks-wake_task k t u =
    ground (arith, os_tasks-wait_queue_remove k t u, os_tasks-wait_queue_remove k t t)

pub wake_task-QueuesAgree : (k : Kernel) (t : ℕ) → QueuesAgree k → QueuesAgree (wake_task k t)
unfolding wake_task
wake_task-QueuesAgree k t v s u = ground (
  arith,
  wait_queue_remove-QueuesAgree k t v s u,
  os_tasks-wait_queue_remove k t t,
  waiters_of-set_task (wait_queue_remove k t) t
      (record ((wait_queue_remove k t).os_tasks t) {
        sleep_time = 0;
        wait_result = os_success;
        state = ready;
      })
      s,
)

-- Waking takes a task out of the queue that it waits in.
pub waiters_of-wake_task :
    (k : Kernel) (t : ℕ) (s : WaitRef)
    → waiters_of (wake_task k t) s ≡ (
        if places (k.os_tasks t).wait_queue s == 1
        then erase t (waiters_of k s)
        else waiters_of k s)
unfolding wake_task
waiters_of-wake_task k t s =
    waiters_of-set_task (wait_queue_remove k t) t
      (record ((wait_queue_remove k t).os_tasks t) {
        sleep_time = 0;
        wait_result = os_success;
        state = ready;
      })
      s
    ∙ waiters_of-wait_queue_remove k t s

places-le_one : (r : Option WaitRef) (s : WaitRef) → places r s ≤ 1
unfolding places
places-le_one none s = omega arith
places-le_one (some r) s = ground arith

-- Waking a task that waits on `s` erases it there.
pub waiters_of-wake_waiter :
    (k : Kernel) (t : ℕ) (s : WaitRef)
    → QueuesAgree k
    → 1 ≤ occurs t (waiters_of k s)
    → waiters_of (wake_task k t) s ≡ erase t (waiters_of k s)
waiters_of-wake_waiter k t s v h =
    ground (arith, waiters_of-wake_task k t s, v s t, places-le_one (k.os_tasks t).wait_queue s)
