-- ===== src/Kernel/Invariant/Frame.antt =====
-- What parking, taking out and waking in Kernel/os_kernel.c leave as it is.
use sentinel_rtos.Base.{
  ℕ, ◌+◌, ◌≤◌, ◌≡◌, refl, ◌∙◌, inl, inr, none, if◌then◌else◌, leb, not, ◌&&◌, arith, Bool-cases,
  Option-cases,
}
use sentinel_rtos.Kernel.State.{
  Kernel, Tcb, ready, os_success, set_task, WaitRef, mutex_queue, semaphore_queue, WaitQueue,
  same_ref, wait_queue_at, set_wait_queue,
}
use sentinel_rtos.Kernel.WaitQueue.{take_out, park}
use sentinel_rtos.Kernel.WaitQueue.Lists.{wait_count-take_out}
use sentinel_rtos.Kernel.Blocking.{wait_queue_remove, block_current, wake_task, parked_tcb}
use sentinel_rtos.Kernel.Invariant.Queues.{same_ref_eq}

-- The two states differ in TCBs and wait queues only, and no queue has become longer.
pub record SameObjects (k k' : Kernel) : Type 0 where
  pub count : k'.task_count ≡ k.task_count
  pub current : k'.current_tcb ≡ k.current_tcb
  pub ticks : k'.os_ticks ≡ k.os_ticks
  pub launched : k'.kernel_running ≡ k.kernel_running
  pub words : k'.memory ≡ k.memory
  pub rings : k'.queues ≡ k.queues
  pub mask : k'.primask ≡ k.primask
  pub locks : (m : ℕ) → (k'.mutexes m).lock ≡ (k.mutexes m).lock
  pub owners : (m : ℕ) → (k'.mutexes m).owner ≡ (k.mutexes m).owner
  pub tokens : (s : ℕ) → (k'.semaphores s).count ≡ (k.semaphores s).count
  pub limits : (s : ℕ) → (k'.semaphores s).max_count ≡ (k.semaphores s).max_count

pub set_wait_queue-SameObjects :
    (k : Kernel) (r : WaitRef) (q : WaitQueue) → SameObjects k (set_wait_queue k r q)
set_wait_queue-SameObjects k (mutex_queue a) q = ground arith
set_wait_queue-SameObjects k (semaphore_queue a) q = ground arith

pub SameObjects-refl : (k : Kernel) → SameObjects k k
SameObjects-refl k = ground arith

pub SameObjects-trans : {a b c : Kernel} → SameObjects a b → SameObjects b c → SameObjects a c
SameObjects-trans f g = record {
  count = g.count ∙ f.count;
  current = g.current ∙ f.current;
  ticks = g.ticks ∙ f.ticks;
  launched = g.launched ∙ f.launched;
  words = g.words ∙ f.words;
  rings = g.rings ∙ f.rings;
  mask = g.mask ∙ f.mask;
  locks = λ m. g.locks m ∙ f.locks m;
  owners = λ m. g.owners m ∙ f.owners m;
  tokens = λ s. g.tokens s ∙ f.tokens s;
  limits = λ s. g.limits s ∙ f.limits s;
}

-- A TCB is no other object.
pub SameObjects-set_task :
    {k k' : Kernel} (t : ℕ) (c : Tcb) → SameObjects k k' → SameObjects k (set_task k' t c)
SameObjects-set_task t c h = record {
  count = h.count;
  current = h.current;
  ticks = h.ticks;
  launched = h.launched;
  words = h.words;
  rings = h.rings;
  mask = h.mask;
  locks = h.locks;
  owners = h.owners;
  tokens = h.tokens;
  limits = h.limits;
}

pub wait_queue_remove-SameObjects : (k : Kernel) (t : ℕ) → SameObjects k (wait_queue_remove k t)
unfolding wait_queue_remove
wait_queue_remove-SameObjects k t = elim (Option-cases (k.os_tasks t).wait_queue) [
  | inl e ↦ rw (e, wait_queue_remove) (SameObjects-refl k)
  | inr (r, e) ↦
      rw (e, wait_queue_remove)
        (SameObjects-set_task t (record (k.os_tasks t) { wait_queue = none })
          (set_wait_queue-SameObjects k r (take_out (wait_queue_at k r) t)))
]

pub wake_task-SameObjects : (k : Kernel) (t : ℕ) → SameObjects k (wake_task k t)
unfolding wake_task
wake_task-SameObjects k t = SameObjects-set_task t _ (wait_queue_remove-SameObjects k t)

pub block_current-SameObjects :
    (k : Kernel) (c : ℕ) (r : WaitRef) (max timeout : ℕ)
    → SameObjects k (block_current k c r max timeout).1
unfolding block_current
block_current-SameObjects k c r max timeout =
    elim (Bool-cases (leb max (wait_queue_at k r).wait_count)) [
      | inl e ↦ rw (e, block_current) (SameObjects-refl k)
      | inr e ↦
          rw (e, block_current)
            (SameObjects-set_task c (parked_tcb (k.os_tasks c) r timeout)
              (set_wait_queue-SameObjects k r (park (wait_queue_at k r) c)))
    ]

-- A queue never grows but by parking.
pub wait_count-set_wait_queue :
    (k : Kernel) (r s : WaitRef) (q : WaitQueue)
    → (wait_queue_at (set_wait_queue k r q) s).wait_count
      ≡ (if same_ref r s then q.wait_count else (wait_queue_at k s).wait_count)
wait_count-set_wait_queue k (mutex_queue a) (mutex_queue b) q = ground arith
wait_count-set_wait_queue k (mutex_queue a) (semaphore_queue b) q = refl
wait_count-set_wait_queue k (semaphore_queue a) (mutex_queue b) q = refl
wait_count-set_wait_queue k (semaphore_queue a) (semaphore_queue b) q = ground arith

pub wait_queue_at-set_task :
    (k : Kernel) (t : ℕ) (c : Tcb) (s : WaitRef)
    → wait_queue_at (set_task k t c) s ≡ wait_queue_at k s
wait_queue_at-set_task k t c (mutex_queue a) = refl
wait_queue_at-set_task k t c (semaphore_queue a) = refl

pub wait_count-wait_queue_remove :
    (k : Kernel) (t : ℕ) (s : WaitRef)
    → (wait_queue_at (wait_queue_remove k t) s).wait_count ≤ (wait_queue_at k s).wait_count
unfolding wait_queue_remove
wait_count-wait_queue_remove k t s = elim (Option-cases (k.os_tasks t).wait_queue) [
  | inl e ↦ rw (e, wait_queue_remove) (omega arith)
  | inr (r, e) ↦
      rw (e, wait_queue_remove)
        (ground (
          arith,
          wait_queue_at-set_task (set_wait_queue k r (take_out (wait_queue_at k r) t)) t
              (record (k.os_tasks t) { wait_queue = none }) s,
          wait_count-set_wait_queue k r s (take_out (wait_queue_at k r) t),
          wait_count-take_out (wait_queue_at k r) t,
          same_ref_eq r s,
        ))
]

pub wait_count-wake_task :
    (k : Kernel) (t : ℕ) (s : WaitRef)
    → (wait_queue_at (wake_task k t) s).wait_count ≤ (wait_queue_at k s).wait_count
unfolding wake_task
wait_count-wake_task k t s = ground (
  arith,
  wait_count-wait_queue_remove k t s,
  wait_queue_at-set_task (wait_queue_remove k t) t
      (record ((wait_queue_remove k t).os_tasks t) {
        sleep_time = 0;
        wait_result = os_success;
        state = ready;
      })
      s,
)

pub wait_count-block_current :
    (k : Kernel) (c : ℕ) (r : WaitRef) (max timeout : ℕ) (s : WaitRef)
    → (wait_queue_at (block_current k c r max timeout).1 s).wait_count ≡ (
        if same_ref r s && not (leb max (wait_queue_at k r).wait_count)
        then (wait_queue_at k r).wait_count + 1
        else (wait_queue_at k s).wait_count)
unfolding block_current park
wait_count-block_current k c r max timeout s = ground (
  arith,
  wait_queue_at-set_task (set_wait_queue k r (park (wait_queue_at k r) c)) c
      (parked_tcb (k.os_tasks c) r timeout) s,
  wait_count-set_wait_queue k r s (park (wait_queue_at k r) c),
)
