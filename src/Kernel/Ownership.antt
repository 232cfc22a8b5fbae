-- ===== src/Kernel/Ownership.antt =====
-- Owners of the mutexes of Kernel/os_kernel.c, and the queues that they stand in.
pub mod Calls
pub mod Room
pub mod Reached
pub mod Failure
use sentinel_rtos.Base.{
  ℕ, ◌+◌, ◌≡◌, ◌≢◌, ◌⊎◌, inl, inr, ◌∙◌, refl, Option, none, some, ◌==◌, if◌then◌else◌, not, ◌&&◌,
  leb, arith,
}
use sentinel_rtos.Kernel.State.{Kernel, WaitRef, mutex_queue, semaphore_queue}
use sentinel_rtos.Kernel.Blocking.{block_current, wake_task}
use sentinel_rtos.Kernel.Invariant.{places}
use sentinel_rtos.Kernel.Invariant.Queues.{os_tasks-wake_task, os_tasks-block_current}
use sentinel_rtos.Kernel.Invariant.Frame.{
  SameObjects, block_current-SameObjects, wake_task-SameObjects,
}

-- No task waits for a mutex that it owns.
abbrev pub OwnersApart : Kernel → Type 0
OwnersApart k =
    (m o : ℕ) → (k.mutexes m).owner ≡ some o → places (k.os_tasks o).wait_queue (mutex_queue m) ≡ 0

-- The owners are the same, and no task has entered a queue.
pub record SameOwners (k k' : Kernel) : Type 0 where
  pub owners : (m : ℕ) → (k'.mutexes m).owner ≡ (k.mutexes m).owner
  pub waits_less :
      (t : ℕ)
      → ((k'.os_tasks t).wait_queue ≡ (k.os_tasks t).wait_queue)
        ⊎ ((k'.os_tasks t).wait_queue ≡ none)

pub SameOwners-OwnersApart : {k k' : Kernel} → SameOwners k k' → OwnersApart k → OwnersApart k'
unfolding places
SameOwners-OwnersApart h apart m o e = ground (arith, h.owners m, h.waits_less o, apart m o)

-- Parking a task on a mutex that it does not own, or on a semaphore.
pub block_current-OwnersApart :
    (k : Kernel) (c : ℕ) (r : WaitRef) (max timeout : ℕ)
    → ((m : ℕ) → r ≡ mutex_queue m → (k.mutexes m).owner ≢ some c)
    → OwnersApart k
    → OwnersApart (block_current k c r max timeout).1
unfolding places
block_current-OwnersApart k c (mutex_queue a) max timeout foreign apart m o e = ground (
  arith,
  apart m o,
  foreign a refl,
  os_tasks-block_current k c (mutex_queue a) max timeout o,
  (block_current-SameObjects k c (mutex_queue a) max timeout).owners m,
)
block_current-OwnersApart k c (semaphore_queue a) max timeout foreign apart m o e = ground (
  arith,
  apart m o,
  os_tasks-block_current k c (semaphore_queue a) max timeout o,
  (block_current-SameObjects k c (semaphore_queue a) max timeout).owners m,
)

-- A woken task is in no queue, so it may own any mutex.
pub wake_task-SameOwners : (k : Kernel) (t : ℕ) → SameOwners k (wake_task k t)
wake_task-SameOwners k t = record {
  owners = (wake_task-SameObjects k t).owners;
  waits_less = λ u. ground (arith, os_tasks-wake_task k t u);
}
