-- ===== src/Kernel/Ownership/Room.antt =====
-- The wait queues of Kernel/os_kernel.c have room for every task that may come.
use sentinel_rtos.Base.{ℕ, ◌+◌, ◌≤◌, ◌<◌, ◌≡◌, ◌≢◌, ◌∙◌, subst, some, ◌∷◌, arith}
use sentinel_rtos.Base.Occurs.{occurs, pigeonhole}
use sentinel_rtos.Kernel.State.{Kernel, WaitRef, mutex_queue, wait_queue_at}
use sentinel_rtos.Kernel.WaitQueue.Lists.{length-waiting}
use sentinel_rtos.Kernel.Invariant.{IsValid, InTable, places, waiters_of}
use sentinel_rtos.Kernel.Safety.{Runs}
use sentinel_rtos.Kernel.Ownership.{OwnersApart}
use sentinel_rtos.Kernel.Ownership.Calls.{Runs-nowhere}

module _ (k : Kernel) (c : ℕ) (v : IsValid k) (run : Runs k c) where
  waits_once : (r : WaitRef) (t : ℕ) → occurs t (waiters_of k r) ≤ 1
  unfolding places
  waits_once r t = ground (arith, v.agree r t)

  waits_in_table : (r : WaitRef) (t : ℕ) → k.task_count ≤ t → occurs t (waiters_of k r) ≡ 0
  unfolding places
  waits_in_table r t le = ground (arith, v.agree r t, v.tcbs t)

  pub current-lt : c < k.task_count
  current-lt = subst (InTable k.task_count) run.is_current v.current_in

  runs_apart : (r : WaitRef) → occurs c (waiters_of k r) ≡ 0
  unfolding places
  runs_apart r = ground (arith, v.agree r c, Runs-nowhere k c v run)

  -- The running task is in no queue: one of its places is free.
  pub queue_room : (r : WaitRef) → (wait_queue_at k r).wait_count + 1 ≤ k.task_count
  unfolding occurs
  queue_room r =
      let few =
        pigeonhole k.task_count (c ∷ waiters_of k r)
          (λ t. ground (arith, waits_once r t, runs_apart r))
          (λ t le. ground (arith, waits_in_table r t le, current-lt)) in
      omega (arith, few, length-waiting (wait_queue_at k r))

  -- Its owner is not in the queue of a mutex either.
  pub mutex_room :
      (m o : ℕ)
      → OwnersApart k
      → (k.mutexes m).owner ≡ some o
      → o ≢ c
      → (k.mutexes m).waiters.wait_count + 2 ≤ k.task_count
  unfolding occurs
  mutex_room m o apart own other =
      let owner_apart : occurs o (waiters_of k (mutex_queue m)) ≡ 0 =
        v.agree (mutex_queue m) o ∙ apart m o own in
      let owner_in : o < k.task_count = subst (InTable k.task_count) own (v.mutexes m).owner_in in
      let few =
        pigeonhole k.task_count (o ∷ c ∷ waiters_of k (mutex_queue m))
          (λ t.
            ground (arith, waits_once (mutex_queue m) t, runs_apart (mutex_queue m), owner_apart))
          (λ t le. ground (arith, waits_in_table (mutex_queue m) t le, current-lt)) in
      omega (arith, few, length-waiting (k.mutexes m).waiters)
