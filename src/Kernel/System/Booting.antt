-- ===== src/Kernel/System/Booting.antt =====
-- The states that os_kernel_init, task creations and initialisations of mutexes and semaphores of Kernel/os_kernel.c lead to.
use sentinel_rtos.Base.{
  ℕ, ◌+◌, ◌<◌, ◌≤◌, ◌≡◌, ◌≢◌, ◌⊎◌, refl, ◌||◌, false, none, some, inl, inr, ◌==◌, leb, ltb, arith,
  Bool-cases,
}
use sentinel_rtos.Base.Occurs.{occurs}
use sentinel_rtos.Kernel.State.{Kernel, mutex_queue, semaphore_queue, max_tasks, ready}
use sentinel_rtos.Kernel.WaitQueue.{waiting}
use sentinel_rtos.Kernel.Boot.{os_kernel_init}
use sentinel_rtos.Kernel.TaskTable.{os_task_create}
use sentinel_rtos.Kernel.Mutex.{os_mutex_init}
use sentinel_rtos.Kernel.Semaphore.{os_semaphore_init}
use sentinel_rtos.Kernel.Invariant.{places, QueuesAgree, IsValid}
use sentinel_rtos.Kernel.Invariant.Writes.{IsValid-set_mutex, IsValid-set_semaphore}
use sentinel_rtos.Kernel.System.{reset_state, Boots, init, create, new_mutex, new_semaphore}

-- Well formed, with every wait queue empty.
pub record IsIdle (k : Kernel) : Type 0 where
  pub valid : IsValid k
  pub no_mutex_waiters : (m : ℕ) → (k.mutexes m).waiters.wait_count ≡ 0
  pub no_semaphore_waiters : (s : ℕ) → (k.semaphores s).waiters.wait_count ≡ 0

init-QueuesAgree : QueuesAgree (os_kernel_init reset_state)
unfolding os_kernel_init waiting occurs places
init-QueuesAgree (mutex_queue m) t = refl
init-QueuesAgree (semaphore_queue s) t = refl

init-IsIdle : IsIdle (os_kernel_init reset_state)
unfolding os_kernel_init
init-IsIdle = record {
  valid = record {
    few = omega arith;
    current_in = tt;
    agree = init-QueuesAgree;
    tcbs = λ t. ground arith;
    mutexes = λ m. ground arith;
    semaphores = λ s. ground arith;
  };
  no_mutex_waiters = λ m. refl;
  no_semaphore_waiters = λ s. refl;
}

new_mutex-IsIdle : (k : Kernel) (m : ℕ) → IsIdle k → IsIdle (os_mutex_init m k)
unfolding os_mutex_init
new_mutex-IsIdle k m h = record {
  valid = IsValid-set_mutex k m _ (ground (arith, h.no_mutex_waiters m)) (ground arith) h.valid;
  no_mutex_waiters = λ n. ground (arith, h.no_mutex_waiters n);
  no_semaphore_waiters = h.no_semaphore_waiters;
}

new_semaphore-IsIdle :
    (k : Kernel) (s initial max_count : ℕ)
    → initial ≤ max_count
    → IsIdle k
    → IsIdle (os_semaphore_init s initial max_count k)
unfolding os_semaphore_init
new_semaphore-IsIdle k s initial max_count le h = record {
  valid =
      IsValid-set_semaphore k s _ (ground (arith, h.no_semaphore_waiters s)) (ground arith) h.valid;
  no_mutex_waiters = h.no_mutex_waiters;
  no_semaphore_waiters = λ n. ground (arith, h.no_semaphore_waiters n);
}

-- What a creation changes of the table: the slot behind its end, its length, and a NULL current task.
record Creates (k k' : Kernel) : Type 0 where
  slot :
      (t : ℕ)
      → (t ≢ k.task_count → k'.os_tasks t ≡ k.os_tasks t)
        × (t ≡ k.task_count
            → ((k'.os_tasks t).state ≡ ready)
              × ((k'.os_tasks t).sleep_time ≡ 0)
              × ((k'.os_tasks t).wait_queue ≡ none)
              × ((k'.os_tasks t).base_priority ≡ (k'.os_tasks t).current_priority))
  longer : k'.task_count ≡ k.task_count + 1
  room : k.task_count < max_tasks
  current :
      (k'.current_tcb ≡ k.current_tcb)
      ⊎ ((k.current_tcb ≡ none) × (k'.current_tcb ≡ some k.task_count))
  same_mutexes : k'.mutexes ≡ k.mutexes
  same_semaphores : k'.semaphores ≡ k.semaphores

os_task_create-Creates :
    (k : Kernel) (taskptr stack_base stack_words priority : ℕ)
    → let (created, k') = os_task_create taskptr stack_base stack_words priority k in
      ((created ≡ false) × (k' ≡ k)) ⊎ Creates k k'
unfolding os_task_create
os_task_create-Creates k taskptr stack_base stack_words priority =
    elim (Bool-cases (leb max_tasks k.task_count || taskptr == 0 || ltb stack_words 64)) [
      | inl e ↦ rw e (inl (refl, refl))
      | inr e ↦ rw e (
          inr (record {
            slot = λ t. ground arith;
            longer = refl;
            room = ground arith;
            current = ground arith;
            same_mutexes = refl;
            same_semaphores = refl;
          }))
    ]

Creates-QueuesAgree : (k k' : Kernel) → Creates k k' → IsIdle k → QueuesAgree k'
unfolding places
Creates-QueuesAgree k k' c h (mutex_queue m) t =
    rw c.same_mutexes (ground (arith, c.slot t, h.valid.agree (mutex_queue m) t, h.valid.tcbs t))
Creates-QueuesAgree k k' c h (semaphore_queue s) t =
    rw c.same_semaphores
      (ground (arith, c.slot t, h.valid.agree (semaphore_queue s) t, h.valid.tcbs t))

Creates-IsIdle : (k k' : Kernel) → Creates k k' → IsIdle k → IsIdle k'
Creates-IsIdle k k' c h = record {
  valid = record {
    few = omega (arith, c.longer, c.room);
    current_in = ground (arith, c.longer, c.current, h.valid.current_in);
    agree = Creates-QueuesAgree k k' c h;
    tcbs = λ t. ground (arith, c.slot t, c.longer, c.current, h.valid.tcbs t);
    mutexes = λ m. rw c.same_mutexes (ground (arith, c.longer, h.valid.mutexes m));
    semaphores = λ s. rw c.same_semaphores (h.valid.semaphores s);
  };
  no_mutex_waiters = λ m. rw c.same_mutexes (h.no_mutex_waiters m);
  no_semaphore_waiters = λ s. rw c.same_semaphores (h.no_semaphore_waiters s);
}

-- Every state in `Boots` is well formed and idle.
pub Boots-IsIdle : {k : Kernel} → Boots k → IsIdle k
Boots-IsIdle init = init-IsIdle
Boots-IsIdle (create {k} taskptr stack_base stack_words priority b) =
    elim (os_task_create-Creates k taskptr stack_base stack_words priority) [
      | inl (_, e) ↦ rw e (Boots-IsIdle b)
      | inr c ↦ Creates-IsIdle k _ c (Boots-IsIdle b)
    ]
Boots-IsIdle (new_mutex {k} m b) = new_mutex-IsIdle k m (Boots-IsIdle b)
Boots-IsIdle (new_semaphore {k} s initial max_count le b) =
    new_semaphore-IsIdle k s initial max_count le (Boots-IsIdle b)
