-- ===== src/Kernel/Invariant/Writes.antt =====
-- The state of Kernel/os_kernel.c stays well formed under each kind of write that the operations
-- are made of.
use sentinel_rtos.Base.{ℕ, ◌≤◌, ◌≡◌, ◌≢◌, Bool, true, some, arith}
use sentinel_rtos.Kernel.State.{
  Kernel, Tcb, Mutex, Semaphore, WaitRef, mutex_queue, semaphore_queue, running, set_task,
  set_mutex, set_semaphore, max_tasks, max_waiting_tasks, os_enter_critical, os_exit_critical,
  os_yield,
}
use sentinel_rtos.Kernel.Blocking.{block_current, wake_task}
use sentinel_rtos.Kernel.Invariant.{
  QueuesAgree, TcbIsValid, MutexIsValid, SemaphoreIsValid, IsValid,
}
use sentinel_rtos.Kernel.Invariant.Queues.{
  os_tasks-block_current, block_current-QueuesAgree, os_tasks-wake_task, wake_task-QueuesAgree,
  waiters_of-set_task,
}
use sentinel_rtos.Kernel.Invariant.Frame.{
  SameObjects, wake_task-SameObjects, block_current-SameObjects, wait_count-wake_task,
  wait_count-block_current,
}

-- PRIMASK, PendSV, the tick count, the memory and the launch flag are no part of the invariant.
pub IsValid-registers :
    (k : Kernel) (ticks primask : ℕ) (launched pend_sv : Bool) (memory : ℕ → ℕ)
    → IsValid k
    → IsValid (record k {
      os_ticks = ticks;
      primask = primask;
      kernel_running = launched;
      pend_sv = pend_sv;
      memory = memory;
    })
IsValid-registers k ticks primask launched pend_sv memory v = record {
  few = v.few;
  current_in = v.current_in;
  agree = agree;
  tcbs = v.tcbs;
  mutexes = v.mutexes;
  semaphores = v.semaphores;
}
  where
    agree : QueuesAgree (record k {
      os_ticks = ticks;
      primask = primask;
      kernel_running = launched;
      pend_sv = pend_sv;
      memory = memory;
    })
    agree (mutex_queue m) t = v.agree (mutex_queue m) t
    agree (semaphore_queue s) t = v.agree (semaphore_queue s) t

-- A write of a mutex that keeps its wait queue.
pub IsValid-set_mutex :
    (k : Kernel) (m : ℕ) (x : Mutex)
    → x.waiters ≡ (k.mutexes m).waiters
    → MutexIsValid k.task_count x
    → IsValid k
    → IsValid (set_mutex k m x)
IsValid-set_mutex k m x e w v = record {
  few = v.few;
  current_in = v.current_in;
  agree = agree;
  tcbs = v.tcbs;
  mutexes = λ n. ground (arith, v.mutexes n);
  semaphores = v.semaphores;
}
  where
    agree : QueuesAgree (set_mutex k m x)
    agree (mutex_queue n) t = ground (arith, v.agree (mutex_queue n) t)
    agree (semaphore_queue s) t = v.agree (semaphore_queue s) t

-- A write of a semaphore that keeps its wait queue.
pub IsValid-set_semaphore :
    (k : Kernel) (s : ℕ) (x : Semaphore)
    → x.waiters ≡ (k.semaphores s).waiters
    → SemaphoreIsValid x
    → IsValid k
    → IsValid (set_semaphore k s x)
IsValid-set_semaphore k s x e w v = record {
  few = v.few;
  current_in = v.current_in;
  agree = agree;
  tcbs = v.tcbs;
  mutexes = v.mutexes;
  semaphores = λ n. ground (arith, v.semaphores n);
}
  where
    agree : QueuesAgree (set_semaphore k s x)
    agree (mutex_queue n) t = v.agree (mutex_queue n) t
    agree (semaphore_queue n) t = ground (arith, v.agree (semaphore_queue n) t)

-- A write of a TCB that keeps its wait queue.
pub IsValid-set_task :
    (k : Kernel) (t : ℕ) (c : Tcb)
    → c.wait_queue ≡ (k.os_tasks t).wait_queue
    → TcbIsValid k.task_count k.current_tcb t c
    → IsValid k
    → IsValid (set_task k t c)
IsValid-set_task k t c e w v = record {
  few = v.few;
  current_in = v.current_in;
  agree = λ r u. ground (arith, v.agree r u, waiters_of-set_task k t c r);
  tcbs = λ u. ground (arith, v.tcbs u);
  mutexes = v.mutexes;
  semaphores = v.semaphores;
}

-- The object is one to wait for: a held mutex or a semaphore with no token.
abbrev pub Contended : Kernel → WaitRef → ℕ → Type 0
Contended k (mutex_queue m) max = ((k.mutexes m).lock ≢ 0) × (max ≤ max_waiting_tasks)
Contended k (semaphore_queue s) max = ((k.semaphores s).count ≡ 0) × (max ≤ max_tasks)

parked-MutexIsValid :
    (k : Kernel) (c : ℕ) (r : WaitRef) (max timeout m : ℕ)
    → Contended k r max
    → IsValid k
    → MutexIsValid k.task_count ((block_current k c r max timeout).1.mutexes m)
parked-MutexIsValid k c (mutex_queue a) max timeout m con v = ground (
  arith,
  v.mutexes m,
  (block_current-SameObjects k c (mutex_queue a) max timeout).locks m,
  (block_current-SameObjects k c (mutex_queue a) max timeout).owners m,
  wait_count-block_current k c (mutex_queue a) max timeout (mutex_queue m),
)
parked-MutexIsValid k c (semaphore_queue a) max timeout m con v = ground (
  arith,
  v.mutexes m,
  (block_current-SameObjects k c (semaphore_queue a) max timeout).locks m,
  (block_current-SameObjects k c (semaphore_queue a) max timeout).owners m,
  wait_count-block_current k c (semaphore_queue a) max timeout (mutex_queue m),
)

parked-SemaphoreIsValid :
    (k : Kernel) (c : ℕ) (r : WaitRef) (max timeout s : ℕ)
    → Contended k r max
    → IsValid k
    → SemaphoreIsValid ((block_current k c r max timeout).1.semaphores s)
parked-SemaphoreIsValid k c (mutex_queue a) max timeout s con v = ground (
  arith,
  v.semaphores s,
  (block_current-SameObjects k c (mutex_queue a) max timeout).tokens s,
  (block_current-SameObjects k c (mutex_queue a) max timeout).limits s,
  wait_count-block_current k c (mutex_queue a) max timeout (semaphore_queue s),
)
parked-SemaphoreIsValid k c (semaphore_queue a) max timeout s con v = ground (
  arith,
  v.semaphores s,
  (block_current-SameObjects k c (semaphore_queue a) max timeout).tokens s,
  (block_current-SameObjects k c (semaphore_queue a) max timeout).limits s,
  wait_count-block_current k c (semaphore_queue a) max timeout (semaphore_queue s),
)

-- Parking the running task on a contended object.
pub IsValid-block_current :
    (k : Kernel) (c : ℕ) (r : WaitRef) (max timeout : ℕ)
    → k.current_tcb ≡ some c
    → (k.os_tasks c).state ≡ running
    → Contended k r max
    → IsValid k
    → IsValid (block_current k c r max timeout).1
IsValid-block_current k c r max timeout e run con v = record {
  few = ground (arith, v.few, f.count);
  current_in = rw (f.count, f.current) v.current_in;
  agree = block_current-QueuesAgree k c r max timeout (ground (arith, v.tcbs c)) v.agree;
  tcbs = λ u.
      rw (f.count, f.current)
        (ground
          (arith, v.current_in, v.tcbs u, v.tcbs c, os_tasks-block_current k c r max timeout u));
  mutexes = λ m. rw f.count (parked-MutexIsValid k c r max timeout m con v);
  semaphores = λ s. parked-SemaphoreIsValid k c r max timeout s con v;
}
  where
    f : SameObjects k (block_current k c r max timeout).1
    f = block_current-SameObjects k c r max timeout

-- Waking a task makes it READY, out of every queue, whatever it did before; if it was RUNNING it
-- is so no more.
pub IsValid-wake_task : (k : Kernel) (t : ℕ) → IsValid k → IsValid (wake_task k t)
IsValid-wake_task k t v = record {
  few = ground (arith, v.few, f.count);
  current_in = rw (f.count, f.current) v.current_in;
  agree = wake_task-QueuesAgree k t v.agree;
  tcbs =
      λ u. rw (f.count, f.current) (ground (arith, v.tcbs u, v.tcbs t, os_tasks-wake_task k t u));
  mutexes = λ m. ground (
    arith,
    v.mutexes m,
    f.count,
    f.locks m,
    f.owners m,
    wait_count-wake_task k t (mutex_queue m),
  );
  semaphores = λ s.
      ground (
        arith,
        v.semaphores s,
        f.tokens s,
        f.limits s,
        wait_count-wake_task k t (semaphore_queue s),
      );
}
  where
    f : SameObjects k (wake_task k t)
    f = wake_task-SameObjects k t

pub os_exit_critical-IsValid :
    (primask : ℕ) (k : Kernel) → IsValid k → IsValid (os_exit_critical primask k)
unfolding os_exit_critical
os_exit_critical-IsValid primask k v =
    IsValid-registers k k.os_ticks primask k.kernel_running k.pend_sv k.memory v

pub os_yield-IsValid : (k : Kernel) → IsValid k → IsValid (os_yield k)
unfolding os_yield
os_yield-IsValid k v = IsValid-registers k k.os_ticks k.primask k.kernel_running true k.memory v

pub os_enter_critical-IsValid : (k : Kernel) → IsValid k → IsValid (os_enter_critical k).1
unfolding os_enter_critical
os_enter_critical-IsValid k v =
    IsValid-registers k k.os_ticks 1 k.kernel_running k.pend_sv k.memory v
