-- ===== src/Kernel/Invariant.antt =====
-- The well-formedness of the state that Kernel/os_kernel.c keeps.
pub mod Queues
pub mod Frame
pub mod Writes
use sentinel_rtos.Base.{
  ℕ, ◌≤◌, ◌<◌, ◌≡◌, ◌⊎◌, Bool, true, false, Option, none, some, List, if◌then◌else◌,
}
use sentinel_rtos.Base.Occurs.{occurs}
use sentinel_rtos.Kernel.State.{
  Kernel, Tcb, WaitRef, WaitQueue, Mutex, Semaphore, TaskState, running, blocked, same_ref,
  wait_queue_at, max_tasks, max_waiting_tasks,
}
use sentinel_rtos.Kernel.WaitQueue.{waiting}

-- The tasks that wait on an object, in the order in which they came.
abbrev pub waiters_of : Kernel → WaitRef → List ℕ
waiters_of k r = waiting (wait_queue_at k r)

-- How often the TCB whose `wait_queue` this is stands in queue `r`.
unfoldable pub places : Option WaitRef → WaitRef → ℕ
places none r = 0
places (some s) r = if same_ref s r then 1 else 0

abbrev pub waits : Tcb → Bool
waits t = elim t.wait_queue [ none ↦ false | some s ↦ true ]

-- A pointer that is NULL or points to one of the `n` tasks.
abbrev pub InTable : ℕ → Option ℕ → Type 0
InTable n none = Unit
InTable n (some t) = t < n

-- A task stands in a queue once, if its TCB points to that queue, and in no other.
abbrev pub QueuesAgree : Kernel → Type 0
QueuesAgree k =
    (r : WaitRef) (t : ℕ) → occurs t (waiters_of k r) ≡ places (k.os_tasks t).wait_queue r

-- What holds of TCB `t` in a table of `n` tasks.
pub record TcbIsValid (n : ℕ) (current : Option ℕ) (t : ℕ) (c : Tcb) : Type 0 where
  pub waiter : waits c ≡ true → (c.state ≡ blocked) × (t < n)
  pub sleeper : 0 < c.sleep_time → (c.state ≡ blocked) × (t < n)
  pub wakeable : c.state ≡ blocked → (0 < c.sleep_time) ⊎ (waits c ≡ true)
  pub on_cpu : c.state ≡ running → current ≡ some t
  pub at_least_base : c.base_priority ≤ c.current_priority

pub record MutexIsValid (n : ℕ) (x : Mutex) : Type 0 where
  pub binary : x.lock ≤ 1
  pub free : x.lock ≡ 0 → (x.owner ≡ none) × (x.waiters.wait_count ≡ 0)
  pub held : x.lock ≡ 1 → (o : ℕ) × (x.owner ≡ some o)
  pub owner_in : InTable n x.owner
  pub room : x.waiters.wait_count ≤ max_waiting_tasks

pub record SemaphoreIsValid (x : Semaphore) : Type 0 where
  pub bounded : x.count ≤ x.max_count
  pub no_idle_token : 0 < x.count → x.waiters.wait_count ≡ 0
  pub room : x.waiters.wait_count ≤ max_tasks

pub record IsValid (k : Kernel) : Type 0 where
  pub few : k.task_count ≤ max_tasks
  pub current_in : InTable k.task_count k.current_tcb
  pub agree : QueuesAgree k
  pub tcbs : (t : ℕ) → TcbIsValid k.task_count k.current_tcb t (k.os_tasks t)
  pub mutexes : (m : ℕ) → MutexIsValid k.task_count (k.mutexes m)
  pub semaphores : (s : ℕ) → SemaphoreIsValid (k.semaphores s)
