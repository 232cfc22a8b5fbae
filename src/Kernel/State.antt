-- ===== src/Kernel/State.antt =====
-- The data of Inc/os_task.h and Inc/os_kernel.h, the kernel's variables, and critical sections.
use sentinel_rtos.Base.{ℕ, ◌^◌, Bool, true, false, Option, ◌==◌, update}

abbrev pub max_tasks : ℕ
max_tasks = 6

abbrev pub max_waiting_tasks : ℕ
max_waiting_tasks = 5

abbrev pub stack_canary : ℕ
stack_canary = 0xc0ffee

abbrev pub os_success : ℕ
os_success = 0

abbrev pub os_timeout : ℕ
os_timeout = 1

abbrev pub os_fail : ℕ
os_fail = 2

abbrev pub wait_forever : ℕ
wait_forever = 0xffff_ffff

abbrev pub u32_mod : ℕ
u32_mod = 2 ^ 32

-- `TaskState_t`.
pub data TaskState : Type 0 where
  ready running blocked suspended : TaskState

-- The address of a wait queue: that of the mutex or of the semaphore with this number.
pub data WaitRef : Type 0 where
  mutex_queue semaphore_queue : ℕ → WaitRef

abbrev pub same_ref : WaitRef → WaitRef → Bool
same_ref (mutex_queue a) (mutex_queue b) = a == b
same_ref (mutex_queue a) (semaphore_queue b) = false
same_ref (semaphore_queue a) (mutex_queue b) = false
same_ref (semaphore_queue a) (semaphore_queue b) = a == b

-- `TCB_t`. A pointer to a TCB is its index in `os_tasks`. The pointers `wait_queue` and
-- `wait_count` are set and cleared together, to the two fields of one object: one reference.
pub record Tcb : Type 0 where
  pub stack_ptr : ℕ
  pub state : TaskState
  pub base_priority : ℕ
  pub current_priority : ℕ
  pub stack_base : ℕ
  pub stack_size : ℕ
  pub sleep_time : ℕ
  pub wait_queue : Option WaitRef
  pub wait_result : ℕ

-- The array `wait_queue[]` with `wait_count`, which both primitives hold.
pub record WaitQueue : Type 0 where
  pub slots : ℕ → ℕ
  pub wait_count : ℕ

-- `os_mutex_t`.
pub record Mutex : Type 0 where
  pub lock : ℕ
  pub owner : Option ℕ
  pub waiters : WaitQueue

-- `os_semaphore_t`.
pub record Semaphore : Type 0 where
  pub count : ℕ
  pub max_count : ℕ
  pub waiters : WaitQueue

-- `os_message_queue_t` of Inc/os_queue.h: `buffer` is an address, and the three embedded objects
-- are given by their numbers.
pub record MessageQueue : Type 0 where
  pub buffer : ℕ
  pub capacity : ℕ
  pub head : ℕ
  pub tail : ℕ
  pub lock : ℕ
  pub empty_slots : ℕ
  pub filled_slots : ℕ

-- The kernel's variables, the store of its objects, the words of memory by their byte address,
-- PRIMASK, and whether PendSV is pending.
pub record Kernel : Type 0 where
  pub os_tasks : ℕ → Tcb
  pub task_count : ℕ
  pub current_tcb : Option ℕ
  pub os_ticks : ℕ
  pub kernel_running : Bool
  pub mutexes : ℕ → Mutex
  pub semaphores : ℕ → Semaphore
  pub queues : ℕ → MessageQueue
  pub memory : ℕ → ℕ
  pub primask : ℕ
  pub pend_sv : Bool

-- `TCB_t` fields are written through a pointer.
abbrev pub set_task : Kernel → ℕ → Tcb → Kernel
set_task k t c = record k { os_tasks = update k.os_tasks t c }

abbrev pub set_mutex : Kernel → ℕ → Mutex → Kernel
set_mutex k m x = record k { mutexes = update k.mutexes m x }

abbrev pub set_semaphore : Kernel → ℕ → Semaphore → Kernel
set_semaphore k s x = record k { semaphores = update k.semaphores s x }

abbrev pub wait_queue_at : Kernel → WaitRef → WaitQueue
wait_queue_at k (mutex_queue m) = (k.mutexes m).waiters
wait_queue_at k (semaphore_queue s) = (k.semaphores s).waiters

abbrev pub set_wait_queue : Kernel → WaitRef → WaitQueue → Kernel
set_wait_queue k (mutex_queue m) q = set_mutex k m (record (k.mutexes m) { waiters = q })
set_wait_queue k (semaphore_queue s) q = set_semaphore k s (record (k.semaphores s) { waiters = q })

-- `os_enter_critical` returns the old PRIMASK and masks interrupts.
unfoldable pub os_enter_critical : Kernel → ℕ × Kernel
os_enter_critical k = (k.primask, record k { primask = 1 })

unfoldable pub os_exit_critical : ℕ → Kernel → Kernel
os_exit_critical primask k = record k { primask = primask }

-- `os_yield` pends PendSV.
unfoldable pub os_yield : Kernel → Kernel
os_yield k = record k { pend_sv = true }
