-- ===== src/Kernel/System.antt =====
-- The kernel of Kernel/os_kernel.c as a whole: task creations and initialisations of mutexes and semaphores in
-- any order, the launch, and then every order of ticks, switches and calls of mutexes, semaphores and os_delay. The
-- calls of queues are compositions of these and are not steps of their own; no step writes memory.
pub mod Booting
pub mod Reachable
pub mod Elapsed
use sentinel_rtos.Base.{ℕ, ◌≤◌, ◌≡◌, Bool, true, false, Option, none, some}
use sentinel_rtos.Kernel.State.{Kernel, ready, wait_queue_at}
use sentinel_rtos.Kernel.Run.{done, reached}
use sentinel_rtos.Kernel.Boot.{FirstTask, os_kernel_init, os_kernel_launch}
use sentinel_rtos.Kernel.TaskTable.{os_task_create}
use sentinel_rtos.Kernel.Scheduler.{os_scheduler}
use sentinel_rtos.Kernel.Tick.{sys_tick_handler, os_delay}
use sentinel_rtos.Kernel.Mutex.{os_mutex_init, os_mutex_acquire, os_mutex_release}
use sentinel_rtos.Kernel.Semaphore.{os_semaphore_init, os_semaphore_acquire, os_semaphore_release}
use sentinel_rtos.Kernel.Safety.{Runs}

-- The static storage at reset: zeros.
abbrev pub reset_state : Kernel
reset_state = record {
  os_tasks = λ t. record {
    stack_ptr = 0;
    state = ready;
    base_priority = 0;
    current_priority = 0;
    stack_base = 0;
    stack_size = 0;
    sleep_time = 0;
    wait_queue = none;
    wait_result = 0;
  };
  task_count = 0;
  current_tcb = none;
  os_ticks = 0;
  kernel_running = false;
  mutexes =
      λ m. record { lock = 0; owner = none; waiters = record { slots = λ i. 0; wait_count = 0 } };
  semaphores =
      λ s. record { count = 0; max_count = 0; waiters = record { slots = λ i. 0; wait_count = 0 } };
  queues = λ q. record {
    buffer = 0;
    capacity = 0;
    head = 0;
    tail = 0;
    lock = 0;
    empty_slots = 0;
    filled_slots = 0;
  };
  memory = λ a. 0;
  primask = 0;
  pend_sv = false;
}

-- The states before the launch: tasks are created and objects initialised, in any order.
pub data Boots : Kernel → Type 0 where
  init : Boots (os_kernel_init reset_state)
  create :
      {k : Kernel} (taskptr stack_base stack_words priority : ℕ)
      → Boots k
      → Boots (os_task_create taskptr stack_base stack_words priority k).1
  new_mutex : {k : Kernel} (m : ℕ) → Boots k → Boots (os_mutex_init m k)
  new_semaphore :
      {k : Kernel} (s initial max_count : ℕ)
      → initial ≤ max_count
      → Boots k
      → Boots (os_semaphore_init s initial max_count k)

-- What happens once the kernel runs. A call is made by the running task, but for the semaphore's
-- release, which handlers make too; it is followed up to its return or its first switch.
pub data Step (k k' : Kernel) : Type 0 where
  tick : k' ≡ sys_tick_handler k → Step k k'
  switches : os_scheduler k ≡ done tt k' → Step k k'
  acquires :
      (m timeout c : ℕ) → Runs k c → reached (os_mutex_acquire m timeout k) ≡ some k' → Step k k'
  releases : (m : ℕ) → reached (os_mutex_release m k) ≡ some k' → Step k k'
  takes :
      (s timeout c : ℕ)
      → Runs k c
      → reached (os_semaphore_acquire s timeout k) ≡ some k'
      → Step k k'
  gives : (s : ℕ) → reached (os_semaphore_release s k) ≡ some k' → Step k k'
  sleeps : (ms c : ℕ) → Runs k c → reached (os_delay ms k) ≡ some k' → Step k k'

-- The states of a system that has been booted and launched.
pub data Reach : Kernel → Type 0 where
  launched : {k k' : Kernel} {f : FirstTask} → Boots k → os_kernel_launch k ≡ done f k' → Reach k'
  next : {k k' : Kernel} → Reach k → Step k k' → Reach k'
