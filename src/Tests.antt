-- ===== src/Tests.antt =====
-- A small system for the tests: three tasks, two of them of the same priority, a mutex and a
-- semaphore, from reset on.
pub mod Switching
pub mod Waiting
pub mod Messages
pub mod Rounds
pub mod Devices
pub mod Application
pub mod Ownership
pub mod Board
pub mod Contexts
pub mod Bouncing
pub mod Echoing
pub mod Passing
pub mod BenchBuild
pub mod Elapsing
use sentinel_rtos.Base.{
  ℕ, ◌≡◌, refl, ◌≤◌, arith, true, false, Option, none, some, inl, inr, ◌==◌, if◌then◌else◌, update,
  Bool-cases,
}
use sentinel_rtos.Base.Occurs.{occurs}
use sentinel_rtos.Kernel.State.{
  Kernel, Tcb, WaitQueue, mutex_queue, semaphore_queue, running, blocked, stack_canary,
}
use sentinel_rtos.Kernel.WaitQueue.{waiting}
use sentinel_rtos.Kernel.Run.{Run, done, yielded, fault, halted, bind}
use sentinel_rtos.Kernel.Boot.{os_kernel_init, os_kernel_launch, start_first_task, entered}
use sentinel_rtos.Kernel.TaskTable.{os_task_create, os_task_init_stack}
use sentinel_rtos.Kernel.Scheduler.{
  os_scheduler, canary_intact, switch, choose, scan, consider, scan_start, dispatch, preempt,
}
use sentinel_rtos.Kernel.Mutex.{os_mutex_init}
use sentinel_rtos.Kernel.Semaphore.{os_semaphore_init}
use sentinel_rtos.Kernel.Invariant.{
  QueuesAgree, places, TcbIsValid, MutexIsValid, SemaphoreIsValid, IsValid,
}
use sentinel_rtos.Kernel.System.{
  reset_state, Boots, init, create, new_mutex, new_semaphore, Reach, launched,
}

-- The state at which a call stops.
abbrev pub stop {ℓ} : {A : Type ℓ} → Run A → Kernel
stop (done a k) = k
stop (yielded k g) = k
stop fault = reset_state
stop (halted k) = k

abbrev pub with_a : Kernel
with_a = (os_task_create 0x0800_0001 0x2000_0000 256 2 (os_kernel_init reset_state)).1

abbrev pub with_b : Kernel
with_b = (os_task_create 0x0800_0101 0x2000_0400 256 2 with_a).1

abbrev pub with_idle : Kernel
with_idle = (os_task_create 0x0800_0201 0x2000_0800 256 0 with_b).1

abbrev pub booted : Kernel
booted = os_semaphore_init 0 0 1 (os_mutex_init 0 with_idle)

pub booted-Boots : Boots booted
booted-Boots = new_semaphore 0 0 1 (omega arith) (
    new_mutex 0 (
      create 0x0800_0201 0x2000_0800 256 0
        (create 0x0800_0101 0x2000_0400 256 2 (create 0x0800_0001 0x2000_0000 256 2 init))))

abbrev pub started : Kernel
started = stop (os_kernel_launch booted)

launch_returns : os_kernel_launch booted ≡ done (entered started 1) started
unfolding os_kernel_launch bind os_scheduler os_semaphore_init os_mutex_init os_task_create
    os_kernel_init canary_intact os_task_init_stack start_first_task switch choose scan consider
    scan_start dispatch entered
launch_returns = refl

pub started-Reach : Reach started
started-Reach = launched booted-Boots launch_returns

-- A table of four: task 0 runs and holds mutex 0, task 1 waits for it, task 2 waits for semaphore 0
-- with 5 ms left, and task 3 is ready.
abbrev tcb_of : ℕ → Tcb
tcb_of t =
    let fresh = reset_state.os_tasks t in
    if t == 0
    then record fresh {
      state = running;
      base_priority = 1;
      current_priority = 2;
      stack_base = 0x2000_0000;
      stack_size = 256;
    }
    else if t == 1
    then record fresh {
      state = blocked;
      base_priority = 2;
      current_priority = 2;
      wait_queue = some (mutex_queue 0);
    }
    else if t == 2
    then record fresh { state = blocked; wait_queue = some (semaphore_queue 0); sleep_time = 5 }
    else if t == 3
    then record fresh { base_priority = 2; current_priority = 2 }
    else fresh

abbrev just : ℕ → WaitQueue
just t = record { slots = λ i. t; wait_count = 1 }

abbrev pub four : Kernel
four = record reset_state {
  os_tasks = tcb_of;
  task_count = 4;
  current_tcb = some 0;
  kernel_running = true;
  mutexes = update reset_state.mutexes 0 (record { lock = 1; owner = some 0; waiters = just 1 });
  semaphores =
      update reset_state.semaphores 0 (record { count = 0; max_count = 1; waiters = just 2 });
  memory = λ a. stack_canary;
}

four-agree : QueuesAgree four
unfolding waiting occurs places
four-agree (mutex_queue m) t = ground arith
four-agree (semaphore_queue s) t = ground arith

four_tcbs : (t : ℕ) → TcbIsValid 4 (some 0) t (tcb_of t)
four_tcbs t = record {
  waiter = ground arith;
  sleeper = ground arith;
  wakeable = ground arith;
  on_cpu = ground arith;
  at_least_base = ground arith;
}

four_mutexes : (m : ℕ) → MutexIsValid 4 (four.mutexes m)
four_mutexes m = elim (Bool-cases (m == 0)) [
  | inl e ↦ rw e (record {
    binary = omega arith;
    free = λ h. absurd (omega arith);
    held = λ h. (0, refl);
    owner_in = omega arith;
    room = omega arith;
  })
  | inr e ↦ rw e (record {
    binary = omega arith;
    free = λ h. (refl, refl);
    held = λ h. absurd (omega arith);
    owner_in = tt;
    room = omega arith;
  })
]

four_semaphores : (s : ℕ) → SemaphoreIsValid (four.semaphores s)
four_semaphores s = record {
  bounded = ground arith;
  no_idle_token = ground arith;
  room = ground arith;
}

pub four-IsValid : IsValid four
four-IsValid = record {
  few = omega arith;
  current_in = omega arith;
  agree = four-agree;
  tcbs = four_tcbs;
  mutexes = four_mutexes;
  semaphores = four_semaphores;
}
