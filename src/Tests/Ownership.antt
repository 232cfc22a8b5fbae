-- ===== src/Tests/Ownership.antt =====
-- The theorems on owners, deadlines and the interrupt mask of Kernel/os_kernel.c, on small systems.
use sentinel_rtos.Base.{◌<◌, ◌≡◌, ◌≢◌, refl, arith, some}
use sentinel_rtos.Kernel.State.{Kernel, mutex_queue, os_enter_critical, os_exit_critical}
use sentinel_rtos.Kernel.Run.{reached, bind}
use sentinel_rtos.Kernel.Boot.{os_kernel_init, os_kernel_launch, start_first_task}
use sentinel_rtos.Kernel.TaskTable.{os_task_create, os_task_init_stack}
use sentinel_rtos.Kernel.Scheduler.{
  os_scheduler, canary_intact, switch, choose, scan, consider, scan_start, dispatch, preempt,
}
use sentinel_rtos.Kernel.Tick.{os_delay}
use sentinel_rtos.Kernel.Mutex.{os_mutex_init, os_mutex_acquire, os_mutex_release}
use sentinel_rtos.Kernel.Mutex.Inheritance.{MustWait}
use sentinel_rtos.Kernel.Semaphore.{os_semaphore_init, os_semaphore_acquire, os_semaphore_release}
use sentinel_rtos.Kernel.Safety.{Stops, Runs}
use sentinel_rtos.Kernel.Safety.Switch.{dispatch-IsValid}
use sentinel_rtos.Kernel.Invariant.{IsValid}
use sentinel_rtos.Kernel.System.{Reach, next, acquires}
use sentinel_rtos.Kernel.Ownership.Failure.{Reach-owner}
use sentinel_rtos.Kernel.Masking.{Masked, calls_restore_primask}
use sentinel_rtos.Tests.{stop, started, started-Reach, four, four-IsValid}

-- Task 1 has taken mutex 0.
abbrev holding : Kernel
holding = stop (os_mutex_acquire 0 10 started)

started-Runs : Runs started 1
unfolding os_kernel_launch bind os_scheduler os_semaphore_init os_mutex_init os_task_create
    os_kernel_init canary_intact os_task_init_stack start_first_task switch choose scan consider
    scan_start dispatch preempt
started-Runs = record { is_current = refl; is_running = refl }

acquired : reached (os_mutex_acquire 0 10 started) ≡ some holding
unfolding reached os_mutex_acquire os_enter_critical os_exit_critical os_kernel_launch bind
    os_scheduler os_semaphore_init os_mutex_init os_task_create os_kernel_init canary_intact
    os_task_init_stack start_first_task switch choose scan consider scan_start dispatch preempt
acquired = refl

holding-Reach : Reach holding
holding-Reach = next started-Reach (acquires 0 10 1 started-Runs acquired)

owned : (holding.mutexes 0).owner ≡ some 1
unfolding os_mutex_acquire os_enter_critical os_exit_critical os_kernel_launch bind os_scheduler
    os_semaphore_init os_mutex_init os_task_create os_kernel_init canary_intact os_task_init_stack
    start_first_task switch choose scan consider scan_start dispatch preempt
owned = refl

Reach-owner_example :
    ((holding.mutexes 0).lock ≡ 1)
    × (1 < holding.task_count)
    × ((holding.os_tasks 1).wait_queue ≢ some (mutex_queue 0))
Reach-owner_example = Reach-owner 0 1 holding-Reach owned

-- Task 3 has been dispatched in place of task 0, which owns mutex 0.
abbrev pub switched : Kernel
switched = dispatch four 3

pub switched-IsValid : IsValid switched
switched-IsValid = dispatch-IsValid four 3 (omega arith) refl four-IsValid

pub switched-Runs : Runs switched 3
unfolding dispatch preempt
switched-Runs = record { is_current = refl; is_running = refl }

pub switched_must_wait : MustWait switched 0 10 3 0
unfolding dispatch preempt
switched_must_wait = record {
  launched = refl;
  caller = refl;
  held = omega arith;
  holder = refl;
  other = omega arith;
  waits = omega arith;
  room = omega arith;
}

pub four-Runs : Runs four 0
four-Runs = record { is_current = refl; is_running = refl }

calls_restore_primask_example :
    Stops (Masked four.primask) (os_mutex_acquire 1 10 four)
    × Stops (Masked four.primask) (os_mutex_release 1 four)
    × Stops (Masked four.primask) (os_semaphore_acquire 0 10 four)
    × Stops (Masked four.primask) (os_semaphore_release 0 four)
    × Stops (Masked four.primask) (os_delay 20 four)
calls_restore_primask_example = calls_restore_primask four 1 0 10 20 0 four-IsValid four-Runs
