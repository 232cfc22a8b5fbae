-- ===== src/Tests/Switching.antt =====
-- The theorems on the scheduler, the ticks and the task table of Kernel/os_kernel.c, on small systems.
use sentinel_rtos.Base.{ℕ, ◌≤◌, ◌<◌, ◌≡◌, refl, arith, true}
use sentinel_rtos.Kernel.State.{Kernel}
use sentinel_rtos.Kernel.Run.{done}
use sentinel_rtos.Kernel.Scheduler.{runnable, canary_intact, dispatch, os_scheduler}
use sentinel_rtos.Kernel.Scheduler.Turns.{IsDue, os_scheduler_times, os_scheduler_in_turn}
use sentinel_rtos.Kernel.Safety.{Runs}
use sentinel_rtos.Kernel.Scheduler.Contract.{os_scheduler_highest}
use sentinel_rtos.Kernel.Tick.{sys_tick_handler}
use sentinel_rtos.Kernel.Invariant.{IsValid}
use sentinel_rtos.Kernel.System.{tick, next}
use sentinel_rtos.Kernel.System.Reachable.{Reach-IsValid}
use sentinel_rtos.Tests.{started, started-Reach, four, four-IsValid}

Reach-IsValid_example : IsValid (sys_tick_handler started)
Reach-IsValid_example =
    Reach-IsValid {k = sys_tick_handler started} (next started-Reach (tick refl))

os_scheduler_highest_example :
    (b : ℕ) × (os_scheduler four ≡ done tt (dispatch four b))
    × (b < 4)
    × (runnable (four.os_tasks b).state ≡ true)
    × ((u : ℕ)
        → u < 4
        → runnable (four.os_tasks u).state ≡ true
        → (four.os_tasks u).current_priority ≤ (four.os_tasks b).current_priority)
unfolding canary_intact
os_scheduler_highest_example = os_scheduler_highest four 0 four-IsValid refl (omega arith) refl

four-IsDue : IsDue 3 four
four-IsDue = record {
  in_table = omega arith;
  can_run = refl;
  highest = λ t lt can. ground arith;
  canaries = λ t lt. refl;
}

os_scheduler_in_turn_example :
    (i : ℕ) × (k' : Kernel) × (i ≤ 4) × (os_scheduler_times i four ≡ done tt k') × Runs k' 3
os_scheduler_in_turn_example = os_scheduler_in_turn four 3 0 four-IsValid four-IsDue refl
