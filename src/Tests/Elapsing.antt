-- ===== src/Tests/Elapsing.antt =====
-- The theorems on deadlines, after a wait in which another task runs for some ticks.
use sentinel_rtos.Base.{◌<◌, ◌≤◌, ◌≡◌, ◌≢◌, ◌⊎◌, refl, some, ltb, if◌then◌else◌, arith}
use sentinel_rtos.Kernel.State.{
  Kernel, mutex_queue, semaphore_queue, ready, blocked, os_exit_critical, os_yield,
}
use sentinel_rtos.Kernel.Run.{done, yielded}
use sentinel_rtos.Kernel.Blocking.{block_current, resume}
use sentinel_rtos.Kernel.Scheduler.{
  os_scheduler, canary_intact, switch, choose, scan, consider, scan_start, dispatch, preempt,
}
use sentinel_rtos.Kernel.Tick.{sys_tick_handler, os_delay}
use sentinel_rtos.Kernel.Tick.Timing.{asleep}
use sentinel_rtos.Kernel.Mutex.{donate, os_mutex_acquire}
use sentinel_rtos.Kernel.Mutex.Inheritance.{waiting_state, lent}
use sentinel_rtos.Kernel.Semaphore.{os_semaphore_acquire}
use sentinel_rtos.Kernel.System.Elapsed.{Elapsed, begun, ticks, schedules}
use sentinel_rtos.Kernel.Deadline.{
  TimesOut, token_wait, os_mutex_acquire-TimesOut, os_semaphore_acquire-TimesOut,
}
use sentinel_rtos.Kernel.Deadline.Delay.{os_delay_on_time}
use sentinel_rtos.Tests.{four, four-IsValid}
use sentinel_rtos.Tests.Ownership.{
  switched, switched-IsValid, switched-Runs, switched_must_wait, four-Runs,
}

-- A tick after the switch away, and one more.
abbrev two_ticks : Kernel → Kernel
two_ticks k = sys_tick_handler (sys_tick_handler (switch k))

asleep-Elapsed : Elapsed 0 (asleep four 0 3) 2 (two_ticks (asleep four 0 3))
unfolding os_scheduler canary_intact switch choose scan consider scan_start dispatch preempt
asleep-Elapsed = ticks (ticks (schedules begun (ground arith) refl))

os_delay_on_time_example :
    (os_delay 3 four ≡ yielded (asleep four 0 3) (done tt))
    × (((two_ticks (asleep four 0 3)).os_tasks 0).state ≡ (if ltb 2 3 then blocked else ready))
    × (((2 < 3) × (choose (two_ticks (asleep four 0 3)) ≢ some 0)) ⊎ (3 ≤ 2))
os_delay_on_time_example =
    os_delay_on_time four (two_ticks (asleep four 0 3)) 3 0 2 four-IsValid four-Runs refl
      (omega arith) asleep-Elapsed

token_wait-Elapsed : Elapsed 0 (token_wait four 0 10 0) 2 (two_ticks (token_wait four 0 10 0))
unfolding os_scheduler canary_intact switch choose scan consider scan_start dispatch preempt
    block_current os_exit_critical os_yield
token_wait-Elapsed = ticks (ticks (schedules begun (ground arith) refl))

os_semaphore_acquire-TimesOut_example :
    (os_semaphore_acquire 0 10 four ≡ yielded (token_wait four 0 10 0) resume)
    × TimesOut (two_ticks (token_wait four 0 10 0)) 0 (semaphore_queue 0) 10 2
os_semaphore_acquire-TimesOut_example =
    os_semaphore_acquire-TimesOut four (two_ticks (token_wait four 0 10 0)) 0 10 0 2 four-IsValid
      four-Runs refl refl (omega arith) (omega arith) token_wait-Elapsed

waiting_state-Elapsed :
    Elapsed 3 (waiting_state switched 0 10 3 0) 2 (two_ticks (waiting_state switched 0 10 3 0))
unfolding os_scheduler canary_intact switch choose scan consider scan_start dispatch preempt
    block_current os_exit_critical os_yield waiting_state lent donate
waiting_state-Elapsed = ticks (ticks (schedules begun (ground arith) refl))

os_mutex_acquire-TimesOut_example :
    (os_mutex_acquire 0 10 switched ≡ yielded (waiting_state switched 0 10 3 0) resume)
    × TimesOut (two_ticks (waiting_state switched 0 10 3 0)) 3 (mutex_queue 0) 10 2
os_mutex_acquire-TimesOut_example =
    os_mutex_acquire-TimesOut switched (two_ticks (waiting_state switched 0 10 3 0)) 0 10 3 0 2
      switched-IsValid switched-Runs switched_must_wait (omega arith) waiting_state-Elapsed
