-- ===== src/Kernel/Deadline/Delay.antt =====
-- How long `os_delay` of Kernel/os_kernel.c keeps a task from running.
use sentinel_rtos.Base.{
  ℕ, ◌<◌, ◌≤◌, ◌≡◌, ◌≢◌, ◌⊎◌, ◌||◌, not, true, false, some, inl, inr, ◌==◌, ltb, if◌then◌else◌,
  dec_lt, arith,
}
use sentinel_rtos.Kernel.State.{
  Kernel, ready, blocked, os_enter_critical, os_exit_critical, os_yield,
}
use sentinel_rtos.Kernel.Run.{done, yielded}
use sentinel_rtos.Kernel.Scheduler.{choose}
use sentinel_rtos.Kernel.Tick.{os_delay}
use sentinel_rtos.Kernel.Tick.Timing.{aged, asleep}
use sentinel_rtos.Kernel.Invariant.{IsValid}
use sentinel_rtos.Kernel.Safety.{Runs}
use sentinel_rtos.Kernel.Safety.Time.{os_delay-IsValid}
use sentinel_rtos.Kernel.System.Elapsed.{Elapsed, Elapsed-aged}
use sentinel_rtos.Kernel.Deadline.{stopped-IsValid, asleep_not_chosen}

stops_asleep :
    (k : Kernel) (ms c : ℕ)
    → k.kernel_running ≡ true
    → k.current_tcb ≡ some c
    → 0 < ms
    → os_delay ms k ≡ yielded (asleep k c ms) (done tt)
unfolding os_delay os_enter_critical os_exit_critical os_yield
stops_asleep k ms c live cur pos = ground (arith, not_zero)
  where
    not_zero : (not true || ms == 0) ≡ false
    not_zero = ground arith

-- `os_delay(ms)` with `ms` above 0 by the running task of a well-formed state of the running kernel stops at a switch.
-- However the ticks, the calls of the scheduler and the calls of other tasks and handlers follow each other from there to a
-- state `j`, as long as none of them touches the task's wait and the scheduler has not chosen the task: it is BLOCKED
-- while fewer than `ms` ticks have passed, and the scheduler does not choose it; after `ms` or more it is READY.
pub os_delay_on_time :
    (k j : Kernel) (ms c n : ℕ)
    → IsValid k
    → Runs k c
    → k.kernel_running ≡ true
    → 0 < ms
    → Elapsed c (asleep k c ms) n j
    → (os_delay ms k ≡ yielded (asleep k c ms) (done tt))
      × ((j.os_tasks c).state ≡ (if ltb n ms then blocked else ready))
      × (((n < ms) × (choose j ≢ some c)) ⊎ (ms ≤ n))
unfolding aged
os_delay_on_time k j ms c n v run live pos e =
    let stops = stops_asleep k ms c live run.is_current pos in
    let after = stopped-IsValid (os_delay ms k) stops (os_delay-IsValid k ms c run v) in
    let (valid, same) = Elapsed-aged c (asleep k c ms) after (ground arith) e in
    (
      stops,
      ground (arith, same),
      elim (dec_lt n ms) [
        | yes before ↦ inl (before, asleep_not_chosen j c valid (ground (arith, same)))
        | no later ↦ inr (omega arith)
      ],
    )
