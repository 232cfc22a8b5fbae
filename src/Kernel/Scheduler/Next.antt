-- ===== src/Kernel/Scheduler/Next.antt =====
-- The task that `os_scheduler` of Kernel/os_kernel.c takes next, where one task stands out.
use sentinel_rtos.Base.{
  ℕ, ◌<◌, ◌≤◌, ◌≡◌, ◌≢◌, ap, subst, ◌∙◌, true, false, some, ◌==◌, arith, ℕ_discrete,
}
use sentinel_rtos.Kernel.State.{Kernel}
use sentinel_rtos.Kernel.Run.{done}
use sentinel_rtos.Kernel.Scheduler.{
  runnable, scan_start, dispatch, switch, canary_intact, os_scheduler,
}
use sentinel_rtos.Kernel.Scheduler.Choice.{Outcome, IsBest, choose-Outcome}
use sentinel_rtos.Kernel.Scheduler.Contract.{choose-some, best-highest, choose_rotates}
use sentinel_rtos.Kernel.Invariant.{IsValid}

-- Where the running task `c` is out-ranked by no other task but `t`, which may be its equal, `t` is next.
pub os_scheduler-next :
    (k : Kernel) (c t : ℕ)
    → IsValid k
    → canary_intact k ≡ true
    → k.current_tcb ≡ some c
    → t < k.task_count
    → t ≢ c
    → runnable (k.os_tasks t).state ≡ true
    → (k.os_tasks c).current_priority ≤ (k.os_tasks t).current_priority
    → ((u : ℕ)
        → u < k.task_count
        → u ≢ t
        → u ≢ c
        → runnable (k.os_tasks u).state ≡ true
        → (k.os_tasks u).current_priority < (k.os_tasks t).current_priority)
    → os_scheduler k ≡ done tt (dispatch k t)
unfolding os_scheduler switch
os_scheduler-next k c t v intact cur lt other can high lower =
    let (b, chosen) = choose-some k t v lt can in
    let best : IsBest k (scan_start k) k.task_count b =
      subst (Outcome k (scan_start k) k.task_count) chosen (choose-Outcome k) in
    let at_least = best-highest k b t v best lt can in
    let in_table : b < k.task_count = rw best.here (omega arith) in
    let rotates = choose_rotates k c t v cur lt other can high in
    let not_current : b ≢ c = λ e. rotates (chosen ∙ ap some e) in
    let found : b ≡ t = elim (ℕ_discrete b t) [
      | yes e ↦ e
      | no e ↦ absurd (omega (arith, lower b in_table e not_current best.can_run, at_least))
    ] in
    rw (non_empty, intact) (rw (chosen, switch) (ap (λ u. done tt (dispatch k u)) found))
  where
    non_empty : (k.task_count == 0) ≡ false
    non_empty = ground arith
