-- ===== src/Kernel/System/Elapsed.antt =====
-- What happens while a task waits in Kernel/os_kernel.c: ticks, switches to other tasks, and their calls.
use sentinel_rtos.Base.{
  ℕ, suc, ◌+◌, ◌%◌, ◌≡◌, ◌≢◌, sym, ap, ◌∙◌, subst, false, some, inl, inr, arith, Option-cases,
}
use sentinel_rtos.Kernel.State.{Kernel, Tcb, blocked, os_yield, u32_mod}
use sentinel_rtos.Kernel.Run.{done}
use sentinel_rtos.Kernel.Scheduler.{
  is_running, choose, dispatch, switch, os_scheduler, os_stack_overflow_hook,
}
use sentinel_rtos.Kernel.Tick.{sys_tick_handler}
use sentinel_rtos.Kernel.Tick.Effect.{ticked, os_tasks-tick_tasks}
use sentinel_rtos.Kernel.Tick.Timing.{aged}
use sentinel_rtos.Kernel.Invariant.{IsValid}
use sentinel_rtos.Kernel.Safety.Switch.{os_tasks-dispatch, os_tasks-preempt, preempt_idle}
use sentinel_rtos.Kernel.Safety.Time.{sys_tick_handler-IsValid}
use sentinel_rtos.Kernel.System.{Step, switches}
use sentinel_rtos.Kernel.System.Reachable.{Step-IsValid}

-- Two TCBs that wait alike; their priorities may differ.
pub record SameWait (x y : Tcb) : Type 0 where
  pub same_state : x.state ≡ y.state
  pub same_sleep_time : x.sleep_time ≡ y.sleep_time
  pub same_wait_queue : x.wait_queue ≡ y.wait_queue
  pub same_wait_result : x.wait_result ≡ y.wait_result

-- From `k` on, `n` ticks have passed, with any number of scheduler calls between them that do not choose task `c`, and any
-- number of other events that leave its wait alone: nobody wakes it. The state is now `j`.
pub data Elapsed (c : ℕ) (k : Kernel) : ℕ → Kernel → Type 0 where
  begun : Elapsed c k 0 k
  ticks : {n : ℕ} {j : Kernel} → Elapsed c k n j → Elapsed c k (suc n) (sys_tick_handler j)
  schedules :
      {n : ℕ} {j j' : Kernel}
      → Elapsed c k n j
      → choose j ≢ some c
      → os_scheduler j ≡ done tt j'
      → Elapsed c k n j'
  calls :
      {n : ℕ} {j j' : Kernel}
      → Elapsed c k n j
      → Step j j'
      → SameWait (j'.os_tasks c) (j.os_tasks c)
      → Elapsed c k n j'

tick-SameWait :
    (n c : ℕ) (t : Tcb) (j : Kernel)
    → IsValid j
    → SameWait (j.os_tasks c) (aged n t)
    → SameWait ((sys_tick_handler j).os_tasks c) (aged (suc n) t)
unfolding sys_tick_handler os_yield aged ticked
tick-SameWait n c t j v s =
    let here =
      os_tasks-tick_tasks (record j { os_ticks = (j.os_ticks + 1) % u32_mod }) 0 j.task_count c in
    record {
      same_state = ground (arith, here, s, v.tcbs c);
      same_sleep_time = ground (arith, here, s, v.tcbs c);
      same_wait_queue = ground (arith, here, s, v.tcbs c);
      same_wait_result = ground (arith, here, s, v.tcbs c);
    }

-- A dispatch of another task leaves a task alone that is not RUNNING.
dispatch-keeps :
    (c b : ℕ) (j : Kernel)
    → is_running (j.os_tasks c).state ≡ false
    → b ≢ c
    → (dispatch j b).os_tasks c ≡ j.os_tasks c
dispatch-keeps c b j still other = elim (Option-cases j.current_tcb) [
  | inl e ↦
      ground
        (arith, os_tasks-dispatch j b c, ap (λ (i : Kernel). i.os_tasks c) (preempt_idle j b e))
  | inr (d, e) ↦ ground (arith, os_tasks-dispatch j b c, os_tasks-preempt j b d c e)
]

pub scheduler-keeps :
    (c : ℕ) (j j' : Kernel)
    → is_running (j.os_tasks c).state ≡ false
    → choose j ≢ some c
    → os_scheduler j ≡ done tt j'
    → j'.os_tasks c ≡ j.os_tasks c
unfolding os_scheduler os_stack_overflow_hook switch
scheduler-keeps c j j' still other e = elim (Option-cases (choose j)) [
  | inl none_can ↦
      let same : j ≡ j' = ground (arith, none_can) in ap (λ (i : Kernel). i.os_tasks c) (sym same)
  | inr (b, chosen) ↦
      let apart : b ≢ c = λ h. other (chosen ∙ ap some h) in
      let kept = dispatch-keeps c b j still apart in ground (arith, chosen, kept)
]

aged_still : (n : ℕ) (t : Tcb) → t.state ≡ blocked → is_running (aged n t).state ≡ false
unfolding aged
aged_still n t e = ground (arith, e)

-- The state stays well formed, and the TCB ages with the ticks, whatever happens between them.
pub Elapsed-aged :
    (c : ℕ) (k : Kernel) {n : ℕ} {j : Kernel}
    → IsValid k
    → (k.os_tasks c).state ≡ blocked
    → Elapsed c k n j
    → IsValid j × SameWait (j.os_tasks c) (aged n (k.os_tasks c))
unfolding aged
Elapsed-aged c k v asleep begun = (
  v,
  record {
    same_state = ground arith;
    same_sleep_time = ground arith;
    same_wait_queue = ground arith;
    same_wait_result = ground arith;
  },
)
Elapsed-aged c k v asleep (ticks {n} {j} e) =
    let (valid, same) = Elapsed-aged c k v asleep e in
    (sys_tick_handler-IsValid j valid, tick-SameWait n c (k.os_tasks c) j valid same)
Elapsed-aged c k v asleep (schedules {n} {j} {j'} e other returned) =
    let (valid, same) = Elapsed-aged c k v asleep e in
    let still : is_running (j.os_tasks c).state ≡ false =
      ap is_running same.same_state ∙ aged_still n (k.os_tasks c) asleep in
    let kept = scheduler-keeps c j j' still other returned in
    (
      Step-IsValid (switches returned) valid,
      subst (λ t. SameWait t (aged n (k.os_tasks c))) (sym kept) same,
    )
Elapsed-aged c k v asleep (calls {n} {j} {j'} e step untouched) =
    let (valid, same) = Elapsed-aged c k v asleep e in
    (
      Step-IsValid step valid,
      record {
        same_state = untouched.same_state ∙ same.same_state;
        same_sleep_time = untouched.same_sleep_time ∙ same.same_sleep_time;
        same_wait_queue = untouched.same_wait_queue ∙ same.same_wait_queue;
        same_wait_result = untouched.same_wait_result ∙ same.same_wait_result;
      },
    )
