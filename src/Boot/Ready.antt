-- ===== src/Boot/Ready.antt =====
-- The task table of Src/main.c before the launch, and what the scheduler of Kernel/os_kernel.c does with it.
use sentinel_rtos.Base.{ℕ, zero, suc, ◌≡◌, refl, ap, ◌∙◌, none, some, true, arith}
use sentinel_rtos.Kernel.State.{Kernel, Tcb, stack_canary}
use sentinel_rtos.Kernel.Run.{done, bind}
use sentinel_rtos.Kernel.Scheduler.{
  runnable, consider, scan, scan_start, choose, preempt, dispatch, switch, canary_intact,
  os_scheduler,
}
use sentinel_rtos.Kernel.Boot.{FirstTask, entered, start_first_task, os_kernel_launch}
use sentinel_rtos.Kernel.Safety.{Runs}
use sentinel_rtos.Kernel.Safety.Switch.{os_tasks-dispatch}
use sentinel_rtos.Queue.Polled.{Touches}
use sentinel_rtos.Bench.{scheduler_rounds}
use sentinel_rtos.Boot.Entry.{
  IsApart, canary_apart, Framed, Touches-Framed, launched-Framed, Enters, Framed-Enters,
}

-- Three tasks of falling priorities, of which the first is the current one, can run, and has its
-- canary at `a` and its first frame behind it.
pub record IsReady (a entry : ℕ) (k : Kernel) : Type 0 where
  pub three : k.task_count ≡ 3
  pub first : k.current_tcb ≡ some 0
  pub can_run : runnable (k.os_tasks 0).state ≡ true
  pub high : ((k.os_tasks 0).current_priority ≡ 2) × ((k.os_tasks 0).base_priority ≡ 2)
  pub middle : ((k.os_tasks 1).current_priority ≡ 1) × ((k.os_tasks 1).base_priority ≡ 1)
  pub low : ((k.os_tasks 2).current_priority ≡ 0) × ((k.os_tasks 2).base_priority ≡ 0)
  pub stack : (k.os_tasks 0).stack_base ≡ a
  pub canary : k.memory a ≡ stack_canary
  pub frame : Framed 0 a entry k

scan_three :
    (k : Kernel)
    → k.task_count ≡ 3
    → scan k 1 3 0 none ≡ consider k 0 (consider k 2 (consider k 1 none))
unfolding scan
scan_three k three = rw three refl

scan_start_zero : (k : Kernel) → k.current_tcb ≡ some 0 → scan_start k ≡ 1
unfolding scan_start
scan_start_zero k e = rw e refl

IsReady-choose : (a entry : ℕ) (k : Kernel) → IsReady a entry k → choose k ≡ some 0
unfolding choose consider
IsReady-choose a entry k r =
    ap (λ s. scan k s k.task_count 0 none) (scan_start_zero k r.first)
    ∙ ap (λ n. scan k 1 n 0 none) r.three
    ∙ scan_three k r.three
    ∙ ground (arith, r.can_run, r.high.0, r.middle.0, r.low.0)

IsReady-scheduler :
    (a entry : ℕ) (k : Kernel) → IsReady a entry k → os_scheduler k ≡ done tt (dispatch k 0)
unfolding os_scheduler switch canary_intact
IsReady-scheduler a entry k r =
    ground (arith, r.three, r.first, r.stack, r.canary, IsReady-choose a entry k r)

stays_on : (k : Kernel) → k.current_tcb ≡ some 0 → preempt k 0 ≡ k
unfolding preempt
stays_on k e = rw e refl

dispatch-IsReady : (a entry : ℕ) (k : Kernel) → IsReady a entry k → IsReady a entry (dispatch k 0)
unfolding dispatch
dispatch-IsReady a entry k r = rw (stays_on k r.first) (record {
  three = r.three;
  first = refl;
  can_run = refl;
  high = r.high;
  middle = r.middle;
  low = r.low;
  stack = r.stack;
  canary = r.canary;
  frame = record { above = r.frame.above; below = r.frame.below; pc = r.frame.pc };
})

pub scheduler_rounds-IsReady :
    (n a entry : ℕ) (k : Kernel)
    → IsReady a entry k
    → (k' : Kernel) × (scheduler_rounds n k ≡ done tt k') × IsReady a entry k'
unfolding scheduler_rounds bind
scheduler_rounds-IsReady zero a entry k r = (k, refl, r)
scheduler_rounds-IsReady (suc n) a entry k r =
    let (k', returned, ready) =
      scheduler_rounds-IsReady n a entry (dispatch k 0) (dispatch-IsReady a entry k r) in
    (k', rw (IsReady-scheduler a entry k r) returned, ready)

-- What touches another buffer only leaves the table ready.
pub Touches-IsReady :
    (a entry buffer capacity : ℕ) (k k' : Kernel)
    → IsApart a buffer capacity
    → Touches k k' buffer capacity
    → IsReady a entry k
    → IsReady a entry k'
Touches-IsReady a entry buffer capacity k k' apart t r = record {
  three = t.same_count ∙ r.three;
  first = t.same_current ∙ r.first;
  can_run = ground (arith, t.tasks 0, r.can_run);
  high = (ground (arith, t.tasks 0, r.high), ground (arith, t.tasks 0, r.high));
  middle = (ground (arith, t.tasks 1, r.middle), ground (arith, t.tasks 1, r.middle));
  low = (ground (arith, t.tasks 2, r.low), ground (arith, t.tasks 2, r.low));
  stack = ground (arith, t.tasks 0, r.stack);
  canary = ground (arith, t.words a, r.canary, canary_apart a buffer capacity apart);
  frame = Touches-Framed 0 a entry buffer capacity k k' apart t r.frame;
}

started :
    (d : Kernel)
    → d.current_tcb ≡ some 0
    → start_first_task d ≡ done (entered d 0) (record d { kernel_running = true; primask = 0 })
unfolding start_first_task
started d e = rw e refl

-- The launch of a ready table.
pub IsReady-launches :
    (a entry : ℕ) (k : Kernel)
    → IsReady a entry k
    → (k' : Kernel) × (f : FirstTask) × (os_kernel_launch k ≡ done f k')
      × Enters a entry f
      × Runs k' 0
      × (k'.kernel_running ≡ true)
      × (k'.primask ≡ 0)
      × IsReady a entry k'
unfolding os_kernel_launch bind start_first_task
IsReady-launches a entry k r =
    let d = dispatch k 0 in
    let q = dispatch-IsReady a entry k r in
    (
      record d { kernel_running = true; primask = 0 },
      entered d 0,
      rw (IsReady-scheduler a entry k r) (started d q.first),
      Framed-Enters 0 a entry d q.frame,
      record {
        is_current = q.first;
        is_running = ap (λ (t : Tcb). t.state) (os_tasks-dispatch k 0 0);
      },
      refl,
      refl,
      record {
        three = q.three;
        first = q.first;
        can_run = q.can_run;
        high = q.high;
        middle = q.middle;
        low = q.low;
        stack = q.stack;
        canary = q.canary;
        frame = launched-Framed d 0 a entry q.frame;
      },
    )
