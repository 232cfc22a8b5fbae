-- ===== src/Boot/Paired.antt =====
-- The task table of Src/main.c with SENTINEL_BENCH before the launch, and what the scheduler of Kernel/os_kernel.c does
-- with it.
use sentinel_rtos.Base.{
  ◌-◌, subst, ℕ, zero, suc, ◌+◌, ◌%◌, ◌<◌, ◌≡◌, refl, ap, ◌∙◌, none, some, true, arith,
}
use sentinel_rtos.Kernel.State.{Kernel, Tcb, stack_canary}
use sentinel_rtos.Kernel.Run.{done, bind}
use sentinel_rtos.Kernel.Scheduler.{
  runnable, consider, scan, scan_start, choose, dispatch, switch, canary_intact, os_scheduler,
}
use sentinel_rtos.Kernel.Boot.{FirstTask, entered, start_first_task, os_kernel_launch}
use sentinel_rtos.Kernel.Safety.{Runs}
use sentinel_rtos.Kernel.Safety.Switch.{
  os_tasks-dispatch, os_tasks-preempt, dispatch-rest, dispatch-objects,
}
use sentinel_rtos.Queue.Polled.{Touches}
use sentinel_rtos.Bench.{scheduler_rounds, bench_scheduler_decision}
use sentinel_rtos.Boot.{Program, BenchTasks}
use sentinel_rtos.Boot.Entry.{
  IsApart, canary_apart, Framed, dispatch-Framed, Touches-Framed, launched-Framed, Enters,
  Framed-Enters,
}

-- Task `t` can run with this priority and has its canary at `a`, and its first frame, with this entry point, behind it.
pub record Stands (t priority a entry : ℕ) (k : Kernel) : Type 0 where
  pub can_run : runnable (k.os_tasks t).state ≡ true
  pub current : (k.os_tasks t).current_priority ≡ priority
  pub base : (k.os_tasks t).base_priority ≡ priority
  pub stack : (k.os_tasks t).stack_base ≡ a
  pub canary : k.memory a ≡ stack_canary
  pub frame : Framed t a entry k

-- Two equals and the idle task, of which task `c` is the current one.
pub record IsPaired (b : BenchTasks) (p : Program) (c : ℕ) (k : Kernel) : Type 0 where
  pub three : k.task_count ≡ 3
  pub current : k.current_tcb ≡ some c
  pub ping : Stands 0 2 b.ping_stack b.bench_ping_task k
  pub pong : Stands 1 2 b.pong_stack b.bench_pong_task k
  pub idle : Stands 2 0 p.idle_stack p.os_idle_task k

dispatch-Stands :
    (t priority a entry c u : ℕ) (k : Kernel)
    → k.current_tcb ≡ some c
    → Stands t priority a entry k
    → Stands t priority a entry (dispatch k u)
unfolding dispatch
dispatch-Stands t priority a entry c u k cur s =
    let here = os_tasks-preempt k u c t cur in
    record {
      can_run = ground (arith, here, s.can_run);
      current = ground (arith, here, s.current);
      base = ground (arith, here, s.base);
      stack = ground (arith, here, s.stack);
      canary = ap (λ m. m a) (dispatch-rest k u).0 ∙ s.canary;
      frame = dispatch-Framed t a entry c u k cur s.frame;
    }

started :
    (d : Kernel) (c : ℕ)
    → d.current_tcb ≡ some c
    → start_first_task d ≡ done (entered d c) (record d { kernel_running = true; primask = 0 })
unfolding start_first_task
started d c e = rw e refl

still :
    (d : Kernel) (t priority a entry : ℕ)
    → Stands t priority a entry d
    → Stands t priority a entry (record d { kernel_running = true; primask = 0 })
still d t priority a entry s = record {
  can_run = s.can_run;
  current = s.current;
  base = s.base;
  stack = s.stack;
  canary = s.canary;
  frame = launched-Framed d t a entry s.frame;
}

pub Touches-Stands :
    (t priority a entry buffer capacity : ℕ) (k k' : Kernel)
    → IsApart a buffer capacity
    → Touches k k' buffer capacity
    → Stands t priority a entry k
    → Stands t priority a entry k'
Touches-Stands t priority a entry buffer capacity k k' apart touched s = record {
  can_run = ground (arith, touched.tasks t, s.can_run);
  current = ground (arith, touched.tasks t, s.current, s.base);
  base = ground (arith, touched.tasks t, s.base);
  stack = ground (arith, touched.tasks t, s.stack);
  canary = ground (arith, touched.words a, s.canary, canary_apart a buffer capacity apart);
  frame = Touches-Framed t a entry buffer capacity k k' apart touched s.frame;
}

dispatched-Runs : (c : ℕ) (k : Kernel) → (dispatch k c).current_tcb ≡ some c → Runs (dispatch k c) c
dispatched-Runs c k cur = record {
  is_current = cur;
  is_running = ground (arith, os_tasks-dispatch k c c);
}

module _ (b : BenchTasks) (p : Program) where
  dispatch-IsPaired : (c u : ℕ) (k : Kernel) → IsPaired b p c k → IsPaired b p u (dispatch k u)
  dispatch-IsPaired c u k r = record {
    three = (dispatch-objects k u).0 ∙ r.three;
    current = (dispatch-objects k u).3;
    ping = dispatch-Stands 0 2 b.ping_stack b.bench_ping_task c u k r.current r.ping;
    pong = dispatch-Stands 1 2 b.pong_stack b.bench_pong_task c u k r.current r.pong;
    idle = dispatch-Stands 2 0 p.idle_stack p.os_idle_task c u k r.current r.idle;
  }

  scan_from_pong :
      (k : Kernel)
      → k.task_count ≡ 3
      → scan k 1 3 0 none ≡ consider k 0 (consider k 2 (consider k 1 none))
  unfolding scan
  scan_from_pong k three = rw three refl

  scan_from_idle :
      (k : Kernel)
      → k.task_count ≡ 3
      → scan k 2 3 0 none ≡ consider k 1 (consider k 0 (consider k 2 none))
  unfolding scan
  scan_from_idle k three = rw three refl

  chooses_pong : (k : Kernel) → IsPaired b p 0 k → choose k ≡ some 1
  unfolding choose consider scan_start
  chooses_pong k r =
      ap (λ o. scan k (elim o [ none ↦ 0 | some c ↦ (c + 1) % 256 ]) k.task_count 0 none) r.current
      ∙ ap (λ n. scan k 1 n 0 none) r.three
      ∙ scan_from_pong k r.three
      ∙ ground (arith, r.ping, r.pong, r.idle)

  chooses_ping : (k : Kernel) → IsPaired b p 1 k → choose k ≡ some 0
  unfolding choose consider scan_start
  chooses_ping k r =
      ap (λ o. scan k (elim o [ none ↦ 0 | some c ↦ (c + 1) % 256 ]) k.task_count 0 none) r.current
      ∙ ap (λ n. scan k 2 n 0 none) r.three
      ∙ scan_from_idle k r.three
      ∙ ground (arith, r.ping, r.pong, r.idle)

  switches_to_pong : (k : Kernel) → IsPaired b p 0 k → os_scheduler k ≡ done tt (dispatch k 1)
  unfolding os_scheduler switch canary_intact
  switches_to_pong k r =
      ground (arith, r.three, r.current, r.ping.stack, r.ping.canary, chooses_pong k r)

  switches_to_ping : (k : Kernel) → IsPaired b p 1 k → os_scheduler k ≡ done tt (dispatch k 0)
  unfolding os_scheduler switch canary_intact
  switches_to_ping k r =
      ground (arith, r.three, r.current, r.pong.stack, r.pong.canary, chooses_ping k r)

  -- A decision goes to the other of the two.
  decides :
      (c : ℕ) (k : Kernel)
      → c < 2
      → IsPaired b p c k
      → os_scheduler k ≡ done tt (dispatch k (1 - c))
  decides zero k two r = switches_to_pong k r
  decides (suc zero) k two r = switches_to_ping k r
  decides (suc (suc c)) k two r = absurd (omega arith)

  -- The decisions go to the two by turns.
  pub scheduler_rounds-IsPaired :
      (n c : ℕ) (k : Kernel)
      → c < 2
      → IsPaired b p c k
      → (k' : Kernel) × (scheduler_rounds n k ≡ done tt k') × IsPaired b p ((c + n) % 2) k'
  unfolding scheduler_rounds bind
  scheduler_rounds-IsPaired zero c k two r =
      (k, refl, subst (λ i. IsPaired b p i k) (omega arith) r)
  scheduler_rounds-IsPaired (suc n) c k two r =
      let (k', returned, paired) =
        scheduler_rounds-IsPaired n (1 - c) (dispatch k (1 - c)) (omega arith)
          (dispatch-IsPaired c (1 - c) k r) in
      (k', rw (decides c k two r) returned, subst (λ i. IsPaired b p i k') (omega arith) paired)

  -- From a running task on, the two take turns on the processor.
  turns-Runs :
      (n c : ℕ) (k : Kernel)
      → c < 2
      → IsPaired b p c k
      → Runs k c
      → (k' : Kernel) × (scheduler_rounds n k ≡ done tt k')
        × IsPaired b p ((c + n) % 2) k'
        × Runs k' ((c + n) % 2)
  unfolding scheduler_rounds bind
  turns-Runs zero c k two r run =
      let same : c ≡ (c + 0) % 2 = omega arith in
      (k, refl, subst (λ i. IsPaired b p i k) same r, subst (Runs k) same run)
  turns-Runs (suc n) c k two r run =
      let next = dispatch-IsPaired c (1 - c) k r in
      let (k', returned, paired, runs) =
        turns-Runs n (1 - c) (dispatch k (1 - c)) (omega arith) next
          (dispatched-Runs (1 - c) k next.current) in
      let same : (1 - c + n) % 2 ≡ (c + suc n) % 2 = omega arith in
      (
        k',
        rw (decides c k two r) returned,
        subst (λ i. IsPaired b p i k') same paired,
        subst (Runs k') same runs,
      )

  -- The benchmark of the scheduler ends with ping on the processor.
  pub decision-Runs :
      (k : Kernel)
      → IsPaired b p 0 k
      → (k' : Kernel) × (bench_scheduler_decision k ≡ done tt k') × IsPaired b p 0 k' × Runs k' 0
  unfolding bench_scheduler_decision scheduler_rounds bind
  decision-Runs k r =
      let next = dispatch-IsPaired 0 1 k r in
      let (k', returned, paired, runs) =
        turns-Runs 99 1 (dispatch k 1) (omega arith) next (dispatched-Runs 1 k next.current) in
      (k', rw (switches_to_pong k r) returned, paired, runs)

  -- The launch of such a table.
  pub IsPaired-launches :
      (k : Kernel)
      → IsPaired b p 0 k
      → (k' : Kernel) × (f : FirstTask) × (os_kernel_launch k ≡ done f k')
        × Enters b.pong_stack b.bench_pong_task f
        × Runs k' 1
        × (k'.kernel_running ≡ true)
        × (k'.primask ≡ 0)
        × IsPaired b p 1 k'
  unfolding os_kernel_launch bind start_first_task
  IsPaired-launches k r =
      let d = dispatch k 1 in
      let q = dispatch-IsPaired 0 1 k r in
      (
        record d { kernel_running = true; primask = 0 },
        entered d 1,
        rw (switches_to_pong k r) (started d 1 q.current),
        Framed-Enters 1 b.pong_stack b.bench_pong_task d q.pong.frame,
        record {
          is_current = q.current;
          is_running = ap (λ (t : Tcb). t.state) (os_tasks-dispatch k 1 1);
        },
        refl,
        refl,
        record {
          three = q.three;
          current = q.current;
          ping = still d 0 2 b.ping_stack b.bench_ping_task q.ping;
          pong = still d 1 2 b.pong_stack b.bench_pong_task q.pong;
          idle = still d 2 0 p.idle_stack p.os_idle_task q.idle;
        },
      )
