-- ===== src/Boot/BenchLaunch.antt =====
-- main() of Src/main.c with SENTINEL_BENCH, from its first call to the first task.
use sentinel_rtos.Base.{ℕ, ◌<◌, ◌≡◌, ◌≢◌, subst, ◌%◌, refl, ◌∙◌, none, some, true, arith}
use sentinel_rtos.Kernel.State.{Kernel, ready}
use sentinel_rtos.Kernel.Run.{done, bind, ◌>>◌}
use sentinel_rtos.Kernel.Safety.{Runs}
use sentinel_rtos.Kernel.TaskTable.{os_task_create}
use sentinel_rtos.Kernel.TaskTable.Frame.{IsAccepted, os_task_create-frame}
use sentinel_rtos.Kernel.Boot.{FirstTask, os_kernel_launch}
use sentinel_rtos.Bench.{scheduler_rounds, bench_scheduler_decision}
use sentinel_rtos.Boot.Entry.{IsApart, canary_apart, created-Framed, still-Framed, Enters}
use sentinel_rtos.Bench.Loops.{before_scheduler}
use sentinel_rtos.Boot.{Program, BenchTasks, stack_words, create_bench_tasks, bench_main}
use sentinel_rtos.Boot.Creation.{os_task_create-tcb}
use sentinel_rtos.Boot.Launch.{before_tasks}
use sentinel_rtos.Boot.Paired.{
  Stands, IsPaired, Touches-Stands, scheduler_rounds-IsPaired, decision-Runs, IsPaired-launches,
}

-- The layout that the benchmark's main() relies on: entry points, stacks outside those created after them and outside
-- the benchmark's buffer, and two semaphores for each queue used before the launch.
pub record IsBenchLinked (b : BenchTasks) (p : Program) (k : Kernel) : Type 0 where
  pub ping_entry : b.bench_ping_task ≢ 0
  pub pong_entry : b.bench_pong_task ≢ 0
  pub idle_entry : p.os_idle_task ≢ 0
  pub ping_pong : IsApart b.ping_stack b.pong_stack 256
  pub ping_idle : IsApart b.ping_stack p.idle_stack 256
  pub pong_idle : IsApart b.pong_stack p.idle_stack 256
  pub ping_buffer : IsApart b.ping_stack p.bench_buffer 8
  pub pong_buffer : IsApart b.pong_stack p.bench_buffer 8
  pub idle_buffer : IsApart p.idle_stack p.bench_buffer 8
  pub post_slots : (k.queues p.post_queue).empty_slots ≢ (k.queues p.post_queue).filled_slots
  pub bench_slots : (k.queues p.bench_queue).empty_slots ≢ (k.queues p.bench_queue).filled_slots

module _ (entry stack priority : ℕ) (k : Kernel) (h : IsAccepted entry stack_words k) where
  abbrev created : Kernel
  created = (os_task_create entry stack stack_words priority k).1

  created-Stands : (n : ℕ) → k.task_count ≡ n → Stands n priority stack entry created
  created-Stands n there =
      let t = os_task_create-tcb entry stack stack_words priority n k h in
      let frame = os_task_create-frame entry stack stack_words priority k h in
      record {
        can_run = ground (arith, t.3, there);
        current = ground (arith, t.0, there);
        base = ground (arith, t.1, there);
        stack = ground (arith, t.2, there);
        canary = frame.5;
        frame = created-Framed entry stack priority k h n there;
      }

  still-Stands :
      (t other_priority a e : ℕ)
      → t < k.task_count
      → IsApart a stack 256
      → Stands t other_priority a e k
      → Stands t other_priority a e created
  still-Stands t other_priority a e before apart s =
      let same = os_task_create-tcb entry stack stack_words priority t k h in
      let frame = os_task_create-frame entry stack stack_words priority k h in
      record {
        can_run = ground (arith, same.3, s.can_run);
        current = ground (arith, same.0, s.current);
        base = ground (arith, same.1, s.base);
        stack = ground (arith, same.2, s.stack);
        canary = frame.8 a (canary_apart a stack 256 apart) ∙ s.canary;
        frame = still-Framed entry stack priority k h t a e before apart s.frame;
      }

create_bench_tasks-IsPaired :
    (b : BenchTasks) (p : Program) (k0 k : Kernel)
    → IsBenchLinked b p k0
    → k.task_count ≡ 0
    → k.current_tcb ≡ none
    → IsPaired b p 0 (create_bench_tasks b p k)
      × ((create_bench_tasks b p k).queues ≡ k.queues)
      × (((create_bench_tasks b p k).os_tasks 0).state ≡ ready)
unfolding create_bench_tasks
create_bench_tasks-IsPaired b p k0 k l empty none_yet =
    let h0 : IsAccepted b.bench_ping_task stack_words k = record {
      room = omega arith;
      entry = l.ping_entry;
      words = omega arith;
    } in
    let k1 = (os_task_create b.bench_ping_task b.ping_stack stack_words 2 k).1 in
    let n1 : k1.task_count ≡ 1 =
      ground (arith, os_task_create-frame b.bench_ping_task b.ping_stack stack_words 2 k h0) in
    let h1 : IsAccepted b.bench_pong_task stack_words k1 = record {
      room = omega arith;
      entry = l.pong_entry;
      words = omega arith;
    } in
    let k2 = (os_task_create b.bench_pong_task b.pong_stack stack_words 2 k1).1 in
    let n2 : k2.task_count ≡ 2 =
      ground (arith, os_task_create-frame b.bench_pong_task b.pong_stack stack_words 2 k1 h1) in
    let h2 : IsAccepted p.os_idle_task stack_words k2 = record {
      room = omega arith;
      entry = l.idle_entry;
      words = omega arith;
    } in
    let t0 = os_task_create-tcb b.bench_ping_task b.ping_stack stack_words 2 0 k h0 in
    let t1 = os_task_create-tcb b.bench_pong_task b.pong_stack stack_words 2 0 k1 h1 in
    let t2 = os_task_create-tcb p.os_idle_task p.idle_stack stack_words 0 0 k2 h2 in
    let c1 : k1.current_tcb ≡ some 0 = t0.4 ∙ rw (none_yet, empty) refl in
    let c2 : k2.current_tcb ≡ some 0 = t1.4 ∙ rw c1 refl in
    let ping1 = created-Stands b.bench_ping_task b.ping_stack 2 k h0 0 empty in
    let ping2 =
      still-Stands b.bench_pong_task b.pong_stack 2 k1 h1 0 2 b.ping_stack b.bench_ping_task
        (omega arith) l.ping_pong ping1 in
    let pong2 = created-Stands b.bench_pong_task b.pong_stack 2 k1 h1 1 n1 in
    let keeps = still-Stands p.os_idle_task p.idle_stack 0 k2 h2 in
    (
      record {
        three =
            ground (arith, os_task_create-frame p.os_idle_task p.idle_stack stack_words 0 k2 h2);
        current = t2.4 ∙ rw c2 refl;
        ping = keeps 0 2 b.ping_stack b.bench_ping_task (omega arith) l.ping_idle ping2;
        pong = keeps 1 2 b.pong_stack b.bench_pong_task (omega arith) l.pong_idle pong2;
        idle = created-Stands p.os_idle_task p.idle_stack 0 k2 h2 2 n2;
      },
      t2.5 ∙ t1.5 ∙ t0.5,
      ground (arith, t2.3, t1.3, t0.3, n1, n2, empty),
    )

-- With SENTINEL_BENCH main() gets to pong's task. From any state of the kernel's memory and any program whose entry points
-- are not NULL, whose stacks are outside those created later and outside the benchmark's buffer, and
-- whose self-test and benchmark queues have two semaphores each: the self-test passes, ping, pong and the idle task are
-- created, and the benchmarks reach a state `k3`, with ping READY, from which the scheduler's benchmark and the launch are left.
-- From `k3` any number `n` of decisions go to pong and ping by turns: after `n` of them task `n % 2` is the current one; and
-- the benchmark returns with ping RUNNING. main() then branches to the entry point of pong, the second task created, with the
-- PSP inside pong's stack; pong is the running task, with the kernel running, interrupts enabled, all three tasks able to
-- run, and the canaries of their stacks in place.
pub bench_main-launches :
    (b : BenchTasks) (p : Program) (k : Kernel) (n : ℕ)
    → IsBenchLinked b p k
    → (k3 : Kernel) × (j : Kernel) × (e : Kernel) × (k' : Kernel) × (f : FirstTask) × (bench_main b
          p k
        ≡ (bench_scheduler_decision >> os_kernel_launch) k3)
      × ((k3.os_tasks 0).state ≡ ready)
      × (bench_scheduler_decision k3 ≡ done tt e)
      × Runs e 0
      × (scheduler_rounds n k3 ≡ done tt j)
      × IsPaired b p (n % 2) j
      × (bench_main b p k ≡ done f k')
      × Enters b.pong_stack b.bench_pong_task f
      × Runs k' 1
      × (k'.kernel_running ≡ true)
      × (k'.primask ≡ 0)
      × IsPaired b p 1 k'
unfolding bench_main bind
bench_main-launches b p k n l =
    let (k1, first, empty, none_yet, same) =
      before_tasks (create_bench_tasks b p) p k l.post_slots in
    let k2 = create_bench_tasks b p k1 in
    let (ready2, same_queues, fresh) = create_bench_tasks-IsPaired b p k k1 l empty none_yet in
    let slots : (k2.queues p.bench_queue).empty_slots ≢ (k2.queues p.bench_queue).filled_slots =
      λ e. ground (arith, same_queues, same p.bench_queue, l.bench_slots) in
    let (k3, benches, touched) =
      before_scheduler k2 p.bench_mutex p.bench_semaphore p.bench_queue p.bench_buffer slots in
    let ready3 : IsPaired b p 0 k3 = record {
      three = touched.same_count ∙ ready2.three;
      current = touched.same_current ∙ ready2.current;
      ping =
          Touches-Stands 0 2 b.ping_stack b.bench_ping_task p.bench_buffer 8 k2 k3 l.ping_buffer
            touched ready2.ping;
      pong =
          Touches-Stands 1 2 b.pong_stack b.bench_pong_task p.bench_buffer 8 k2 k3 l.pong_buffer
            touched ready2.pong;
      idle =
          Touches-Stands 2 0 p.idle_stack p.os_idle_task p.bench_buffer 8 k2 k3 l.idle_buffer
            touched ready2.idle;
    } in
    let (j, turns, turned) = scheduler_rounds-IsPaired b p n 0 k3 (omega arith) ready3 in
    let (k4, decided, ready4, ping_runs) = decision-Runs b p k3 ready3 in
    let (k5, f, launched, enters, runs, live, open_mask, paired) =
      IsPaired-launches b p k4 ready4 in
    (
      k3,
      j,
      k4,
      k5,
      f,
      rw (first, benches) refl,
      ground (arith, touched.tasks 0, fresh),
      decided,
      ping_runs,
      turns,
      subst (λ i. IsPaired b p i j) (omega arith) turned,
      rw (first, benches, decided) launched,
      enters,
      runs,
      live,
      open_mask,
      paired,
    )
