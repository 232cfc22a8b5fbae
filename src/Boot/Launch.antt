-- ===== src/Boot/Launch.antt =====
-- main() of Src/main.c from its first call to the first task.
use sentinel_rtos.Base.{ℕ, ◌≡◌, ◌≢◌, refl, ◌∙◌, none, true, arith}
use sentinel_rtos.Kernel.State.{Kernel}
use sentinel_rtos.Kernel.Run.{done, bind, ◌>>◌}
use sentinel_rtos.Kernel.Boot.{FirstTask, os_kernel_init, os_kernel_launch}
use sentinel_rtos.Kernel.Safety.{Runs}
use sentinel_rtos.Kernel.Mutex.{os_mutex_init}
use sentinel_rtos.Kernel.Semaphore.{os_semaphore_init}
use sentinel_rtos.Queue.{os_queue_init}
use sentinel_rtos.Queue.Polled.{Touches, Touches-trans}
use sentinel_rtos.Post.Passes.{init-Touches, os_run_post-passes}
use sentinel_rtos.Bench.{
  microbench_init, bench_iterations, bench_scheduler_decision, microbench_run_all,
}
use sentinel_rtos.Bench.Loops.{mutex_init-Touches, semaphore_init-Touches, before_scheduler}
use sentinel_rtos.Boot.{Program, init_shared, create_tasks, main, main_with}
use sentinel_rtos.Boot.Ready.{IsReady, scheduler_rounds-IsReady, Touches-IsReady, IsReady-launches}
use sentinel_rtos.Boot.Entry.{Enters}
use sentinel_rtos.Boot.Creation.{IsLinked, create_tasks-IsReady}

-- Whatever keeps the queues' semaphores keeps the layout.
same_slots-IsLinked :
    (p : Program) (k k' : Kernel)
    → ((r : ℕ)
        → ((k'.queues r).empty_slots ≡ (k.queues r).empty_slots)
          × ((k'.queues r).filled_slots ≡ (k.queues r).filled_slots))
    → IsLinked p k
    → IsLinked p k'
same_slots-IsLinked p k k' same l = record {
  radar_entry = l.radar_entry;
  sweep_entry = l.sweep_entry;
  idle_entry = l.idle_entry;
  from_sweep = l.from_sweep;
  from_idle = l.from_idle;
  from_buffer = l.from_buffer;
  post_slots = λ e. ground (arith, same p.post_queue, l.post_slots);
  bench_slots = λ e. ground (arith, same p.bench_queue, l.bench_slots);
}

microbench_init-Touches :
    (ping pong buffer capacity : ℕ) (k : Kernel)
    → Touches k (microbench_init ping pong k) buffer capacity
unfolding microbench_init
microbench_init-Touches ping pong buffer capacity k =
    let j = os_semaphore_init ping 0 1 k in
    Touches-trans k j (os_semaphore_init pong 0 1 j) buffer capacity
      (semaphore_init-Touches k ping 0 1 buffer capacity)
      (semaphore_init-Touches j pong 0 1 buffer capacity)

init_shared-Touches :
    (p : Program) (k : Kernel) → Touches k (init_shared p k) p.sweep_queue_buffer 8
unfolding init_shared
init_shared-Touches p k =
    let b = p.sweep_queue_buffer in
    let k1 = os_queue_init p.sweep_queue b 8 k in
    let k2 = os_semaphore_init p.echo_ready 0 1 k1 in
    Touches-trans k k1 (os_mutex_init p.uart_lock k2) b 8 (init-Touches k p.sweep_queue b 8) (
      Touches-trans k1 k2 (os_mutex_init p.uart_lock k2) b 8
        (semaphore_init-Touches k1 p.echo_ready 0 1 b 8) (mutex_init-Touches k2 p.uart_lock b 8))

reset_table :
    (k : Kernel) → ((os_kernel_init k).task_count ≡ 0) × ((os_kernel_init k).current_tcb ≡ none)
unfolding os_kernel_init
reset_table k = (refl, refl)

reset_slots :
    (k : Kernel) (r : ℕ)
    → (((os_kernel_init k).queues r).empty_slots ≡ (k.queues r).empty_slots)
      × (((os_kernel_init k).queues r).filled_slots ≡ (k.queues r).filled_slots)
unfolding os_kernel_init
reset_slots k r = (refl, refl)

-- The first part of main() leaves the table empty and the queues' semaphores where they are.
pub before_tasks :
    (create : Kernel → Kernel) (p : Program) (k : Kernel)
    → (k.queues p.post_queue).empty_slots ≢ (k.queues p.post_queue).filled_slots
    → (k' : Kernel) × (main_with create p k
        ≡ (microbench_run_all p.bench_mutex p.bench_semaphore p.bench_queue p.bench_buffer
              >> os_kernel_launch)
            (create k'))
      × (k'.task_count ≡ 0)
      × (k'.current_tcb ≡ none)
      × ((r : ℕ)
          → ((k'.queues r).empty_slots ≡ (k.queues r).empty_slots)
            × ((k'.queues r).filled_slots ≡ (k.queues r).filled_slots))
unfolding main_with bind
before_tasks create p k apart =
    let j = os_kernel_init k in
    let s = reset_slots k in
    let k0 = microbench_init p.ping_sem p.pong_sem j in
    let t0 = microbench_init-Touches p.ping_sem p.pong_sem 0 0 j in
    let (k1, passed, mask, t1) =
      os_run_post-passes k0 p.post_mutex p.post_semaphore p.post_queue p.post_buffer
        (λ e. ground (arith, t0.same_slots p.post_queue, s p.post_queue, apart)) in
    let k2 = init_shared p k1 in
    let t2 = init_shared-Touches p k1 in
    let (empty, idle) = reset_table k in
    (
      k2,
      rw passed refl,
      t2.same_count ∙ t1.same_count ∙ t0.same_count ∙ empty,
      t2.same_current ∙ t1.same_current ∙ t0.same_current ∙ idle,
      λ r. (
        (t2.same_slots r).0 ∙ (t1.same_slots r).0 ∙ (t0.same_slots r).0 ∙ (s r).0,
        (t2.same_slots r).1 ∙ (t1.same_slots r).1 ∙ (t0.same_slots r).1 ∙ (s r).1,
      ),
    )

-- main() gets to the radar's task. From any state of the kernel's memory and any program whose entry points
-- are not NULL, whose radar stack is outside the other two and outside the benchmark's buffer, and
-- whose self-test and benchmark queues have two semaphores each: the self-test passes, the three
-- tasks are created, the benchmarks return, and the launch branches to the entry point of the radar's task with the
-- PSP inside the radar's stack; that task, of the highest priority, is the running one, with the
-- kernel running, interrupts enabled, and the canary of its stack in place.
pub main-launches :
    (p : Program) (k : Kernel)
    → IsLinked p k
    → (k' : Kernel) × (f : FirstTask) × (main p k ≡ done f k')
      × Enters p.radar_stack p.radar_task f
      × Runs k' 0
      × (k'.kernel_running ≡ true)
      × (k'.primask ≡ 0)
      × IsReady p.radar_stack p.radar_task k'
unfolding main bench_scheduler_decision bind
main-launches p k l =
    let (k1, first, empty, idle, same_slots) = before_tasks (create_tasks p) p k l.post_slots in
    let l1 = same_slots-IsLinked p k k1 same_slots l in
    let (ready1, same) = create_tasks-IsReady p k1 l1 empty idle in
    let k2 = create_tasks p k1 in
    let slots : (k2.queues p.bench_queue).empty_slots ≢ (k2.queues p.bench_queue).filled_slots =
      λ e. ground (arith, same, l1.bench_slots) in
    let (k3, benches, touched) =
      before_scheduler k2 p.bench_mutex p.bench_semaphore p.bench_queue p.bench_buffer slots in
    let ready3 =
      Touches-IsReady p.radar_stack p.radar_task p.bench_buffer 8 k2 k3 l.from_buffer touched
        ready1 in
    let (k4, decided, ready4) =
      scheduler_rounds-IsReady bench_iterations p.radar_stack p.radar_task k3 ready3 in
    let (k5, f, launched, enters, runs, live, open_mask, ready5) =
      IsReady-launches p.radar_stack p.radar_task k4 ready4 in
    (k5, f, rw (first, benches, decided) launched, enters, runs, live, open_mask, ready5)
