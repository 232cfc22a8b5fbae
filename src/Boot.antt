-- ===== src/Boot.antt =====
-- main() of Src/main.c, with and without SENTINEL_BENCH, as what it does to the kernel. The numbers of its objects and the addresses
-- of its tasks, stacks and buffers are parameters. Its calls for the peripherals are in
-- Boot/Peripherals.
pub mod Ready
pub mod Creation
pub mod Launch
pub mod Peripherals
pub mod Entry
pub mod Paired
pub mod BenchLaunch
use sentinel_rtos.Base.{ℕ}
use sentinel_rtos.Kernel.State.{Kernel}
use sentinel_rtos.Kernel.Run.{M, done, bind, ◌>>=◌, ◌>>◌}
use sentinel_rtos.Kernel.Boot.{FirstTask, os_kernel_init, os_kernel_launch}
use sentinel_rtos.Kernel.TaskTable.{os_task_create}
use sentinel_rtos.Kernel.Mutex.{os_mutex_init}
use sentinel_rtos.Kernel.Semaphore.{os_semaphore_init}
use sentinel_rtos.Queue.{os_queue_init}
use sentinel_rtos.Post.{run, os_run_post}
use sentinel_rtos.Bench.{microbench_init, microbench_run_all}

abbrev pub stack_words : ℕ
stack_words = 256

-- The objects of main(), of the self-test and of the benchmarks, and the addresses of the tasks.
pub record Program : Type 0 where
  pub sweep_queue : ℕ
  pub sweep_queue_buffer : ℕ
  pub echo_ready : ℕ
  pub uart_lock : ℕ
  pub radar_task : ℕ
  pub sweep_task : ℕ
  pub os_idle_task : ℕ
  pub radar_stack : ℕ
  pub sweep_stack : ℕ
  pub idle_stack : ℕ
  pub post_mutex : ℕ
  pub post_semaphore : ℕ
  pub post_queue : ℕ
  pub post_buffer : ℕ
  pub ping_sem : ℕ
  pub pong_sem : ℕ
  pub bench_mutex : ℕ
  pub bench_semaphore : ℕ
  pub bench_queue : ℕ
  pub bench_buffer : ℕ

-- The queue, the semaphore and the mutex that the tasks share.
unfoldable pub init_shared : Program → Kernel → Kernel
init_shared p k =
    os_mutex_init p.uart_lock
      (os_semaphore_init p.echo_ready 0 1 (os_queue_init p.sweep_queue p.sweep_queue_buffer 8 k))

-- The tasks that SENTINEL_BENCH creates in place of the radar's and the sweep's.
pub record BenchTasks : Type 0 where
  pub bench_ping_task : ℕ
  pub bench_pong_task : ℕ
  pub ping_stack : ℕ
  pub pong_stack : ℕ

-- The three tasks; the results of the calls are not looked at.
unfoldable pub create_tasks : Program → Kernel → Kernel
create_tasks p k =
    let with_radar = (os_task_create p.radar_task p.radar_stack stack_words 2 k).1 in
    let with_sweep = (os_task_create p.sweep_task p.sweep_stack stack_words 1 with_radar).1 in
    (os_task_create p.os_idle_task p.idle_stack stack_words 0 with_sweep).1

-- The three tasks with SENTINEL_BENCH.
unfoldable pub create_bench_tasks : BenchTasks → Program → Kernel → Kernel
create_bench_tasks b p k =
    let with_ping = (os_task_create b.bench_ping_task b.ping_stack stack_words 2 k).1 in
    let with_pong = (os_task_create b.bench_pong_task b.pong_stack stack_words 2 with_ping).1 in
    (os_task_create p.os_idle_task p.idle_stack stack_words 0 with_pong).1

-- main(), given the creation of its tasks.
unfoldable pub main_with : (Kernel → Kernel) → Program → M FirstTask
main_with create p = do
  run os_kernel_init
  run (microbench_init p.ping_sem p.pong_sem)
  os_run_post p.post_mutex p.post_semaphore p.post_queue p.post_buffer
  run (init_shared p)
  run create
  microbench_run_all p.bench_mutex p.bench_semaphore p.bench_queue p.bench_buffer
  os_kernel_launch

unfoldable pub main : Program → M FirstTask
main p = main_with (create_tasks p) p

-- With SENTINEL_BENCH.
unfoldable pub bench_main : BenchTasks → Program → M FirstTask
bench_main b p = main_with (create_bench_tasks b p) p
