-- ===== src/Tests/BenchBuild.antt =====
-- The theorem on main() of Src/main.c with SENTINEL_BENCH, on a concrete program.
use sentinel_rtos.Base.{◌≡◌, true, inl, arith}
use sentinel_rtos.Kernel.State.{Kernel, ready}
use sentinel_rtos.Kernel.Run.{done, ◌>>◌}
use sentinel_rtos.Kernel.Boot.{FirstTask, os_kernel_launch}
use sentinel_rtos.Bench.{scheduler_rounds, bench_scheduler_decision}
use sentinel_rtos.Boot.Entry.{Enters}
use sentinel_rtos.Kernel.Safety.{Runs}
use sentinel_rtos.Boot.{BenchTasks, bench_main}
use sentinel_rtos.Boot.Paired.{IsPaired}
use sentinel_rtos.Boot.BenchLaunch.{IsBenchLinked, bench_main-launches}
use sentinel_rtos.Tests.Contexts.{radar_program, program_memory}

abbrev bench_tasks : BenchTasks
bench_tasks = record {
  bench_ping_task = 0x0800_0401;
  bench_pong_task = 0x0800_0501;
  ping_stack = 0x2000_0000;
  pong_stack = 0x2000_0400;
}

bench_tasks-IsBenchLinked : IsBenchLinked bench_tasks radar_program program_memory
bench_tasks-IsBenchLinked = record {
  ping_entry = omega arith;
  pong_entry = omega arith;
  idle_entry = omega arith;
  ping_pong = inl (omega arith);
  ping_idle = inl (omega arith);
  pong_idle = inl (omega arith);
  ping_buffer = inl (omega arith);
  pong_buffer = inl (omega arith);
  idle_buffer = inl (omega arith);
  post_slots = omega arith;
  bench_slots = omega arith;
}

bench_main-launches_example :
    (k3 : Kernel) × (j : Kernel) × (e : Kernel) × (k' : Kernel) × (f : FirstTask) × (bench_main
        bench_tasks radar_program program_memory
      ≡ (bench_scheduler_decision >> os_kernel_launch) k3)
    × ((k3.os_tasks 0).state ≡ ready)
    × (bench_scheduler_decision k3 ≡ done tt e)
    × Runs e 0
    × (scheduler_rounds 7 k3 ≡ done tt j)
    × IsPaired bench_tasks radar_program 1 j
    × (bench_main bench_tasks radar_program program_memory ≡ done f k')
    × Enters 0x2000_0400 0x0800_0501 f
    × Runs k' 1
    × (k'.kernel_running ≡ true)
    × (k'.primask ≡ 0)
    × IsPaired bench_tasks radar_program 1 k'
bench_main-launches_example =
    bench_main-launches bench_tasks radar_program program_memory 7 bench_tasks-IsBenchLinked
