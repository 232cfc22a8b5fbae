-- ===== src/Tests/Contexts.antt =====
-- The theorems on the context switch of Kernel/os_kernel_asm.s, on the self-test of Kernel/os_tests.c and on
-- main() of Src/main.c, on concrete states.
use sentinel_rtos.Base.{◌+◌, ◌*◌, true, inl, ◌≡◌, refl, arith, some, inr, update}
use sentinel_rtos.Kernel.State.{Kernel}
use sentinel_rtos.Kernel.Run.{Run, done, yielded, fault, halted, bind}
use sentinel_rtos.Kernel.Scheduler.{
  os_scheduler, canary_intact, switch, choose, scan, consider, scan_start, dispatch, preempt,
}
use sentinel_rtos.Kernel.ContextSwitch.{
  Cpu, store_registers, save_context, restore_context, restore_current, pend_sv_handler,
}
use sentinel_rtos.Kernel.ContextSwitch.RoundTrip.{switch_and_back}
use sentinel_rtos.Kernel.System.{reset_state}
use sentinel_rtos.Queue.Polled.{Touches}
use sentinel_rtos.Post.{os_run_post}
use sentinel_rtos.Post.Passes.{os_run_post-passes}
use sentinel_rtos.Kernel.Safety.{Runs}
use sentinel_rtos.Boot.{Program, main}
use sentinel_rtos.Boot.Ready.{IsReady}
use sentinel_rtos.Boot.Entry.{Enters}
use sentinel_rtos.Kernel.Boot.{FirstTask}
use sentinel_rtos.Boot.Creation.{IsLinked}
use sentinel_rtos.Boot.Launch.{main-launches}
use sentinel_rtos.Tests.{stop, four}

-- The processor in task 0, and later in task 3.
abbrev in_zero : Cpu
in_zero = record { psp = 0x2000_0200; saved = λ i. 100 + i }

abbrev in_three : Cpu
in_three = record { psp = 0x2000_0e00; saved = λ i. 300 + i }

abbrev cpu_after : Run Cpu → Cpu
cpu_after (done cpu k) = cpu
cpu_after (yielded k g) = in_zero
cpu_after fault = in_zero
cpu_after (halted k) = in_zero

abbrev away : Run Cpu
away = pend_sv_handler in_zero four

abbrev back : Run Cpu
back = pend_sv_handler in_three (stop away)

went : away ≡ done (cpu_after away) (stop away)
unfolding pend_sv_handler bind os_scheduler save_context restore_current restore_context
    canary_intact switch choose scan consider scan_start dispatch preempt store_registers
went = refl

now_three : (stop away).current_tcb ≡ some 3
unfolding pend_sv_handler bind os_scheduler save_context restore_current restore_context
    canary_intact switch choose scan consider scan_start dispatch preempt store_registers
now_three = refl

came_back : back ≡ done (cpu_after back) (stop back)
unfolding pend_sv_handler bind os_scheduler save_context restore_current restore_context
    canary_intact switch choose scan consider scan_start dispatch preempt store_registers
came_back = refl

now_zero : (stop back).current_tcb ≡ some 0
unfolding pend_sv_handler bind os_scheduler save_context restore_current restore_context
    canary_intact switch choose scan consider scan_start dispatch preempt store_registers
now_zero = refl

switch_and_back_example :
    ((cpu_after back).psp ≡ in_zero.psp) × ((cpu_after back).saved 7 ≡ in_zero.saved 7)
switch_and_back_example =
    switch_and_back in_zero (cpu_after away) in_three (cpu_after back) four (stop away) (stop away)
      (stop back) 0 3 3 7 (omega arith) refl went now_three refl (λ j lt. refl) now_three
      (omega arith) (inr (omega arith)) (omega arith) came_back now_zero (omega arith)

-- Queue 0 with its own two semaphores.
abbrev wired : Kernel
wired = record reset_state {
  queues =
      update reset_state.queues 0
        (record (reset_state.queues 0) { lock = 1; empty_slots = 1; filled_slots = 2 });
}

os_run_post-passes_example :
    (k' : Kernel) × (os_run_post 0 0 0 0x2001_0000 wired ≡ done tt k')
    × (k'.primask ≡ wired.primask)
    × Touches wired k' 0x2001_0000 4
os_run_post-passes_example = os_run_post-passes wired 0 0 0 0x2001_0000 (omega arith)

-- A program whose three queues have their own semaphores.
abbrev pub radar_program : Program
radar_program = record {
  sweep_queue = 0;
  sweep_queue_buffer = 0x2000_3000;
  echo_ready = 0;
  uart_lock = 0;
  radar_task = 0x0800_0101;
  sweep_task = 0x0800_0201;
  os_idle_task = 0x0800_0301;
  radar_stack = 0x2000_0000;
  sweep_stack = 0x2000_0400;
  idle_stack = 0x2000_0800;
  post_mutex = 10;
  post_semaphore = 10;
  post_queue = 1;
  post_buffer = 0x2001_f000;
  ping_sem = 11;
  pong_sem = 12;
  bench_mutex = 10;
  bench_semaphore = 10;
  bench_queue = 2;
  bench_buffer = 0x2001_f000;
}

abbrev pub program_memory : Kernel
program_memory = record reset_state {
  queues = λ q. record (reset_state.queues q) {
    lock = q + 1;
    empty_slots = 2 * q + 1;
    filled_slots = 2 * q + 2;
  };
}

radar_program-IsLinked : IsLinked radar_program program_memory
radar_program-IsLinked = record {
  radar_entry = omega arith;
  sweep_entry = omega arith;
  idle_entry = omega arith;
  from_sweep = inl (omega arith);
  from_idle = inl (omega arith);
  from_buffer = inl (omega arith);
  post_slots = omega arith;
  bench_slots = omega arith;
}

main-launches_example :
    (k' : Kernel) × (f : FirstTask) × (main radar_program program_memory ≡ done f k')
    × Enters 0x2000_0000 0x0800_0101 f
    × Runs k' 0
    × (k'.kernel_running ≡ true)
    × (k'.primask ≡ 0)
    × IsReady 0x2000_0000 0x0800_0101 k'
main-launches_example = main-launches radar_program program_memory radar_program-IsLinked
