-- ===== src/Bench.antt =====
-- The benchmarks of Bench/microbench.c that run before the launch, as what they do to the kernel, and what `report`
-- prints. Their objects are numbered by parameters; what the cycle counter shows is a parameter too.
pub mod Loops
pub mod Report
pub mod PingPong
use sentinel_rtos.Base.{ℕ, zero, suc, ◌+◌, ◌-◌, ◌*◌, ◌/◌, ◌%◌, ◌^◌, List, [], ◌∷◌, ◌++◌, Option}
use sentinel_rtos.Kernel.State.{Kernel}
use sentinel_rtos.Kernel.Run.{M, done, bind, ◌>>=◌, ◌>>◌, pure}
use sentinel_rtos.Kernel.Scheduler.{os_scheduler}
use sentinel_rtos.Kernel.Mutex.{os_mutex_init, os_mutex_acquire, os_mutex_release}
use sentinel_rtos.Kernel.Semaphore.{os_semaphore_init, os_semaphore_acquire, os_semaphore_release}
use sentinel_rtos.Queue.{os_queue_init, os_queue_send, os_queue_receive}
use sentinel_rtos.Drivers.Uart.{characters}
use sentinel_rtos.Drivers.Registers.{Word, ◌|||◌}

abbrev pub bench_iterations : ℕ
bench_iterations = 100

abbrev pub cycles_per_us : ℕ
cycles_per_us = 16

-- The whole microseconds, and the digit behind the point.
unfoldable pub whole_us : ℕ → ℕ
whole_us cycles = cycles / cycles_per_us

unfoldable pub tenth_us : ℕ → ℕ
tenth_us cycles = cycles % cycles_per_us * 10 % 2 ^ 32 / cycles_per_us

-- The line that `report` prints, with the five texts around its name and its numbers.
unfoldable pub report : List ℕ → List ℕ → List ℕ → List ℕ → List ℕ → List ℕ → ℕ → List ℕ
report prefix colon cycles_text point us_text name cycles =
    prefix
    ++ name
    ++ colon
    ++ characters cycles
    ++ cycles_text
    ++ characters (whole_us cycles)
    ++ point
    ++ characters (tenth_us cycles)
    ++ us_text

-- The debug registers, with the masks of the device header.
pub record Dwt : Type 0 where
  pub demcr : Word
  pub cyccnt : ℕ
  pub ctrl : Word

unfoldable pub enable_cycle_counter : Word → Word → Dwt → Dwt
enable_cycle_counter trcena cyccntena d = record {
  demcr = d.demcr ||| trcena;
  cyccnt = 0;
  ctrl = d.ctrl ||| cyccntena;
}

-- `(DWT->CYCCNT - start) / BENCH_ITERATIONS`, where the counter shows `now`.
unfoldable pub average : ℕ → ℕ → ℕ
average start now = (now + 2 ^ 32 - start) % 2 ^ 32 / bench_iterations

-- The loop of NOPs passes between the two readings.
unfoldable pub measure_overhead_cycles : ℕ → ℕ → ℕ
measure_overhead_cycles start now = average start now

-- The number of a benchmark's line, from its two readings and the two of the overhead.
unfoldable pub net_cycles : ℕ → ℕ → ℕ → ℕ → ℕ
net_cycles start now start1 now1 =
    (average start now + 2 ^ 32 - measure_overhead_cycles start1 now1) % 2 ^ 32

-- The two semaphores, which start empty.
unfoldable pub microbench_init : ℕ → ℕ → Kernel → Kernel
microbench_init ping_sem pong_sem k =
    os_semaphore_init pong_sem 0 1 (os_semaphore_init ping_sem 0 1 k)

-- The loops, with `n` rounds left.
unfoldable pub mutex_rounds : ℕ → ℕ → M (Unit {0})
mutex_rounds m zero = pure tt
mutex_rounds m (suc n) = do _ ← os_mutex_acquire m 0; os_mutex_release m; mutex_rounds m n

unfoldable pub bench_mutex_overhead : ℕ → M (Unit {0})
bench_mutex_overhead m k = mutex_rounds m bench_iterations (os_mutex_init m k)

unfoldable pub semaphore_rounds : ℕ → ℕ → M (Unit {0})
semaphore_rounds s zero = pure tt
semaphore_rounds s (suc n) = do
  _ ← os_semaphore_acquire s 0
  os_semaphore_release s
  semaphore_rounds s n

unfoldable pub bench_semaphore_overhead : ℕ → M (Unit {0})
bench_semaphore_overhead s k = semaphore_rounds s bench_iterations (os_semaphore_init s 1 1 k)

unfoldable pub queue_rounds : ℕ → ℕ → ℕ → M (Unit {0})
queue_rounds q i zero = pure tt
queue_rounds q i (suc n) = do
  _ ← os_queue_send q i 0
  _ ← os_queue_receive q 0
  queue_rounds q (i + 1) n

unfoldable pub bench_queue_roundtrip : ℕ → ℕ → M (Unit {0})
bench_queue_roundtrip q buf k = queue_rounds q 0 bench_iterations (os_queue_init q buf 8 k)

unfoldable pub scheduler_rounds : ℕ → M (Unit {0})
scheduler_rounds zero = pure tt
scheduler_rounds (suc n) = do os_scheduler; scheduler_rounds n

unfoldable pub bench_scheduler_decision : M (Unit {0})
bench_scheduler_decision = scheduler_rounds bench_iterations

unfoldable pub microbench_run_all : ℕ → ℕ → ℕ → ℕ → M (Unit {0})
microbench_run_all m s q buf = do
  bench_mutex_overhead m
  bench_semaphore_overhead s
  bench_queue_roundtrip q buf
  bench_scheduler_decision
