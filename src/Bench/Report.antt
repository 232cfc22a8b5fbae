-- ===== src/Bench/Report.antt =====
-- What the benchmarks measure, and the numbers that `report` of Bench/microbench.c prints.
use sentinel_rtos.Base.{ℕ, ◌+◌, ◌-◌, ◌*◌, ◌/◌, ◌%◌, ◌^◌, ◌<◌, ◌≤◌, ◌≡◌, arith}
use sentinel_rtos.Bench.{
  cycles_per_us, whole_us, tenth_us, average, measure_overhead_cycles, net_cycles,
}

-- The two numbers of a line are the microseconds and their tenths, rounded down: the second is one
-- digit, and together they are the tenths of a microsecond in the cycles, at 16 cycles each
-- microsecond.
pub report_tenths :
    (cycles : ℕ)
    → (tenth_us cycles < 10)
      × (cycles_per_us * (10 * whole_us cycles + tenth_us cycles) ≤ 10 * cycles)
      × (10 * cycles < cycles_per_us * (10 * whole_us cycles + tenth_us cycles + 1))
unfolding whole_us tenth_us
report_tenths cycles = (omega arith, omega arith, omega arith)

-- Where the loop of a benchmark takes `cycles` cycles and the empty loop `overhead`, no more than that and each below 2^32, the number of
-- its line is the difference of their averages over 100 rounds, wherever the counter stands at the starts,
-- also when it wraps.
pub net_cycles-measures :
    (start start1 cycles overhead : ℕ)
    → start < 2 ^ 32
    → start1 < 2 ^ 32
    → cycles < 2 ^ 32
    → overhead ≤ cycles
    → net_cycles start ((start + cycles) % 2 ^ 32) start1 ((start1 + overhead) % 2 ^ 32)
      ≡ cycles / 100 - overhead / 100
unfolding net_cycles average measure_overhead_cycles
net_cycles-measures start start1 cycles overhead h h1 lt le = omega arith
