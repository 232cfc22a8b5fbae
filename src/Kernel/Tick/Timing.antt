-- ===== src/Kernel/Tick/Timing.antt =====
-- The age of a waiting task in ticks, and the tick counter of Kernel/os_kernel.c.
use sentinel_rtos.Base.{
  ℕ, zero, suc, ◌+◌, ◌-◌, ◌%◌, ◌<◌, ◌≡◌, ◌∙◌, true, ltb, ◌==◌, if◌then◌else◌, arith,
}
use sentinel_rtos.Kernel.State.{Kernel, Tcb, set_task, os_yield, u32_mod}
use sentinel_rtos.Kernel.Tick.{sys_tick_handler, os_get_ticks, sleeping_tcb}
use sentinel_rtos.Kernel.Tick.Effect.{expired, tick_tasks-SameObjects}

-- `n` ticks in a row.
unfoldable pub after_ticks : ℕ → Kernel → Kernel
after_ticks zero k = k
after_ticks (suc n) k = after_ticks n (sys_tick_handler k)

-- A TCB `n` ticks later.
unfoldable pub aged : ℕ → Tcb → Tcb
aged n c =
    if c.sleep_time == 0
    then c
    else if ltb n c.sleep_time
    then record c { sleep_time = c.sleep_time - n }
    else expired c

-- The state at the switch of `os_delay`.
abbrev pub asleep : Kernel → ℕ → ℕ → Kernel
asleep k c ms = record (set_task k c (sleeping_tcb (k.os_tasks c) ms)) { pend_sv = true }

os_ticks-tick : (k : Kernel) → (sys_tick_handler k).os_ticks ≡ (k.os_ticks + 1) % u32_mod
unfolding sys_tick_handler os_yield
os_ticks-tick k =
    (tick_tasks-SameObjects (record k { os_ticks = (k.os_ticks + 1) % u32_mod }) 0
      k.task_count).ticks

-- From a count below 2^32 the tick counter counts the ticks modulo 2^32.
pub os_get_ticks-after_ticks :
    (n : ℕ) (k : Kernel)
    → os_get_ticks k < u32_mod
    → os_get_ticks (after_ticks n k) ≡ (os_get_ticks k + n) % u32_mod
unfolding os_get_ticks after_ticks
os_get_ticks-after_ticks zero k h = omega arith
os_get_ticks-after_ticks (suc n) k h =
    os_get_ticks-after_ticks n (sys_tick_handler k) (omega (arith, os_ticks-tick k))
    ∙ rw (os_ticks-tick k) (omega arith)
