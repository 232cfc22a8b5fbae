-- ===== src/Tasks/Wave.antt =====
-- The angles of the sweep of Tasks/tasks.c.
use sentinel_rtos.Base.{
  ℕ, zero, suc, ◌+◌, ◌-◌, ◌*◌, ◌%◌, ◌<◌, ◌≡◌, refl, ◌∙◌, ap, leb, ltb, if◌then◌else◌, arith,
}
use sentinel_rtos.Tasks.{Sweep, sweep_start, sweep_next, negate}

-- The variables after `n` rounds.
unfoldable pub swept : ℕ → Sweep
swept zero = sweep_start
swept (suc n) = sweep_next (swept n)

-- The place in a period of 72 rounds.
unfoldable pub wave : ℕ → Sweep
wave r = record {
  angle = if leb r 36 then 5 * r else 5 * (72 - r);
  step = if ltb r 36 then 5 else negate 5;
}

sweep_next-wave : (r : ℕ) → r < 72 → sweep_next (wave r) ≡ wave ((r + 1) % 72)
unfolding sweep_next wave
sweep_next-wave r h = ground arith

-- The sweep is a triangle wave of 72 rounds: after `n` of them the angle is 5 degrees for each round
-- since the lower end on the way up, and as many less than 360 on the way down.
pub swept-wave : (n : ℕ) → swept n ≡ wave (n % 72)
unfolding swept wave
swept-wave zero = refl
swept-wave (suc n) =
    ap sweep_next (swept-wave n) ∙ sweep_next-wave (n % 72) (omega arith) ∙ ap wave (omega arith)
