-- ===== src/Drivers/Servo.antt =====
-- Drivers/Src/servo.c and the pulse of Drivers/Src/pwm.c: an angle as the compare value of timer 3.
use Prim.Native.Nat.{min}
use sentinel_rtos.Base.{ℕ, ◌+◌, ◌-◌, ◌*◌, ◌/◌, ◌<◌, ◌≤◌, ltb, if◌then◌else◌, arith}

-- `pwm_period_us` and the registers that carry the frame and the pulse.
pub record Pwm : Type 0 where
  pub pwm_period_us : ℕ
  pub psc : ℕ
  pub arr : ℕ
  pub ccr1 : ℕ

abbrev pub servo_min_us : ℕ
servo_min_us = 1000

abbrev pub servo_max_us : ℕ
servo_max_us = 2000

abbrev pub pwm_timer_clk_hz : ℕ
pwm_timer_clk_hz = 16_000_000

-- The numbers that `pwm_init` sets; its clock, pin, mode and enable bits are in Drivers/Timers. `period_us - 1` is
-- on `uint32_t`.
unfoldable pub pwm_init : ℕ → Pwm → Pwm
pwm_init period_us p = record p {
  pwm_period_us = period_us;
  psc = pwm_timer_clk_hz / 1_000_000 - 1;
  arr = if ltb 0 period_us then period_us - 1 else 0xffff_ffff;
}

unfoldable pub pwm_set_pulse_us : ℕ → Pwm → Pwm
pwm_set_pulse_us pulse_us p = record p {
  ccr1 = if ltb p.pwm_period_us pulse_us then p.pwm_period_us else pulse_us;
}

unfoldable pub servo_init : Pwm → Pwm
servo_init p = pwm_set_pulse_us ((servo_min_us + servo_max_us) / 2) (pwm_init 20000 p)

unfoldable pub servo_set_angle : ℕ → Pwm → Pwm
servo_set_angle degrees p =
    let d = if ltb 180 degrees then 180 else degrees in
    pwm_set_pulse_us (servo_min_us + d * (servo_max_us - servo_min_us) / 180) p

-- After `servo_init` every angle gives a pulse between the servo's two ends, within the frame that the
-- timer counts: its share of the range, rounded down, where an angle over 180 counts as 180; and a
-- greater angle gives no shorter pulse.
pub servo_set_angle-pulse :
    (p : Pwm) (a b : ℕ)
    → a ≤ b
    → let pulse : ℕ → ℕ = λ d. (servo_set_angle d (servo_init p)).ccr1 in
      (servo_min_us ≤ pulse a)
      × (pulse a ≤ pulse b)
      × (pulse b ≤ servo_max_us)
      × (pulse b ≤ (servo_init p).arr)
      × (180 * (pulse b - servo_min_us) ≤ 1000 * min b 180)
      × (1000 * min b 180 < 180 * (pulse b - servo_min_us + 1))
unfolding servo_set_angle servo_init pwm_set_pulse_us pwm_init
servo_set_angle-pulse p a b h = ground arith
