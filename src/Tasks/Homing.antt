-- ===== src/Tasks/Homing.antt =====
-- The homing loop of `sweep_task` in Tasks/tasks.c.
use sentinel_rtos.Base.{ℕ, zero, suc, ◌*◌, ◌≤◌, ◌≡◌, refl, ◌∙◌, sym, ap, true, arith}
use sentinel_rtos.Kernel.Run.{◌>>◌}
use sentinel_rtos.Kernel.Tick.{os_delay}
use sentinel_rtos.Drivers.Servo.{Pwm, servo_set_angle}
use sentinel_rtos.Tasks.{add, negate, at_least, home}

-- The angle with `j` rounds left.
abbrev pub with_left : ℕ → ℕ
with_left j = add (5 * j) (negate 5)

pub turns :
    (fuel j : ℕ) (p : Pwm)
    → j ≤ 100
    → home (suc fuel) (with_left (suc j)) p
      ≡ (os_delay 50 >> home fuel (with_left j) (servo_set_angle (with_left (suc j)) p))
unfolding home
turns fuel j p small =
    rw above
      (ap (λ a. os_delay 50 >> home fuel a (servo_set_angle (with_left (suc j)) p)) (omega arith))
  where
    above : at_least (with_left (suc j)) 0 ≡ true
    above = ground arith

any_fuel :
    (j fuel : ℕ) (p : Pwm) → j ≤ 100 → j ≤ fuel → home fuel (with_left j) p ≡ home j (with_left j) p
unfolding home
any_fuel zero zero p small enough = refl
any_fuel zero (suc fuel) p small enough = refl
any_fuel (suc j) zero p small enough = absurd (omega arith)
any_fuel (suc j) (suc fuel) p small enough =
    turns fuel j p (omega arith)
    ∙ ap (λ rest. os_delay 50 >> rest)
        (any_fuel j fuel (servo_set_angle (with_left (suc j)) p) (omega arith) (omega arith))
    ∙ sym (turns j j p (omega arith))

-- From 90 degrees the homing loop ends after 19 rounds: any greater fuel gives what 19 gives.
pub home-ends : (fuel : ℕ) (p : Pwm) → 19 ≤ fuel → home fuel 90 p ≡ home 19 90 p
home-ends fuel p enough = any_fuel 19 fuel p (omega arith) enough
