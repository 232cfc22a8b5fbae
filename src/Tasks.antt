-- ===== src/Tasks.antt =====
-- The application tasks of Tasks/tasks.c. The servo's timer is passed along; what is printed under
-- the lock is returned.
pub mod Homing
pub mod Wave
pub mod Course
pub mod Printing
pub mod Rounds
pub mod Sweeping
pub mod Reports
pub mod Radar
pub mod Echoed
use sentinel_rtos.Base.{
  ℕ, zero, suc, ◌+◌, ◌-◌, ◌%◌, ◌^◌, Bool, true, false, not, Option, none, some, List, [], ◌∷◌, ◌++◌,
  ◌==◌, leb, if◌then◌else◌,
}
use sentinel_rtos.Kernel.State.{os_success, wait_forever}
use sentinel_rtos.Kernel.Run.{M, halted, ◌>>=◌, ◌>>◌, pure}
use sentinel_rtos.Kernel.Mutex.{os_mutex_acquire, os_mutex_release}
use sentinel_rtos.Kernel.Tick.{os_delay}
use sentinel_rtos.Queue.{os_queue_send, os_queue_receive}
use sentinel_rtos.Drivers.Servo.{Pwm, servo_set_angle}
use sentinel_rtos.Drivers.Uart.{characters}
use sentinel_rtos.Drivers.Ultrasonic.{Sonar, ultrasonic_no_echo, ultrasonic_read_cm}

abbrev pub sweep_step_deg : ℕ
sweep_step_deg = 5

abbrev pub sweep_period_ms : ℕ
sweep_period_ms = 20

abbrev pub radar_period_ms : ℕ
radar_period_ms = 100

-- An `int16_t` is its 16 bits. This is `-x`.
abbrev pub negate : ℕ → ℕ
negate x = (2 ^ 16 - x) % 2 ^ 16

abbrev pub add : ℕ → ℕ → ℕ
add x y = (x + y) % 2 ^ 16

-- `x >= y`.
abbrev pub at_least : ℕ → ℕ → Bool
at_least x y = leb ((y + 2 ^ 15) % 2 ^ 16) ((x + 2 ^ 15) % 2 ^ 16)

-- The variables of the sweep's loop.
pub record Sweep : Type 0 where
  pub angle : ℕ
  pub step : ℕ

abbrev pub sweep_start : Sweep
sweep_start = record { angle = 0; step = sweep_step_deg }

-- The step of the angle, and the turn at either end.
unfoldable pub sweep_next : Sweep → Sweep
sweep_next s =
    let angle = add s.angle s.step in
    if at_least angle 180
    then record { angle = 180; step = negate sweep_step_deg }
    else if at_least 0 angle
    then record { angle = 0; step = sweep_step_deg }
    else record s { angle = angle }

-- One round of the loop of `sweep_task`.
unfoldable pub sweep_round : ℕ → Sweep → Pwm → M (Sweep × Pwm)
sweep_round sweep_queue s p =
    let turned = servo_set_angle s.angle p in
    do
      _ ← os_queue_send sweep_queue s.angle 0
      os_delay sweep_period_ms
      pure (sweep_next s, turned)

-- The homing loop from angle `a` on, on fuel.
unfoldable pub home : ℕ → ℕ → Pwm → M Pwm
home zero a p = pure p
home (suc fuel) a p =
    let rest = home fuel (add a (negate sweep_step_deg)) (servo_set_angle a p) in
    if at_least a 0 then (do os_delay 50; rest) else pure p

-- `n` rounds of the loop of `sweep_task`.
unfoldable pub sweep_rounds : ℕ → ℕ → Sweep → Pwm → M (Sweep × Pwm)
sweep_rounds sweep_queue zero s p = pure (s, p)
sweep_rounds sweep_queue (suc n) s p = do
  (s1, p1) ← sweep_round sweep_queue s p
  sweep_rounds sweep_queue n s1 p1

-- `sweep_task` up to the `n`-th round of its endless loop, with fuel for the homing and the text that
-- it prints before it.
unfoldable pub sweep_task : ℕ → ℕ → List ℕ → ℕ → ℕ → Pwm → M (List ℕ × Sweep × Pwm)
sweep_task uart_lock sweep_queue homing_text fuel n p = do
  _ ← os_mutex_acquire uart_lock wait_forever
  os_mutex_release uart_lock
  p1 ← home fuel 90 p
  os_delay 500
  (s, p2) ← sweep_rounds sweep_queue n sweep_start p1
  pure (homing_text, s, p2)

-- WFI changes nothing of the kernel: the idle task spins for ever.
unfoldable pub os_idle_task : M (Unit {0})
os_idle_task k = halted k

-- `log_line`: what is printed, and where a second label is given with its number.
unfoldable pub log_line : ℕ → List ℕ → ℕ → Option (List ℕ × ℕ) → M (List ℕ)
log_line uart_lock label a second = do
  _ ← os_mutex_acquire uart_lock wait_forever
  os_mutex_release uart_lock
  pure (
      label
      ++ characters a
      ++ elim second [ none ↦ [] | some (label2, b) ↦ label2 ++ characters b ]
      ++ (13 ∷ 10 ∷ []))

-- The line for a received angle.
unfoldable pub show_angle : ℕ → List ℕ → List ℕ → ℕ → ℕ → M (ℕ × List ℕ)
show_angle uart_lock label label2 distance angle = do
  line ← log_line uart_lock label angle (some (label2, distance))
  pure (angle, line)

-- The rest of the condition of `radar_task` and its branch, after an echo. The call writes through
-- `&angle` only when it returns a message.
unfoldable pub after_echo : ℕ → ℕ → List ℕ → List ℕ → ℕ → ℕ → M (ℕ × List ℕ)
after_echo sweep_queue uart_lock label label2 distance angle = do
  (code, message) ← os_queue_receive sweep_queue 0
  let now : ℕ = elim message [ none ↦ angle | some x ↦ x ]
  if code == os_success then show_angle uart_lock label label2 distance now else pure (now, [])

-- One round of the loop of `radar_task`, with the two labels of its line. The result is `angle` after
-- it, and what it printed.
unfoldable pub radar_round : Sonar → ℕ → ℕ → List ℕ → List ℕ → ℕ → M (ℕ × List ℕ)
radar_round sonar sweep_queue uart_lock label label2 angle = do
  distance ← ultrasonic_read_cm sonar 60
  result ←
      if distance == ultrasonic_no_echo
      then pure (angle, [])
      else after_echo sweep_queue uart_lock label label2 distance angle
  os_delay radar_period_ms
  pure result

-- `n` rounds of the loop of `radar_task`.
unfoldable pub radar_rounds : Sonar → ℕ → ℕ → List ℕ → List ℕ → ℕ → ℕ → M (ℕ × List ℕ)
radar_rounds sonar sweep_queue uart_lock label label2 zero angle = pure (angle, [])
radar_rounds sonar sweep_queue uart_lock label label2 (suc n) angle = do
  (angle1, line) ← radar_round sonar sweep_queue uart_lock label label2 angle
  (angle2, lines) ← radar_rounds sonar sweep_queue uart_lock label label2 n angle1
  pure (angle2, line ++ lines)

-- `radar_task` up to the `n`-th round of its endless loop.
unfoldable pub radar_task : Sonar → ℕ → ℕ → List ℕ → List ℕ → ℕ → M (ℕ × List ℕ)
radar_task sonar sweep_queue uart_lock label label2 n =
    radar_rounds sonar sweep_queue uart_lock label label2 n 0
