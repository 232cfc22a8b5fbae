-- ===== src/Tests/Devices.antt =====
-- The theorems on the drivers, on concrete devices.
use Prim.Native.Nat.{min}
use sentinel_rtos.Base.{
  ℕ, ◌+◌, ◌-◌, ◌*◌, ◌/◌, ◌%◌, ◌<◌, ◌≤◌, ◌≡◌, ◌≢◌, refl, arith, true, List, [], ◌∷◌, ◌++◌, length,
}
use sentinel_rtos.Base.All.{All}
use sentinel_rtos.Kernel.State.{Kernel, u32_mod}
use sentinel_rtos.Kernel.Run.{done}
use sentinel_rtos.Kernel.Semaphore.{os_semaphore_init}
use sentinel_rtos.Kernel.System.{reset_state}
use sentinel_rtos.Drivers.Uart.{Usart, uart_print_number}
use sentinel_rtos.Drivers.Uart.Decimal.{IsDigit, read_on, uart_print_number-decimal}
use sentinel_rtos.Drivers.Servo.{
  Pwm, servo_min_us, servo_max_us, servo_init, servo_set_angle, servo_set_angle-pulse,
}
use sentinel_rtos.Drivers.Ultrasonic.{
  Sonar, set_word, us_per_cm, distance, ultrasonic_read_cm, tim2_irq_handler,
}
use sentinel_rtos.Drivers.Ultrasonic.Echo.{
  IsLaidOut, tim2_irq_handler-measures, ultrasonic_read_cm_at_once,
}

abbrev console : Usart
console = record { enabled = true; written = 62 ∷ [] }

uart_print_number-decimal_example :
    (str : List ℕ) × ((uart_print_number 4_294_967_295 console).written ≡ (62 ∷ []) ++ str)
    × All IsDigit str
    × (length str ≤ 10)
    × (read_on 0 str ≡ 4_294_967_295)
uart_print_number-decimal_example =
    uart_print_number-decimal 4_294_967_295 console (omega arith) refl

abbrev timer : Pwm
timer = record { pwm_period_us = 20000; psc = 0; arr = 0; ccr1 = 0 }

servo_set_angle-pulse_example :
    let pulse : ℕ → ℕ = λ d. (servo_set_angle d (servo_init timer)).ccr1 in
    (servo_min_us ≤ pulse 91)
    × (pulse 91 ≤ pulse 135)
    × (pulse 135 ≤ servo_max_us)
    × (pulse 135 ≤ (servo_init timer).arr)
    × (180 * (pulse 135 - servo_min_us) ≤ 1000 * min 135 180)
    × (1000 * min 135 180 < 180 * (pulse 135 - servo_min_us + 1))
servo_set_angle-pulse_example = servo_set_angle-pulse timer 91 135 (omega arith)

abbrev sensor : Sonar
sensor = record {
  time_start = 0x2000_3000;
  time_end = 0x2000_3004;
  waiting_for_rising = 0x2000_3008;
  echo_ready = 0;
}

sensor-IsLaidOut : IsLaidOut sensor
sensor-IsLaidOut = record { ends = omega arith; start_flag = omega arith; end_flag = omega arith }

-- `echo_ready` after main() has initialised it, and the flag's initial value.
abbrev armed : Kernel
armed = set_word (os_semaphore_init 0 0 1 reset_state) sensor.waiting_for_rising 1

-- An echo of 1160 us whose counter wraps.
tim2_irq_handler-measures_example :
    (k1 : Kernel) × (k2 : Kernel) × (tim2_irq_handler sensor true 0xffff_ff00 armed ≡ done tt k1)
    × (tim2_irq_handler sensor true ((0xffff_ff00 + 1160) % u32_mod) k1 ≡ done tt k2)
    × (distance sensor k2 ≡ done (1160 / 58) k2)
    × ((k2.semaphores 0).count ≡ (armed.semaphores 0).count + 1)
    × (k2.memory sensor.waiting_for_rising ≢ 0)
unfolding os_semaphore_init
tim2_irq_handler-measures_example =
    tim2_irq_handler-measures sensor armed 0xffff_ff00 1160 sensor-IsLaidOut (omega arith) refl
      (omega arith) (omega arith) (omega arith)

-- A late echo has posted the semaphore.
abbrev posted : Kernel
posted = set_word (os_semaphore_init 0 1 1 reset_state) 0x2000_3004 580

ultrasonic_read_cm_at_once_example :
    (k' : Kernel) × (ultrasonic_read_cm sensor 60 posted
      ≡ done
          ((posted.memory 0x2000_3004 + u32_mod - posted.memory 0x2000_3000) % u32_mod / us_per_cm)
          k')
    × ((k'.semaphores 0).count ≡ (posted.semaphores 0).count - 1)
unfolding os_semaphore_init
ultrasonic_read_cm_at_once_example =
    ultrasonic_read_cm_at_once sensor posted 60 sensor-IsLaidOut (omega arith)
