-- ===== src/Boot/Peripherals.antt =====
-- What main() of Src/main.c does to the peripherals before it creates the tasks. The base of port A, the bits of
-- the device header and the interrupt controller are parameters.
use sentinel_rtos.Base.{ℕ, ◌+◌, ◌/◌, ◌≡◌, arith, refl}
use sentinel_rtos.Drivers.Registers.{Word}
use sentinel_rtos.Drivers.Gpio.{Pins, gpio_af, gpio_output}
use sentinel_rtos.Drivers.Uart.{uart_set_baud_rate}
use sentinel_rtos.Drivers.Pins.{uart_init}
use sentinel_rtos.Drivers.Pins.Roles.{Role}
use sentinel_rtos.Drivers.Pins.Board.{port_a-roles}
use sentinel_rtos.Drivers.Servo.{
  Pwm, pwm_init, pwm_set_pulse_us, servo_min_us, servo_max_us, servo_set_angle,
}
use sentinel_rtos.Drivers.Timers.{
  Timer, PwmBits, CaptureBits, Counter, Nvic, pwm_setup, ultrasonic_init,
}
use sentinel_rtos.Bench.{Dwt, enable_cycle_counter}

-- The registers that the initialisations write, with the state of the interrupt controller.
pub record Board {ℓ} (S : Type ℓ) : Type ℓ where
  pub pins : Pins
  pub uart_brr : ℕ
  pub uart_cr1 : Word
  pub dwt : Dwt
  pub pwm : Pwm
  pub pwm_timer : Timer
  pub counter : Counter
  pub interrupts : S

module _ {ℓ} {S : Type ℓ} (nvic : Nvic S) (servo_bits : PwmBits) (echo_bits : CaptureBits)
    (trcena cyccntena : Word) (gpioa_base tim2_irqn : ℕ) where
  -- `uart_init`, and the debug registers of `microbench_init`.
  unfoldable pub start_console : Board S → Board S
  start_console b =
      let (pins, brr, cr1) = uart_init gpioa_base b.pins b.uart_cr1 in
      record b {
        pins = pins;
        uart_brr = brr;
        uart_cr1 = cr1;
        dwt = enable_cycle_counter trcena cyccntena b.dwt;
      }

  -- `servo_init` on the whole timer.
  unfoldable pub start_servo : Board S → Board S
  start_servo b =
      let (pins, pwm, timer) = pwm_setup servo_bits gpioa_base 20000 (b.pins, b.pwm, b.pwm_timer) in
      record b {
        pins = pins;
        pwm = pwm_set_pulse_us ((servo_min_us + servo_max_us) / 2) pwm;
        pwm_timer = timer;
      }

  -- `ultrasonic_init`.
  unfoldable pub start_sonar : Board S → Board S
  start_sonar b =
      let (pins, counter, interrupts) =
        ultrasonic_init nvic echo_bits gpioa_base tim2_irqn (b.pins, b.counter, b.interrupts) in
      record b { pins = pins; counter = counter; interrupts = interrupts }

  -- The calls of main() in their order.
  unfoldable pub init_peripherals : Board S → Board S
  init_peripherals b = start_sonar (start_servo (start_console b))

  -- After the initialisations of main(), whatever the board's registers held: on port A pin 0 is an output, for the trigger,
  -- and pins 1, 2 and 6 have the functions of timer 2, USART2 and timer 3; the baud rate register is that of
  -- 115200 at 16 MHz; the frame of the servo is 20 ms of 1 us counts with a pulse of 1.5 ms, that of 90 degrees; timer 2 counts
  -- microseconds over 32 bits; the cycle counter starts from 0; and the interrupt of timer 2 has been given priority 5 and then
  -- enabled, once.
  pub init_peripherals-ready :
      (b : Board S)
      → let b' = init_peripherals b in
        let x = b'.pins.ports gpioa_base in
        (Role x 0 gpio_output 0 × Role x 1 gpio_af 1 × Role x 2 gpio_af 7 × Role x 6 gpio_af 2)
        × (b'.uart_brr ≡ uart_set_baud_rate 16_000_000 115200)
        × ((b'.pwm.psc ≡ 15) × (b'.pwm.arr ≡ 19_999) × (b'.pwm.ccr1 ≡ 1500))
        × (servo_set_angle 90 b'.pwm ≡ b'.pwm)
        × ((b'.counter.psc ≡ 15) × (b'.counter.arr ≡ 0xffff_ffff))
        × (b'.dwt.cyccnt ≡ 0)
        × (b'.interrupts ≡ nvic.enable_irq tim2_irqn (nvic.set_priority tim2_irqn 5 b.interrupts))
  unfolding init_peripherals start_console start_servo start_sonar uart_init pwm_setup
      ultrasonic_init pwm_init pwm_set_pulse_us servo_set_angle enable_cycle_counter
  init_peripherals-ready b = (
    port_a-roles echo_bits.tim2en servo_bits.tim3en gpioa_base b.pins,
    refl,
    (refl, refl, refl),
    ground arith,
    (refl, refl),
    refl,
    refl,
  )
