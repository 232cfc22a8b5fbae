-- ===== src/Tests/Board.antt =====
-- The theorems on the pins, the converter, SPI1 and the reset handler, on concrete registers.
use sentinel_rtos.Base.{
  ℕ, ◌+◌, ◌*◌, ◌%◌, ◌≡◌, arith, true, false, ◌&&◌, ◌||◌, ◌==◌, if◌then◌else◌, inl, inr, elements,
  ◌⊎◌,
}
use sentinel_rtos.Startup.{Layout, reset_handler}
use sentinel_rtos.Startup.Sections.{IsLaidOut, reset_handler-sections}
use sentinel_rtos.Drivers.Registers.{Word, word}
use sentinel_rtos.Drivers.Gpio.{
  Pins, mode_code, pull_code, gpio_af, gpio_output, gpio_pullup, gpio_config,
}
use sentinel_rtos.Drivers.Gpio.Config.{pin_pair, pin_function, gpio_config-pin}
use sentinel_rtos.Drivers.Spi.{SpiMasks, spi_pins, spi_write, spi_read}
use sentinel_rtos.Drivers.Spi.Transfers.{answers, repeated, spi_transfers}
use sentinel_rtos.Drivers.Pins.{uart_pins, uart_init, pwm_pins, ultrasonic_pins, i2c_pins}
use sentinel_rtos.Drivers.Pins.Roles.{Role, uart_init-as-gpio_config}
use sentinel_rtos.Drivers.Pins.Board.{drivers-share_pins}
use sentinel_rtos.Kernel.Run.{M, done, fault, halted}
use sentinel_rtos.Kernel.Tick.{sys_tick_handler}
use sentinel_rtos.Kernel.System.{reset_state}
use sentinel_rtos.Startup.Vectors.{Handler, reset, pend_sv, sys_tick, tim2, serve}
use sentinel_rtos.Startup.Vectors.Served.{serve-own}

-- The layout of a program with two words of data and one of zeros.
abbrev linked : Layout
linked = record {
  etext = 0x0800_1000;
  sdata = 0x2000_0000;
  edata = 0x2000_0008;
  sbss = 0x2000_0008;
  ebss = 0x2000_000c;
}

linked-IsLaidOut : IsLaidOut linked
linked-IsLaidOut = record {
  data_forwards = omega arith;
  data_in = omega arith;
  bss_forwards = omega arith;
  bss_in = omega arith;
  image_apart = inl (omega arith);
  sections_apart = inl (omega arith);
}

abbrev noise : ℕ → ℕ
noise a = a + 7

reset_handler-sections_example :
    let after = reset_handler linked noise in
    (after (0x2000_0000 + 4 * 1) ≡ noise (0x0800_1000 + 4 * 1))
    × (after (0x2000_0008 + 4 * 0) ≡ 0)
    × (after 0x2000_000c ≡ noise 0x2000_000c)
reset_handler-sections_example =
    reset_handler-sections linked noise 1 0 0x2000_000c linked-IsLaidOut (omega arith) (omega arith)
      (inr (omega arith)) (inr (omega arith))

abbrev clear : Word
clear = λ i. false

abbrev reset_pins : Pins
reset_pins = record {
  ports = λ port. record {
    moder = clear;
    otyper = clear;
    ospeedr = clear;
    pupdr = clear;
    idr = clear;
    odr = clear;
    bsrr = clear;
    afr = λ reg. clear;
  };
  ahb1enr = clear;
  apb1enr = clear;
  apb2enr = clear;
}

abbrev gpioa : ℕ
gpioa = 0x4002_0000

abbrev gpiob : ℕ
gpiob = 0x4002_0400

gpio_config-pin_example :
    let x = reset_pins.ports gpiob in
    let after = gpio_config gpioa gpiob 9 gpio_af 4 gpio_pullup reset_pins in
    let y = after.ports gpiob in
    (pin_pair y.moder 9 1 ≡ (if 9 == 9 then word (mode_code gpio_af) 1 else pin_pair x.moder 9 1))
    × (pin_pair y.pupdr 9 1
        ≡ (if 9 == 9 then word (pull_code gpio_pullup) 1 else pin_pair x.pupdr 9 1))
    × (pin_function y 9 2 ≡ (if true && 9 == 9 then word 4 2 else pin_function x 9 2))
    × (after.ports gpioa ≡ reset_pins.ports gpioa)
gpio_config-pin_example =
    gpio_config-pin gpioa gpiob 9 gpio_af 4 gpio_pullup reset_pins gpioa 9 1 2 (omega arith)
      (omega arith) (omega arith) (omega arith) (omega arith) (omega arith)

-- A slave that gives back the byte before.
abbrev one_late : ℕ → ℕ → ℕ × ℕ
one_late tx last = (last, tx)

spi_transfers_example :
    let (buffer, after) = spi_read one_late (λ i. i + 250) 3 9 in
    let (received, last) = answers one_late (repeated 3 0xff) 9 in
    (spi_write one_late (λ i. i + 250) 3 9
      ≡ (answers one_late (elements (λ i. (i + 250) % 256) 0 3) 9).1)
    × (elements buffer 0 3 ≡ received)
    × (after ≡ last)
    × (buffer 5 ≡ 255)
spi_transfers_example = spi_transfers one_late 3 5 (λ i. i + 250) 9 (omega arith)

uart_init-as-gpio_config_example :
    let (after, brr, control) = uart_init gpioa reset_pins clear in
    let x = after.ports gpioa in
    let y = (gpio_config gpioa gpioa 2 gpio_af 7 gpio_pullup reset_pins).ports gpioa in
    (pin_pair x.moder 2 1 ≡ pin_pair y.moder 2 1)
    × (pin_function x 2 3 ≡ pin_function y 2 3)
    × (brr ≡ 139)
    × (control 13 ≡ (if 13 == 13 || 13 == 3 then true else clear 13))
uart_init-as-gpio_config_example =
    uart_init-as-gpio_config gpioa 2 1 3 13 gpio_pullup reset_pins clear (omega arith) (omega arith)
      (omega arith) (omega arith)

-- The layout of CR1.
abbrev spi_masks : SpiMasks
spi_masks = record {
  apb2enr_spi1en = λ i. i == 12;
  cr1_br_pos = 3;
  cr1_cpha = λ i. i == 0;
  cr1_cpol = λ i. i == 1;
  cr1_mstr = λ i. i == 2;
  cr1_ssm = λ i. i == 9;
  cr1_ssi = λ i. i == 8;
  cr1_spe = λ i. i == 6;
}

drivers-share_pins_example :
    let x =
      (ultrasonic_pins
          (λ i. i == 0)
          gpioa
          (pwm_pins (λ i. i == 1) gpioa (uart_pins gpioa reset_pins))).ports
        gpioa in
    let y =
      (spi_pins spi_masks gpioa gpiob (i2c_pins (λ i. i == 21) gpioa gpiob reset_pins)).ports
        gpiob in
    (Role x 0 gpio_output 0 × Role x 1 gpio_af 1 × Role x 2 gpio_af 7 × Role x 6 gpio_af 2)
    × (Role y 3 gpio_af 5 × Role y 4 gpio_af 5 × Role y 5 gpio_af 5 × Role y 6 gpio_output 0)
    × (Role y 8 gpio_af 4)
    × (Role y 9 gpio_af 4)
drivers-share_pins_example =
    drivers-share_pins (λ i. i == 0) (λ i. i == 1) (λ i. i == 21) spi_masks gpioa gpiob reset_pins

-- Exception 16, the window watchdog, whatever the defined handlers do.
serve-own_example :
    let own : Handler → M (Unit {0}) = λ h k. done tt (sys_tick_handler k) in
    (serve own 1 reset_state ≡ own reset reset_state)
    × (serve own 14 reset_state ≡ own pend_sv reset_state)
    × (serve own 15 reset_state ≡ own sys_tick reset_state)
    × (serve own 44 reset_state ≡ own tim2 reset_state)
    × ((serve own 16 reset_state ≡ halted reset_state) ⊎ (serve own 16 reset_state ≡ fault))
serve-own_example =
    serve-own (λ h k. done tt (sys_tick_handler k)) reset_state 16 (omega arith) (omega arith)
      (omega arith) (omega arith)
