-- ===== src/Drivers/Pins.antt =====
-- The pins and clocks that the drivers' initialisations set up: all of `uart_init` of Drivers/Src/uart.c, and,
-- without their peripheral's own registers, which are in Drivers/Timers, `pwm_init` of pwm.c, `ultrasonic_init` of
-- ultrasonic.c and `i2c_init` of i2c.c. The base addresses of the ports and the clock masks of the device header are parameters.
pub mod Roles
pub mod Board
use sentinel_rtos.Base.{ℕ, zero, suc, ◌-◌, Bool, true, false, not, ◌&&◌, ◌||◌, leb, ltb, update}
use sentinel_rtos.Drivers.Registers.{Word, word, ◌|||◌, ◌&&&◌, ~~~◌, ◌<<◌}
use sentinel_rtos.Drivers.Uart.{uart_set_baud_rate}
use sentinel_rtos.Drivers.Gpio.{
  Port, Pins, set_port, gpio_config, gpio_set_open_drain, gpio_af, gpio_output, gpio_nopull,
  gpio_pullup,
}

-- The writes of `uart_init` to the registers of port A.
unfoldable pub set_uart_pin : Port → Port
set_uart_pin x = record x {
  moder = x.moder &&& ~~~ (word 1 << 4) ||| (word 1 << 5);
  afr =
      update x.afr 0
        ((x.afr 0 ||| (word 1 << 8) ||| (word 1 << 9) ||| (word 1 << 10)) &&& ~~~ (word 1 << 11));
}

-- `uart_init` up to the baud rate.
unfoldable pub uart_pins : ℕ → Pins → Pins
uart_pins gpioa_base p =
    let clocked = record p { ahb1enr = p.ahb1enr ||| (word 1 << 0) } in
    let x = set_port clocked gpioa_base (set_uart_pin (clocked.ports gpioa_base)) in
    record x { apb1enr = x.apb1enr ||| (word 1 << 17) }

-- `uart_init`, with CR1 as it was: the registers, BRR and CR1 after it.
unfoldable pub uart_init : ℕ → Pins → Word → Pins × ℕ × Word
uart_init gpioa_base p cr1 = (
  uart_pins gpioa_base p,
  uart_set_baud_rate 16_000_000 115200,
  cr1 ||| (word 1 << 13) ||| (word 1 << 3),
)

abbrev pub trig_pin : ℕ
trig_pin = 0

abbrev pub echo_pin : ℕ
echo_pin = 1

unfoldable pub pwm_pins : Word → ℕ → Pins → Pins
pwm_pins tim3en gpioa_base p =
    gpio_config gpioa_base gpioa_base 6 gpio_af 2 gpio_nopull
      (record p { apb1enr = p.apb1enr ||| tim3en })

unfoldable pub ultrasonic_pins : Word → ℕ → Pins → Pins
ultrasonic_pins tim2en gpioa_base p =
    gpio_config gpioa_base gpioa_base echo_pin gpio_af 1 gpio_nopull (
      gpio_config gpioa_base gpioa_base trig_pin gpio_output 0 gpio_nopull
        (record p { apb1enr = p.apb1enr ||| tim2en }))

unfoldable pub i2c_pins : Word → ℕ → ℕ → Pins → Pins
i2c_pins i2c1en gpioa_base gpiob p =
    let p0 = record p { apb1enr = p.apb1enr ||| i2c1en } in
    let p1 = gpio_config gpioa_base gpiob 8 gpio_af 4 gpio_pullup p0 in
    let p2 = gpio_config gpioa_base gpiob 9 gpio_af 4 gpio_pullup p1 in
    gpio_set_open_drain gpiob 9 (gpio_set_open_drain gpiob 8 p2)
