-- ===== src/Drivers/Pins/Board.antt =====
-- All the pins that the drivers of Drivers/Src claim.
use sentinel_rtos.Base.{ℕ, ◌<◌, arith, same_number}
use sentinel_rtos.Drivers.Registers.{Word, ◌|||◌}
use sentinel_rtos.Drivers.Gpio.{
  GpioMode, Pins, gpio_af, gpio_output, gpio_config, gpio_nopull, gpio_pullup, gpio_set_open_drain,
  gpio_write,
}
use sentinel_rtos.Drivers.Spi.{SpiMasks, spi_pins, spi_cs_deselect}
use sentinel_rtos.Drivers.Pins.{uart_pins, pwm_pins, ultrasonic_pins, i2c_pins, trig_pin, echo_pin}
use sentinel_rtos.Drivers.Pins.Roles.{Role, gpio_config-Role, gpio_config-others, uart_pins-Role}

pub port_a-roles :
    (tim2en tim3en : Word) (gpioa_base : ℕ) (p : Pins)
    → let x =
        (ultrasonic_pins tim2en gpioa_base
            (pwm_pins tim3en gpioa_base (uart_pins gpioa_base p))).ports
          gpioa_base in
      Role x 0 gpio_output 0 × Role x 1 gpio_af 1 × Role x 2 gpio_af 7 × Role x 6 gpio_af 2
unfolding ultrasonic_pins pwm_pins
port_a-roles tim2en tim3en gpioa_base p =
    let a = gpioa_base in
    let p0 = record (uart_pins a p) { apb1enr = (uart_pins a p).apb1enr ||| tim3en } in
    let p1 = gpio_config a a 6 gpio_af 2 gpio_nopull p0 in
    let p2 = record p1 { apb1enr = p1.apb1enr ||| tim2en } in
    let p3 = gpio_config a a trig_pin gpio_output 0 gpio_nopull p2 in
    let last =
      gpio_config-others a a echo_pin gpio_af 1 gpio_nopull p3 (omega arith) (omega arith) in
    let trig =
      gpio_config-others a a trig_pin gpio_output 0 gpio_nopull p2 (omega arith) (omega arith) in
    (
      last 0 gpio_output 0 (omega arith) (omega arith)
          (gpio_config-Role a a trig_pin gpio_output 0 gpio_nopull p2 (omega arith) (omega arith)),
      gpio_config-Role a a echo_pin gpio_af 1 gpio_nopull p3 (omega arith) (omega arith),
      last 2 gpio_af 7 (omega arith) (omega arith) (
          trig 2 gpio_af 7 (omega arith) (omega arith) (
            gpio_config-others a a 6 gpio_af 2 gpio_nopull p0 (omega arith) (omega arith) 2 gpio_af
              7 (omega arith) (omega arith) (uart_pins-Role a p))),
      last 6 gpio_af 2 (omega arith) (omega arith) (
          trig 6 gpio_af 2 (omega arith) (omega arith)
            (gpio_config-Role a a 6 gpio_af 2 gpio_nopull p0 (omega arith) (omega arith))),
    )

-- The speed, the output type and the level are other registers.
open_drain-Role :
    (port pin j f : ℕ) (m : GpioMode) (p : Pins)
    → Role (p.ports port) j m f
    → Role ((gpio_set_open_drain port pin p).ports port) j m f
unfolding gpio_set_open_drain
open_drain-Role port pin j f m p r =
    rw (same_number port) (record { mode_bits = r.mode_bits; function_bits = r.function_bits })

deselect-Role :
    (port j f : ℕ) (m : GpioMode) (p : Pins)
    → Role (p.ports port) j m f
    → Role ((spi_cs_deselect port p).ports port) j m f
unfolding spi_cs_deselect gpio_write
deselect-Role port j f m p r =
    rw (same_number port) (record { mode_bits = r.mode_bits; function_bits = r.function_bits })

i2c-Roles :
    (i2c1en : Word) (gpioa_base gpiob : ℕ) (p : Pins)
    → let x = (i2c_pins i2c1en gpioa_base gpiob p).ports gpiob in
      Role x 8 gpio_af 4 × Role x 9 gpio_af 4
unfolding i2c_pins
i2c-Roles i2c1en a b p =
    let p0 = record p { apb1enr = p.apb1enr ||| i2c1en } in
    let p1 = gpio_config a b 8 gpio_af 4 gpio_pullup p0 in
    let p2 = gpio_config a b 9 gpio_af 4 gpio_pullup p1 in
    let p3 = gpio_set_open_drain b 8 p2 in
    let both : (j : ℕ)
        → Role (p2.ports b) j gpio_af 4
        → Role ((gpio_set_open_drain b 9 p3).ports b) j gpio_af 4 =
      λ j r. open_drain-Role b 9 j 4 gpio_af p3 (open_drain-Role b 8 j 4 gpio_af p2 r) in
    (
      both 8 (
          gpio_config-others a b 9 gpio_af 4 gpio_pullup p1 (omega arith) (omega arith) 8 gpio_af 4
            (omega arith) (omega arith)
            (gpio_config-Role a b 8 gpio_af 4 gpio_pullup p0 (omega arith) (omega arith))),
      both 9 (gpio_config-Role a b 9 gpio_af 4 gpio_pullup p1 (omega arith) (omega arith)),
    )

-- A pin that none of the four configurations of `spi_init` is about.
spi_pins-others :
    (masks : SpiMasks) (gpioa_base gpiob j : ℕ) (m : GpioMode) (f : ℕ) (p : Pins)
    → 6 < j
    → j < 16
    → Role (p.ports gpiob) j m f
    → Role ((spi_pins masks gpioa_base gpiob p).ports gpiob) j m f
unfolding spi_pins
spi_pins-others masks a b j m f p past j_in r =
    let p0 = record p { apb2enr = p.apb2enr ||| masks.apb2enr_spi1en } in
    let p1 = gpio_config a b 3 gpio_af 5 gpio_nopull p0 in
    let p2 = gpio_config a b 4 gpio_af 5 gpio_nopull p1 in
    let p3 = gpio_config a b 5 gpio_af 5 gpio_nopull p2 in
    let p4 = gpio_config a b 6 gpio_output 0 gpio_nopull p3 in
    let r1 =
      gpio_config-others a b 3 gpio_af 5 gpio_nopull p0 (omega arith) (omega arith) j m f j_in
        (omega arith) r in
    let r2 =
      gpio_config-others a b 4 gpio_af 5 gpio_nopull p1 (omega arith) (omega arith) j m f j_in
        (omega arith) r1 in
    let r3 =
      gpio_config-others a b 5 gpio_af 5 gpio_nopull p2 (omega arith) (omega arith) j m f j_in
        (omega arith) r2 in
    let r4 =
      gpio_config-others a b 6 gpio_output 0 gpio_nopull p3 (omega arith) (omega arith) j m f j_in
        (omega arith) r3 in
    deselect-Role b j f m p4 r4

spi-Roles :
    (masks : SpiMasks) (gpioa_base gpiob : ℕ) (p : Pins)
    → let x = (spi_pins masks gpioa_base gpiob p).ports gpiob in
      Role x 3 gpio_af 5 × Role x 4 gpio_af 5 × Role x 5 gpio_af 5 × Role x 6 gpio_output 0
unfolding spi_pins
spi-Roles masks a b p =
    let p0 = record p { apb2enr = p.apb2enr ||| masks.apb2enr_spi1en } in
    let p1 = gpio_config a b 3 gpio_af 5 gpio_nopull p0 in
    let p2 = gpio_config a b 4 gpio_af 5 gpio_nopull p1 in
    let p3 = gpio_config a b 5 gpio_af 5 gpio_nopull p2 in
    let p4 = gpio_config a b 6 gpio_output 0 gpio_nopull p3 in
    let past4 = gpio_config-others a b 4 gpio_af 5 gpio_nopull p1 (omega arith) (omega arith) in
    let past5 = gpio_config-others a b 5 gpio_af 5 gpio_nopull p2 (omega arith) (omega arith) in
    let past6 = gpio_config-others a b 6 gpio_output 0 gpio_nopull p3 (omega arith) (omega arith) in
    (
      deselect-Role b 3 5 gpio_af p4 (
          past6 3 gpio_af 5 (omega arith) (omega arith) (
            past5 3 gpio_af 5 (omega arith) (omega arith) (
              past4 3 gpio_af 5 (omega arith) (omega arith)
                (gpio_config-Role a b 3 gpio_af 5 gpio_nopull p0 (omega arith) (omega arith))))),
      deselect-Role b 4 5 gpio_af p4 (
          past6 4 gpio_af 5 (omega arith) (omega arith) (
            past5 4 gpio_af 5 (omega arith) (omega arith)
              (gpio_config-Role a b 4 gpio_af 5 gpio_nopull p1 (omega arith) (omega arith)))),
      deselect-Role b 5 5 gpio_af p4 (
          past6 5 gpio_af 5 (omega arith) (omega arith)
            (gpio_config-Role a b 5 gpio_af 5 gpio_nopull p2 (omega arith) (omega arith))),
      deselect-Role b 6 0 gpio_output p4
          (gpio_config-Role a b 6 gpio_output 0 gpio_nopull p3 (omega arith) (omega arith)),
    )

port_b-roles :
    (i2c1en : Word) (masks : SpiMasks) (gpioa_base gpiob : ℕ) (p : Pins)
    → let x = (spi_pins masks gpioa_base gpiob (i2c_pins i2c1en gpioa_base gpiob p)).ports gpiob in
      (Role x 3 gpio_af 5 × Role x 4 gpio_af 5 × Role x 5 gpio_af 5 × Role x 6 gpio_output 0)
      × (Role x 8 gpio_af 4)
      × (Role x 9 gpio_af 4)
port_b-roles i2c1en masks a b p =
    let before = i2c_pins i2c1en a b p in
    let (scl, sda) = i2c-Roles i2c1en a b p in
    (
      spi-Roles masks a b before,
      spi_pins-others masks a b 8 gpio_af 4 before (omega arith) (omega arith) scl,
      spi_pins-others masks a b 9 gpio_af 4 before (omega arith) (omega arith) sda,
    )

-- No driver takes a pin from another. After `uart_init`, `pwm_init` and `ultrasonic_init`, in the
-- order of the boot and from any state of the registers, pin 0 of port A is the trigger's output,
-- pin 1 the echo's input capture, pin 2 the serial port's transmitter and pin 6 the servo's PWM. After
-- `i2c_init` and then `spi_init`, from any state, pins 3, 4 and 5 of port B are the SPI's clock and
-- data, pin 6 is the chip select's output, and pins 8 and 9 are the clock and data of I2C.
pub drivers-share_pins :
    (tim2en tim3en i2c1en : Word) (masks : SpiMasks) (gpioa_base gpiob : ℕ) (p : Pins)
    → let x =
        (ultrasonic_pins tim2en gpioa_base
            (pwm_pins tim3en gpioa_base (uart_pins gpioa_base p))).ports
          gpioa_base in
      let y = (spi_pins masks gpioa_base gpiob (i2c_pins i2c1en gpioa_base gpiob p)).ports gpiob in
      (Role x 0 gpio_output 0 × Role x 1 gpio_af 1 × Role x 2 gpio_af 7 × Role x 6 gpio_af 2)
      × (Role y 3 gpio_af 5 × Role y 4 gpio_af 5 × Role y 5 gpio_af 5 × Role y 6 gpio_output 0)
      × (Role y 8 gpio_af 4)
      × (Role y 9 gpio_af 4)
drivers-share_pins tim2en tim3en i2c1en masks gpioa_base gpiob p =
    let (spi, scl, sda) = port_b-roles i2c1en masks gpioa_base gpiob p in
    (port_a-roles tim2en tim3en gpioa_base p, spi, scl, sda)
