-- ===== src/Drivers/Gpio.antt =====
-- Drivers/Src/gpio.c: the pins. The base address of port A, `GPIOA_BASE`, is a parameter.
pub mod Fields
pub mod Config
pub mod Levels
use sentinel_rtos.Base.{
  ℕ, zero, suc, ◌+◌, ◌-◌, ◌*◌, ◌/◌, ◌%◌, ◌^◌, Bool, true, false, not, ◌&&◌, ◌||◌, ◌==◌, leb, ltb,
  if◌then◌else◌, update,
}
use sentinel_rtos.Drivers.Registers.{Word, word, ◌|||◌, ◌&&&◌, ◌^^^◌, ~~~◌, ◌<<◌}

-- `gpio_mode_t`.
pub data GpioMode : Type 0 where
  gpio_input gpio_output gpio_af gpio_analog : GpioMode

-- `gpio_pull_t`.
pub data GpioPull : Type 0 where
  gpio_nopull gpio_pullup gpio_pulldown : GpioPull

abbrev pub mode_code : GpioMode → ℕ
mode_code gpio_input = 0
mode_code gpio_output = 1
mode_code gpio_af = 2
mode_code gpio_analog = 3

abbrev pub pull_code : GpioPull → ℕ
pull_code gpio_nopull = 0
pull_code gpio_pullup = 1
pull_code gpio_pulldown = 2

abbrev pub is_af : GpioMode → Bool
is_af gpio_input = false
is_af gpio_output = false
is_af gpio_af = true
is_af gpio_analog = false

-- The registers of a port. `bsrr` is the last word that was written there.
pub record Port : Type 0 where
  pub moder : Word
  pub otyper : Word
  pub ospeedr : Word
  pub pupdr : Word
  pub idr : Word
  pub odr : Word
  pub bsrr : Word
  pub afr : ℕ → Word

-- The ports by their address, and the clock enable registers.
pub record Pins : Type 0 where
  pub ports : ℕ → Port
  pub ahb1enr : Word
  pub apb1enr : Word
  pub apb2enr : Word

abbrev pub set_port : Pins → ℕ → Port → Pins
set_port p port x = record p { ports = update p.ports port x }

-- The difference is on `uint32_t`.
unfoldable pub clock_index : ℕ → ℕ → ℕ
clock_index gpioa_base port = (port + (2 ^ 32 - gpioa_base)) % 2 ^ 32 / 0x400

unfoldable pub gpio_clock_enable : ℕ → ℕ → Pins → Pins
gpio_clock_enable gpioa_base port p = record p {
  ahb1enr = p.ahb1enr ||| (word 1 << clock_index gpioa_base port);
}

-- The writes of `gpio_config` to MODER and PUPDR.
unfoldable pub set_mode_and_pull : ℕ → GpioMode → GpioPull → Port → Port
set_mode_and_pull pin mode pull x = record x {
  moder = x.moder &&& ~~~ (word 3 << pin * 2) ||| (word (mode_code mode) << pin * 2);
  pupdr = x.pupdr &&& ~~~ (word 3 << pin * 2) ||| (word (pull_code pull) << pin * 2);
}

-- Its write to AFR.
unfoldable pub set_alternate : ℕ → ℕ → Port → Port
set_alternate pin af x =
    let reg = pin / 8 in
    let shift = pin % 8 * 4 in
    record x {
      afr = update x.afr reg (x.afr reg &&& ~~~ (word 0xf << shift) ||| (word af << shift));
    }

unfoldable pub gpio_config : ℕ → ℕ → ℕ → GpioMode → ℕ → GpioPull → Pins → Pins
gpio_config gpioa_base port pin mode af pull p =
    let clocked = gpio_clock_enable gpioa_base port p in
    let x = set_mode_and_pull pin mode pull (clocked.ports port) in
    set_port clocked port (if is_af mode then set_alternate pin af x else x)

unfoldable pub gpio_set_open_drain : ℕ → ℕ → Pins → Pins
gpio_set_open_drain port pin p =
    let x = p.ports port in
    set_port p port (record x {
      otyper = x.otyper ||| (word 1 << pin);
      ospeedr = x.ospeedr ||| (word 3 << pin * 2);
    })

unfoldable pub gpio_write : ℕ → ℕ → Bool → Pins → Pins
gpio_write port pin value p =
    set_port p port
      (record (p.ports port) { bsrr = if value then word 1 << pin else word 1 << (pin + 16) })

unfoldable pub gpio_toggle : ℕ → ℕ → Pins → Pins
gpio_toggle port pin p =
    set_port p port (record (p.ports port) { odr = (p.ports port).odr ^^^ (word 1 << pin) })

-- `x != 0` for the bits from `i` down.
unfoldable pub any_bit : Word → ℕ → Bool
any_bit w zero = w 0
any_bit w (suc i) = w (suc i) || any_bit w i

unfoldable pub gpio_read : ℕ → ℕ → Pins → Bool
gpio_read port pin p = any_bit ((p.ports port).idr &&& (word 1 << pin)) 31
