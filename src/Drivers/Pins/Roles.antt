-- ===== src/Drivers/Pins/Roles.antt =====
-- The role that a pin's fields give it, for Drivers/Src/gpio.c and the initialisations that use it.
use sentinel_rtos.Base.{
  ℕ, zero, suc, ◌+◌, ◌*◌, ◌%◌, ◌<◌, ◌≡◌, ◌≢◌, refl, ◌∙◌, true, ◌||◌, ◌==◌, ltb, if◌then◌else◌,
  arith, same_number,
}
use sentinel_rtos.Drivers.Registers.{Word, word, word-seven}
use sentinel_rtos.Drivers.Gpio.{
  GpioMode, GpioPull, mode_code, is_af, Port, Pins, gpio_af, gpio_config, gpio_nopull,
}
use sentinel_rtos.Drivers.Gpio.Config.{pin_pair, pin_function, gpio_config-pin}
use sentinel_rtos.Drivers.Gpio.Levels.{one_bit}
use sentinel_rtos.Drivers.Uart.{compute_uart_baud, uart_set_baud_rate}
use sentinel_rtos.Drivers.Pins.{set_uart_pin, uart_pins, uart_init}

-- Pin `j` of a port has a mode, and in mode GPIO_AF an alternate function.
pub record Role (x : Port) (j : ℕ) (mode : GpioMode) (af : ℕ) : Type 0 where
  pub mode_bits : (b : ℕ) → b < 2 → pin_pair x.moder j b ≡ word (mode_code mode) b
  pub function_bits : (c : ℕ) → c < 4 → is_af mode ≡ true → pin_function x j c ≡ word af c

module _ (gpioa_base port pin : ℕ) (mode : GpioMode) (af : ℕ) (pull : GpioPull) (p : Pins)
    (pin_in : pin < 16) (af_in : af < 16) where
  -- The configured pin has the role asked for.
  pub gpio_config-Role :
      Role ((gpio_config gpioa_base port pin mode af pull p).ports port) pin mode af
  gpio_config-Role = record {
    mode_bits = λ b lt.
        (gpio_config-pin gpioa_base port pin mode af pull p (port + 1) pin b 0 pin_in af_in pin_in
          lt (omega arith) (omega arith)).0
        ∙ rw (same_number pin) refl;
    function_bits = λ c lt on.
        (gpio_config-pin gpioa_base port pin mode af pull p (port + 1) pin 0 c pin_in af_in pin_in
          (omega arith) lt (omega arith)).2
        ∙ rw (on, same_number pin) refl;
  }

  -- The other pins keep theirs.
  pub gpio_config-others :
      (j : ℕ) (m : GpioMode) (f : ℕ)
      → j < 16
      → j ≢ pin
      → Role (p.ports port) j m f
      → Role ((gpio_config gpioa_base port pin mode af pull p).ports port) j m f
  gpio_config-others j m f j_in ne r = record {
    mode_bits = λ b lt.
        (gpio_config-pin gpioa_base port pin mode af pull p (port + 1) j b 0 pin_in af_in j_in lt
          (omega arith) (omega arith)).0
        ∙ ground (arith, r.mode_bits b lt);
    function_bits = λ c lt on.
        (gpio_config-pin gpioa_base port pin mode af pull p (port + 1) j 0 c pin_in af_in j_in
          (omega arith) lt (omega arith)).2
        ∙ ground (arith, r.function_bits c lt on);
  }

word-two : (b : ℕ) → b < 2 → word 2 b ≡ (b == 1)
unfolding word
word-two zero lt = refl
word-two (suc zero) lt = refl
word-two (suc (suc b)) lt = absurd (omega arith)

-- `uart_init` sets its pin by hand.
uart-moder :
    (x : Port) (j b : ℕ)
    → j < 16
    → b < 2
    → pin_pair (set_uart_pin x).moder j b ≡ (if j == 2 then b == 1 else pin_pair x.moder j b)
unfolding set_uart_pin
uart-moder x j b j_in b_in =
    ground (arith, one_bit 4 (2 * j + b) (omega arith), one_bit 5 (2 * j + b) (omega arith))

uart-afr :
    (x : Port) (j c : ℕ)
    → j < 16
    → c < 4
    → pin_function (set_uart_pin x) j c ≡ (if j == 2 then ltb c 3 else pin_function x j c)
unfolding set_uart_pin
uart-afr x j c j_in c_in =
    let i = 4 * (j % 8) + c in
    ground (
      arith,
      one_bit 8 i (omega arith),
      one_bit 9 i (omega arith),
      one_bit 10 i (omega arith),
      one_bit 11 i (omega arith),
    )

uart_pins-as-gpio_config :
    (gpioa_base j b c : ℕ) (pull : GpioPull) (p : Pins)
    → j < 16
    → b < 2
    → c < 4
    → let x = (uart_pins gpioa_base p).ports gpioa_base in
      let y = (gpio_config gpioa_base gpioa_base 2 gpio_af 7 pull p).ports gpioa_base in
      (pin_pair x.moder j b ≡ pin_pair y.moder j b) × (pin_function x j c ≡ pin_function y j c)
unfolding uart_pins
uart_pins-as-gpio_config gpioa_base j b c pull p j_in b_in c_in =
    let config =
      gpio_config-pin gpioa_base gpioa_base 2 gpio_af 7 pull p (gpioa_base + 1) j b c (omega arith)
        (omega arith) j_in b_in c_in (omega arith) in
    rw (same_number gpioa_base) (
      uart-moder (p.ports gpioa_base) j b j_in b_in ∙ ground (arith, config.0, word-two b b_in),
      uart-afr (p.ports gpioa_base) j c j_in c_in ∙ ground (arith, config.2, word-seven c),
    )

pub uart_pins-Role :
    (gpioa_base : ℕ) (p : Pins) → Role ((uart_pins gpioa_base p).ports gpioa_base) 2 gpio_af 7
uart_pins-Role gpioa_base p =
    let r =
      gpio_config-Role gpioa_base gpioa_base 2 gpio_af 7 gpio_nopull p (omega arith)
        (omega arith) in
    record {
      mode_bits = λ b lt.
          (uart_pins-as-gpio_config gpioa_base 2 b 0 gpio_nopull p (omega arith) lt (omega arith)).0
          ∙ r.mode_bits b lt;
      function_bits = λ c lt on.
          (uart_pins-as-gpio_config gpioa_base 2 0 c gpio_nopull p (omega arith) (omega arith) lt).1
          ∙ r.function_bits c lt on;
    }

-- Whatever the pull, `uart_init`, which writes the bits by hand, sets the mode and the alternate function of every pin of port A as
-- `gpio_config` would for pin 2 with alternate function 7; it sets the divider 139, enables USART2 and
-- its transmitter in CR1, and leaves the other 30 bits of CR1.
pub uart_init-as-gpio_config :
    (gpioa_base j b c i : ℕ) (pull : GpioPull) (p : Pins) (cr1 : Word)
    → j < 16
    → b < 2
    → c < 4
    → i < 32
    → let (after, brr, control) = uart_init gpioa_base p cr1 in
      let x = after.ports gpioa_base in
      let y = (gpio_config gpioa_base gpioa_base 2 gpio_af 7 pull p).ports gpioa_base in
      (pin_pair x.moder j b ≡ pin_pair y.moder j b)
      × (pin_function x j c ≡ pin_function y j c)
      × (brr ≡ 139)
      × (control i ≡ (if i == 13 || i == 3 then true else cr1 i))
unfolding uart_init uart_set_baud_rate compute_uart_baud
uart_init-as-gpio_config gpioa_base j b c i pull p cr1 j_in b_in c_in i_in =
    let (modes, functions) = uart_pins-as-gpio_config gpioa_base j b c pull p j_in b_in c_in in
    (modes, functions, refl, ground (arith, one_bit 13 i i_in, one_bit 3 i i_in))
