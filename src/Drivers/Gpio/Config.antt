-- ===== src/Drivers/Gpio/Config.antt =====
-- `gpio_config` of Drivers/Src/gpio.c, pin by pin.
use sentinel_rtos.Base.{
  ℕ, ◌+◌, ◌*◌, ◌/◌, ◌%◌, ◌<◌, ◌≡◌, ◌≢◌, refl, Bool, ◌&&◌, ◌==◌, if◌then◌else◌, arith, Bool-cases,
  same_number, inl, inr,
}
use sentinel_rtos.Drivers.Registers.{Word, word}
use sentinel_rtos.Drivers.Gpio.{
  GpioMode, GpioPull, mode_code, pull_code, is_af, Port, Pins, gpio_clock_enable, set_mode_and_pull,
  set_alternate, gpio_config,
}
use sentinel_rtos.Drivers.Gpio.Fields.{
  two_bits, four_bits, word-mode, word-pull, word-below_sixteen,
}

-- The two bits of pin `j` in a register with two bits for each pin.
abbrev pub pin_pair : Word → ℕ → ℕ → Bool
pin_pair w j b = w (2 * j + b)

-- The four bits of the alternate function of pin `j`.
abbrev pub pin_function : Port → ℕ → ℕ → Bool
pin_function x j c = x.afr (j / 8) (4 * (j % 8) + c)

-- What `gpio_config` writes to the port's registers.
configured : ℕ → GpioMode → ℕ → GpioPull → Port → Port
unfolding set_mode_and_pull
configured pin mode af pull x =
    let y = set_mode_and_pull pin mode pull x in if is_af mode then set_alternate pin af y else y

configured-pairs :
    (pin : ℕ) (mode : GpioMode) (af : ℕ) (pull : GpioPull) (x : Port) (j b : ℕ)
    → pin < 16
    → j < 16
    → b < 2
    → let y = configured pin mode af pull x in
      (pin_pair y.moder j b ≡ (if j == pin then word (mode_code mode) b else pin_pair x.moder j b))
      × (pin_pair y.pupdr j b
          ≡ (if j == pin then word (pull_code pull) b else pin_pair x.pupdr j b))
unfolding configured set_mode_and_pull set_alternate
configured-pairs pin mode af pull x j b pin_in j_in b_in =
    let m = two_bits x.moder (word (mode_code mode)) pin j b pin_in j_in b_in (word-mode mode) in
    let p = two_bits x.pupdr (word (pull_code pull)) pin j b pin_in j_in b_in (word-pull pull) in
    elim (Bool-cases (is_af mode)) [ inl on ↦ rw on (m, p) | inr off ↦ rw off (m, p) ]

configured-function :
    (pin : ℕ) (mode : GpioMode) (af : ℕ) (pull : GpioPull) (x : Port) (j c : ℕ)
    → pin < 16
    → af < 16
    → j < 16
    → c < 4
    → pin_function (configured pin mode af pull x) j c
      ≡ (if is_af mode && j == pin then word af c else pin_function x j c)
unfolding configured set_mode_and_pull set_alternate
configured-function pin mode af pull x j c pin_in af_in j_in c_in = elim (Bool-cases (is_af mode)) [
  | inl on ↦ rw on (
      ground (
        arith,
        four_bits (x.afr (j / 8)) (word af) (pin % 8) (j % 8) c (omega arith) (omega arith) c_in
            (λ i. word-below_sixteen af i af_in),
      ))
  | inr off ↦ rw off refl
]

-- `gpio_config` of a pin below 16 with an alternate function below 16 gives that pin its mode, its
-- pull and, in mode GPIO_AF, its function; the fields of the port's other fifteen pins stay, and so do
-- the other ports.
pub gpio_config-pin :
    (gpioa_base port pin : ℕ) (mode : GpioMode) (af : ℕ) (pull : GpioPull) (p : Pins)
    (other j b c : ℕ)
    → pin < 16
    → af < 16
    → j < 16
    → b < 2
    → c < 4
    → other ≢ port
    → let x = p.ports port in
      let after = gpio_config gpioa_base port pin mode af pull p in
      let y = after.ports port in
      (pin_pair y.moder j b ≡ (if j == pin then word (mode_code mode) b else pin_pair x.moder j b))
      × (pin_pair y.pupdr j b
          ≡ (if j == pin then word (pull_code pull) b else pin_pair x.pupdr j b))
      × (pin_function y j c ≡ (if is_af mode && j == pin then word af c else pin_function x j c))
      × (after.ports other ≡ p.ports other)
unfolding gpio_config gpio_clock_enable configured
gpio_config-pin gpioa_base port pin mode af pull p other j b c pin_in af_in j_in b_in c_in ne =
    let (m, u) = configured-pairs pin mode af pull (p.ports port) j b pin_in j_in b_in in
    let f = configured-function pin mode af pull (p.ports port) j c pin_in af_in j_in c_in in
    rw (same_number port) (m, u, f, ground arith)
