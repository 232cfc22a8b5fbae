-- ===== src/Drivers/Gpio/Fields.antt =====
-- What Drivers/Src/gpio.c does to the fields of a port's registers.
use sentinel_rtos.Base.{
  ℕ, zero, suc, ◌+◌, ◌*◌, ◌/◌, ◌<◌, ◌≤◌, ◌≡◌, refl, ◌∙◌, false, ◌==◌, ltb, if◌then◌else◌, arith,
}
use sentinel_rtos.Drivers.Registers.{Word, word, word-zero, field_written, ◌|||◌, ◌&&&◌, ~~~◌, ◌<<◌}
use sentinel_rtos.Drivers.Gpio.{
  GpioMode, gpio_input, gpio_output, gpio_af, gpio_analog, GpioPull, gpio_nopull, gpio_pullup,
  gpio_pulldown, mode_code, pull_code,
}

pub word-three : (i : ℕ) → word 3 i ≡ ltb i 2
unfolding word
word-three zero = refl
word-three (suc zero) = refl
word-three (suc (suc i)) = word-zero i ∙ ground arith

pub word-fifteen : (i : ℕ) → word 0xf i ≡ ltb i 4
unfolding word
word-fifteen zero = refl
word-fifteen (suc zero) = refl
word-fifteen (suc (suc zero)) = refl
word-fifteen (suc (suc (suc zero))) = refl
word-fifteen (suc (suc (suc (suc i)))) = word-zero i ∙ ground arith

-- A number of few bits has no others.
pub word-below_four : (n i : ℕ) → n < 4 → 2 ≤ i → word n i ≡ false
unfolding word
word-below_four n zero lt le = absurd (omega arith)
word-below_four n (suc zero) lt le = absurd (omega arith)
word-below_four n (suc (suc i)) lt le = rw (gone) (word-zero i)
  where
    gone : n / 2 / 2 ≡ 0
    gone = omega arith

pub word-below_sixteen : (n i : ℕ) → n < 16 → 4 ≤ i → word n i ≡ false
unfolding word
word-below_sixteen n zero lt le = absurd (omega arith)
word-below_sixteen n (suc zero) lt le = absurd (omega arith)
word-below_sixteen n (suc (suc i)) lt le = word-below_four (n / 2 / 2) i (omega arith) (omega arith)

pub word-mode : (mode : GpioMode) (i : ℕ) → 2 ≤ i → word (mode_code mode) i ≡ false
word-mode gpio_input i le = word-below_four 0 i (omega arith) le
word-mode gpio_output i le = word-below_four 1 i (omega arith) le
word-mode gpio_af i le = word-below_four 2 i (omega arith) le
word-mode gpio_analog i le = word-below_four 3 i (omega arith) le

pub word-pull : (pull : GpioPull) (i : ℕ) → 2 ≤ i → word (pull_code pull) i ≡ false
word-pull gpio_nopull i le = word-below_four 0 i (omega arith) le
word-pull gpio_pullup i le = word-below_four 1 i (omega arith) le
word-pull gpio_pulldown i le = word-below_four 2 i (omega arith) le

-- A field of two bits for each of sixteen pins.
pub two_bits :
    (w value : Word) (pin j b : ℕ)
    → pin < 16
    → j < 16
    → b < 2
    → ((i : ℕ) → 2 ≤ i → value i ≡ false)
    → (w &&& ~~~ (word 3 << pin * 2) ||| (value << pin * 2)) (2 * j + b)
      ≡ (if j == pin then value b else w (2 * j + b))
two_bits w value pin j b pin_in j_in b_in small =
    field_written w (word 3) value (pin * 2) 2 (2 * j + b) (omega arith) word-three small
    ∙ ground arith

-- A field of four bits for each of eight pins.
pub four_bits :
    (w value : Word) (pin j b : ℕ)
    → pin < 8
    → j < 8
    → b < 4
    → ((i : ℕ) → 4 ≤ i → value i ≡ false)
    → (w &&& ~~~ (word 0xf << pin * 4) ||| (value << pin * 4)) (4 * j + b)
      ≡ (if j == pin then value b else w (4 * j + b))
four_bits w value pin j b pin_in j_in b_in small =
    field_written w (word 0xf) value (pin * 4) 4 (4 * j + b) (omega arith) word-fifteen small
    ∙ ground arith
