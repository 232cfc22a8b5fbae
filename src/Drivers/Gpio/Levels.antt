-- ===== src/Drivers/Gpio/Levels.antt =====
-- The levels of a pin in Drivers/Src/gpio.c: the reads and writes of IDR, ODR and BSRR.
use sentinel_rtos.Base.{
  ℕ, zero, suc, ◌+◌, ◌-◌, ◌<◌, ◌≡◌, refl, ◌∙◌, Bool, not, ◌&&◌, ◌==◌, leb, if◌then◌else◌, arith,
  same_number,
}
use sentinel_rtos.Drivers.Registers.{Word, word, word-zero, ◌&&&◌, ◌<<◌}
use sentinel_rtos.Drivers.Gpio.{Pins, any_bit, gpio_write, gpio_toggle, gpio_read}

pub word-one : (i : ℕ) → word 1 i ≡ (i == 0)
unfolding word
word-one zero = refl
word-one (suc i) = word-zero i ∙ ground arith

-- `1U << n`.
pub one_bit : (n i : ℕ) → i < 32 → (word 1 << n) i ≡ (i == n)
one_bit n i lt = ground (arith, word-one (i - n))

any_bit_masked :
    (w : Word) (n top : ℕ)
    → n < 32
    → top < 32
    → any_bit (w &&& (word 1 << n)) top ≡ (leb n top && w n)
unfolding any_bit
any_bit_masked w n zero lt small = ground (arith, one_bit n 0)
any_bit_masked w n (suc top) lt small =
    ground (arith, one_bit n (suc top) small, any_bit_masked w n top lt (omega arith))

-- For a pin below 16, at each bit `i` of a 32-bit register: `gpio_read` gives the pin's bit of IDR;
-- `gpio_write` writes to BSRR the one bit that sets the pin, or the one 16 places up that resets it;
-- `gpio_toggle` turns the pin's bit of ODR over and no other; and toggling twice leaves ODR as it was.
pub pin_levels :
    (port pin i : ℕ) (value : Bool) (p : Pins)
    → pin < 16
    → i < 32
    → let odr = (p.ports port).odr in
      (gpio_read port pin p ≡ (p.ports port).idr pin)
      × (((gpio_write port pin value p).ports port).bsrr i
          ≡ (i == (if value then pin else pin + 16)))
      × (((gpio_toggle port pin p).ports port).odr i ≡ (if i == pin then not (odr i) else odr i))
      × (((gpio_toggle port pin (gpio_toggle port pin p)).ports port).odr i ≡ odr i)
unfolding gpio_read gpio_write gpio_toggle
pin_levels port pin i value p pin_in i_in = rw (same_number port) (
  any_bit_masked (p.ports port).idr pin 31 (omega arith) (omega arith) ∙ ground arith,
  ground (arith, one_bit pin i i_in, one_bit (pin + 16) i i_in),
  ground (arith, one_bit pin i i_in),
  ground (arith, one_bit pin i i_in),
)
