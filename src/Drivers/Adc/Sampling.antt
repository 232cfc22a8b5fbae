-- ===== src/Drivers/Adc/Sampling.antt =====
-- `adc_config_channel` of Drivers/Src/adc.c.
use sentinel_rtos.Base.{
  ℕ, zero, suc, ◌+◌, ◌-◌, ◌*◌, ◌<◌, ◌≡◌, refl, ◌∙◌, Bool, true, ◌&&◌, ◌==◌, ltb, if◌then◌else◌,
  arith, Bool-cases, inl, inr,
}
use sentinel_rtos.Drivers.Registers.{Word, word, word-zero, word-seven, field_written}
use sentinel_rtos.Drivers.Gpio.{Pins, gpio_analog, gpio_nopull}
use sentinel_rtos.Drivers.Gpio.Fields.{word-three}
use sentinel_rtos.Drivers.Gpio.Config.{pin_pair, gpio_config-pin}
use sentinel_rtos.Drivers.Adc.{Adc, sample_84_cycles, set_sample_time, adc_config_channel}

word-four : (i : ℕ) → word 4 i ≡ (i == 2)
unfolding word
word-four zero = refl
word-four (suc zero) = refl
word-four (suc (suc zero)) = refl
word-four (suc (suc (suc i))) = word-zero i ∙ ground arith

-- A field of three bits for each of ten channels.
three_bits :
    (w : Word) (n j b : ℕ)
    → n < 10
    → j < 10
    → b < 3
    → sample_84_cycles w (n * 3) (3 * j + b) ≡ (if j == n then b == 2 else w (3 * j + b))
three_bits w n j b n_in j_in b_in =
    field_written w (word 7) (word 4) (n * 3) 3 (3 * j + b) (omega arith) word-seven
      (λ i le. ground (arith, word-four i))
    ∙ ground (arith, word-four (3 * j + b - n * 3))

-- Bit `b` of the sample time of a channel.
abbrev pub sample_bit : Adc → ℕ → ℕ → Bool
sample_bit a channel b =
    if ltb channel 10 then a.smpr2 (3 * channel + b) else a.smpr1 (3 * (channel - 10) + b)

set_sample_time-sample_bit :
    (a : Adc) (channel other b : ℕ)
    → channel < 19
    → other < 19
    → b < 3
    → sample_bit (set_sample_time channel a) other b
      ≡ (if other == channel then b == 2 else sample_bit a other b)
unfolding set_sample_time
set_sample_time-sample_bit a channel other b in_range other_in b_in =
    elim (Bool-cases (ltb channel 10)) [
      | inl low ↦ rw low (ground (arith, three_bits a.smpr2 channel other b))
      | inr high ↦ rw high (ground (arith, three_bits a.smpr1 (channel - 10) (other - 10) b))
    ]

-- `adc_config_channel` of a channel below 19 gives that channel the sample time 4, which is 84 cycles, and leaves
-- the sample times of the others; on port A it makes the channel's pin analog where the channel is
-- below 8, and leaves the modes of the other pins.
pub adc_config_channel-sets :
    (gpioa_base channel other b j c : ℕ) (p : Pins) (a : Adc)
    → channel < 19
    → other < 19
    → b < 3
    → j < 16
    → c < 2
    → let (p', a') = adc_config_channel gpioa_base channel p a in
      (sample_bit a' other b ≡ (if other == channel then b == 2 else sample_bit a other b))
      × (pin_pair (p'.ports gpioa_base).moder j c ≡ (
          if ltb channel 8 && j == channel then true else pin_pair (p.ports gpioa_base).moder j c))
unfolding adc_config_channel
adc_config_channel-sets gpioa_base channel other b j c p a in_range other_in b_in j_in c_in =
    (set_sample_time-sample_bit a channel other b in_range other_in b_in, mode)
  where
    below_two : ltb c 2 ≡ true
    below_two = ground arith

    mode :
        pin_pair ((adc_config_channel gpioa_base channel p a).0.ports gpioa_base).moder j c
        ≡ (if ltb channel 8 && j == channel then true else pin_pair (p.ports gpioa_base).moder j c)
    mode = elim (Bool-cases (ltb channel 8)) [
      | inl pin ↦ rw pin (
          (gpio_config-pin gpioa_base gpioa_base channel gpio_analog 0 gpio_nopull p
            (gpioa_base + 1) j c 0 (ground arith) (omega arith) j_in c_in (omega arith)
            (omega arith)).0
          ∙ rw (word-three c ∙ below_two) refl)
      | inr other ↦ rw other refl
    ]
