-- ===== src/Drivers/Adc.antt =====
-- Drivers/Src/adc.c: the converter ADC1. The masks and the base address of port A come from the
-- device header and are parameters. The conversion is hardware: the wait for the end of a conversion is over
-- when the data register holds what `convert` gives for the register SQR3.
pub mod Millivolts
pub mod Sampling
use sentinel_rtos.Base.{
  ℕ, ◌+◌, ◌-◌, ◌*◌, ◌/◌, ◌%◌, ◌^◌, Bool, true, false, not, ◌&&◌, ◌||◌, ◌==◌, leb, ltb,
  if◌then◌else◌,
}
use sentinel_rtos.Drivers.Registers.{Word, word, ◌|||◌, ◌&&&◌, ~~~◌, ◌<<◌}
use sentinel_rtos.Drivers.Gpio.{Pins, gpio_config, gpio_analog, gpio_nopull}

-- The masks of the device header.
pub record AdcMasks : Type 0 where
  pub apb2enr_adc1en : Word
  pub cr2_adon : Word
  pub cr2_swstart : Word
  pub sr_eoc : Word

pub record Adc : Type 0 where
  pub ccr : Word
  pub cr1 : Word
  pub cr2 : Word
  pub sqr1 : Word
  pub sqr3 : Word
  pub smpr1 : Word
  pub smpr2 : Word
  pub sr : Word

unfoldable pub adc_init : AdcMasks → Pins → Adc → Pins × Adc
adc_init masks p a = (
  record p { apb2enr = p.apb2enr ||| masks.apb2enr_adc1en },
  record a { ccr = word 0; cr1 = word 0; cr2 = word 0 ||| masks.cr2_adon; sqr1 = word 0 },
)

-- The clearing and setting of three bits at `shift`.
abbrev pub sample_84_cycles : Word → ℕ → Word
sample_84_cycles w shift = w &&& ~~~ (word 7 << shift) ||| (word 4 << shift)

unfoldable pub set_sample_time : ℕ → Adc → Adc
set_sample_time channel a =
    if ltb channel 10
    then record a { smpr2 = sample_84_cycles a.smpr2 (channel * 3) }
    else record a { smpr1 = sample_84_cycles a.smpr1 ((channel - 10) * 3) }

unfoldable pub adc_config_channel : ℕ → ℕ → Pins → Adc → Pins × Adc
adc_config_channel gpioa_base channel p a = (
  if ltb channel 8
      then gpio_config gpioa_base gpioa_base channel gpio_analog 0 gpio_nopull p
      else p,
  set_sample_time channel a,
)

unfoldable pub adc_read : AdcMasks → (Word → ℕ) → ℕ → Adc → ℕ × Adc
adc_read masks convert channel a =
    let started = record a {
      sqr3 = word channel;
      sr = a.sr &&& ~~~ masks.sr_eoc;
      cr2 = a.cr2 ||| masks.cr2_swstart;
    } in
    (convert started.sqr3 % 2 ^ 16, started)

-- The product is on `uint32_t`, the result a `uint16_t`.
unfoldable pub adc_to_mv : ℕ → ℕ → ℕ
adc_to_mv raw vref_mv = raw * vref_mv % 2 ^ 32 / 4095 % 2 ^ 16
