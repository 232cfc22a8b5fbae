-- ===== src/Drivers/Adc/Millivolts.antt =====
-- `adc_to_mv` of Drivers/Src/adc.c.
use native.Mathlib.Nat.{mul-le-mul_right}
use sentinel_rtos.Base.{ℕ, ◌+◌, ◌*◌, ◌^◌, ◌<◌, ◌≤◌, ◌≡◌, arith}
use sentinel_rtos.Drivers.Adc.{adc_to_mv}

-- For raw counts up to the converter's 4095 and a reference of 16 bits, no overflow: the result is the raw count's share of the reference,
-- rounded down; it is at most the reference, which the highest count gives; and a greater count gives
-- no fewer millivolts.
pub adc_to_mv-scales :
    (raw more vref_mv : ℕ)
    → raw ≤ more
    → more ≤ 4095
    → vref_mv < 2 ^ 16
    → (4095 * adc_to_mv raw vref_mv ≤ raw * vref_mv)
      × (raw * vref_mv < 4095 * (adc_to_mv raw vref_mv + 1))
      × (adc_to_mv raw vref_mv ≤ adc_to_mv more vref_mv)
      × (adc_to_mv more vref_mv ≤ vref_mv)
      × (adc_to_mv 4095 vref_mv ≡ vref_mv)
unfolding adc_to_mv
adc_to_mv-scales raw more vref_mv le small ref =
    let a : raw * vref_mv ≤ more * vref_mv = mul-le-mul_right vref_mv le in
    let b : more * vref_mv ≤ 4095 * vref_mv = mul-le-mul_right vref_mv small in
    (omega arith, omega arith, omega arith, omega arith, omega arith)
