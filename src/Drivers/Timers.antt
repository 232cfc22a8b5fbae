-- ===== src/Drivers/Timers.antt =====
-- The initialisations of Drivers/Src/pwm.c, ultrasonic.c and i2c.c as wholes: pins, numbers and control bits
-- of their peripherals, and the pin writes of the trigger pulse. The bits of the device header and the two functions
-- of the interrupt controller are parameters.
pub mod Modes
use sentinel_rtos.Base.{ℕ, ◌+◌, ◌*◌, ◌/◌, ◌-◌, ◌%◌, ◌^◌, true, false}
use sentinel_rtos.Drivers.Registers.{Word, word, ◌|||◌, ◌&&&◌, ~~~◌}
use sentinel_rtos.Drivers.Gpio.{Pins, gpio_write}
use sentinel_rtos.Drivers.Pins.{pwm_pins, ultrasonic_pins, i2c_pins, trig_pin}
use sentinel_rtos.Drivers.Servo.{Pwm, pwm_init}

-- The control registers of a timer.
pub record Timer : Type 0 where
  pub ccmr1 : Word
  pub ccer : Word
  pub dier : Word
  pub cr1 : Word
  pub egr : Word

pub record PwmBits : Type 0 where
  pub tim3en : Word
  pub oc1m : Word
  pub oc1m_2 : Word
  pub oc1m_1 : Word
  pub oc1pe : Word
  pub arpe : Word
  pub cc1e : Word
  pub ug : Word
  pub cen : Word

-- The writes of `pwm_init` to the control registers of timer 3.
unfoldable pub start_pwm : PwmBits → Timer → Timer
start_pwm m t =
    let t1 = record t { ccmr1 = t.ccmr1 &&& ~~~ m.oc1m } in
    let t2 = record t1 { ccmr1 = t1.ccmr1 ||| (m.oc1m_2 ||| m.oc1m_1 ||| m.oc1pe) } in
    let t3 = record t2 { cr1 = t2.cr1 ||| m.arpe } in
    let t4 = record t3 { ccer = t3.ccer ||| m.cc1e } in
    let t5 = record t4 { egr = t4.egr ||| m.ug } in record t5 { cr1 = t5.cr1 ||| m.cen }

-- All of `pwm_init`.
unfoldable pub pwm_setup : PwmBits → ℕ → ℕ → Pins × Pwm × Timer → Pins × Pwm × Timer
pwm_setup m gpioa_base period_us (pins, p, t) =
    (pwm_pins m.tim3en gpioa_base pins, pwm_init period_us p, start_pwm m t)

pub record CaptureBits : Type 0 where
  pub tim2en : Word
  pub cc2s : Word
  pub cc2s_0 : Word
  pub cc2p : Word
  pub cc2np : Word
  pub cc2e : Word
  pub cc2ie : Word
  pub cen : Word

-- The writes of `ultrasonic_init` to the control registers of timer 2, up to its start.
unfoldable pub arm_capture : CaptureBits → Timer → Timer
arm_capture m t =
    let t1 = record t { ccmr1 = t.ccmr1 &&& ~~~ m.cc2s } in
    let t2 = record t1 { ccmr1 = t1.ccmr1 ||| m.cc2s_0 } in
    let t3 = record t2 { ccer = t2.ccer ||| (m.cc2p ||| m.cc2np) } in
    let t4 = record t3 { ccer = t3.ccer ||| m.cc2e } in record t4 { dier = t4.dier ||| m.cc2ie }

-- Timer 2: its prescaler, its last count and its control registers.
pub record Counter : Type 0 where
  pub psc : ℕ
  pub arr : ℕ
  pub control : Timer

-- The interrupt controller, with `NVIC_SetPriority` and `NVIC_EnableIRQ`.
pub record Nvic {ℓ} (S : Type ℓ) : Type ℓ where
  pub set_priority : ℕ → ℕ → S → S
  pub enable_irq : ℕ → S → S

-- All of `ultrasonic_init`, with the number of the timer's interrupt.
unfoldable pub ultrasonic_init {ℓ} :
    {S : Type ℓ} → Nvic S → CaptureBits → ℕ → ℕ → Pins × Counter × S → Pins × Counter × S
ultrasonic_init nvic m gpioa_base tim2_irqn (pins, c, s) =
    let armed = arm_capture m c.control in
    (
      ultrasonic_pins m.tim2en gpioa_base pins,
      record { psc = 15; arr = 0xffff_ffff; control = record armed { cr1 = armed.cr1 ||| m.cen } },
      nvic.enable_irq tim2_irqn (nvic.set_priority tim2_irqn 5 s),
    )

-- The pin while the trigger pulse lasts, and after it.
unfoldable pub trigger_pulse : ℕ → Pins → Pins × Pins
trigger_pulse gpioa_base p =
    let high = gpio_write gpioa_base trig_pin true p in
    (high, gpio_write gpioa_base trig_pin false high)

abbrev pub i2c_pclk_mhz : ℕ
i2c_pclk_mhz = 16

-- The registers that `i2c_init` writes.
pub record I2cControl : Type 0 where
  pub cr1 : Word
  pub cr2 : ℕ
  pub ccr : ℕ
  pub trise : ℕ

-- The reset, the timing and the start of the peripheral.
unfoldable pub start_i2c : Word → Word → I2cControl → I2cControl
start_i2c swrst pe r =
    let r1 = record r { cr1 = swrst } in
    let r2 = record r1 { cr1 = word 0 } in
    let r3 = record r2 {
      cr2 = i2c_pclk_mhz;
      ccr = i2c_pclk_mhz * 1_000_000 / (2 * 100_000);
      trise = i2c_pclk_mhz + 1;
    } in
    record r3 { cr1 = r3.cr1 ||| pe }

-- All of `i2c_init`.
unfoldable pub i2c_init : Word → Word → Word → ℕ → ℕ → Pins × I2cControl → Pins × I2cControl
i2c_init i2c1en swrst pe gpioa_base gpiob (pins, r) =
    (i2c_pins i2c1en gpioa_base gpiob pins, start_i2c swrst pe r)
