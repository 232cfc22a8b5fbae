-- ===== src/Drivers/Timers/Modes.antt =====
-- The modes that Drivers/Src/pwm.c and ultrasonic.c choose in the registers of their timers.
use sentinel_rtos.Base.{ℕ, ◌≡◌, true, false, ◌&&◌, ◌||◌, ◌==◌, leb, if◌then◌else◌, arith}
use sentinel_rtos.Drivers.Timers.{Timer, PwmBits, CaptureBits, start_pwm, arm_capture}

-- Where the device header puts the bits of CCMR1 and CCER, at bit `i`.
pub record PwmBitsAt (m : PwmBits) (i : ℕ) : Type 0 where
  pub oc1m_at : m.oc1m i ≡ (leb 4 i && leb i 6)
  pub oc1m_2_at : m.oc1m_2 i ≡ (i == 6)
  pub oc1m_1_at : m.oc1m_1 i ≡ (i == 5)
  pub oc1pe_at : m.oc1pe i ≡ (i == 3)

pub record CaptureBitsAt (m : CaptureBits) (i : ℕ) : Type 0 where
  pub cc2s_at : m.cc2s i ≡ (leb 8 i && leb i 9)
  pub cc2s_0_at : m.cc2s_0 i ≡ (i == 8)
  pub cc2e_at : m.cc2e i ≡ (i == 4)
  pub cc2p_at : m.cc2p i ≡ (i == 5)
  pub cc2np_at : m.cc2np i ≡ (i == 7)

-- With the bits of CCMR1 and CCER where the reference manual puts them, whatever the registers held: channel 1 of
-- timer 3 is left in PWM mode 1, 110, with preload, and channel 2 of timer 2 as an input from its own pin, 01, that
-- captures both edges; the other bits of those registers stay.
pub timers-modes :
    (m : PwmBits) (n : CaptureBits) (t u : Timer) (i : ℕ)
    → PwmBitsAt m i
    → CaptureBitsAt n i
    → ((start_pwm m t).ccmr1 i
        ≡ (if i == 6 || (i == 5 || i == 3) then true else if i == 4 then false else t.ccmr1 i))
      × ((arm_capture n u).ccmr1 i ≡ (if i == 8 then true else if i == 9 then false else u.ccmr1 i))
      × ((arm_capture n u).ccer i ≡ (if i == 4 || (i == 5 || i == 7) then true else u.ccer i))
unfolding start_pwm arm_capture
timers-modes m n t u i at by = (
  ground (arith, at.oc1m_at, at.oc1m_2_at, at.oc1m_1_at, at.oc1pe_at),
  ground (arith, by.cc2s_at, by.cc2s_0_at),
  ground (arith, by.cc2e_at, by.cc2p_at, by.cc2np_at),
)
