-- ===== src/Drivers/Spi/Control.antt =====
-- The control register of SPI1 after `spi_init` of Drivers/Src/spi.c.
use sentinel_rtos.Base.{ℕ, ◌-◌, ◌<◌, ◌≡◌, Bool, ◌&&◌, ◌||◌, ◌==◌, leb, ltb, if◌then◌else◌, arith}
use sentinel_rtos.Drivers.Registers.{word, word-zero, word-seven}
use sentinel_rtos.Drivers.Spi.{SpiMasks, spi_control}

-- The layout of CR1 in the device header.
pub record HasLayout (masks : SpiMasks) : Type 0 where
  pub br : masks.cr1_br_pos ≡ 3
  pub cpha : (i : ℕ) → masks.cr1_cpha i ≡ (i == 0)
  pub cpol : (i : ℕ) → masks.cr1_cpol i ≡ (i == 1)
  pub mstr : (i : ℕ) → masks.cr1_mstr i ≡ (i == 2)
  pub spe : (i : ℕ) → masks.cr1_spe i ≡ (i == 6)
  pub ssi : (i : ℕ) → masks.cr1_ssi i ≡ (i == 8)
  pub ssm : (i : ℕ) → masks.cr1_ssm i ≡ (i == 9)

-- A table of the register's bits for a divider and an SPI mode.
abbrev pub expected : ℕ → ℕ → ℕ → Bool
expected baud_div mode i =
    if i == 0
    then word mode 0
    else if i == 1
    then word mode 1
    else if leb 3 i && ltb i 6
    then word baud_div (i - 3)
    else i == 2 || i == 6 || i == 8 || i == 9

-- With the device header's layout of CR1, `spi_init` leaves CR1 with the divider's three bits in the
-- baud rate field, the two bits of the SPI mode as clock phase and polarity, the bits of a master with
-- software slave management set, the peripheral enabled, and no other of the 32 bits set.
pub spi_control-bits :
    (masks : SpiMasks) (baud_div mode i : ℕ)
    → HasLayout masks
    → i < 32
    → spi_control masks baud_div mode i ≡ expected baud_div mode i
unfolding spi_control
spi_control-bits masks baud_div mode i h lt = ground (
  arith,
  h.br,
  h.cpha i,
  h.cpol i,
  h.mstr i,
  h.spe i,
  h.ssi i,
  h.ssm i,
  word-zero i,
  word-seven (i - 3),
)
