-- ===== src/Drivers/Spi.antt =====
-- Drivers/Src/spi.c: SPI1 as a master. The masks and the base addresses of the ports come from the device
-- header and are parameters, and so is the slave: each byte that is shifted out to it brings one back. The
-- waits for the flags TXE and RXNE are over when the hardware has set them.
pub mod Control
pub mod Transfers
use sentinel_rtos.Base.{
  ℕ, zero, suc, ◌+◌, ◌-◌, ◌%◌, Bool, true, false, not, ◌&&◌, ◌||◌, List, [], ◌∷◌, leb, ltb,
  if◌then◌else◌, update,
}
use sentinel_rtos.Drivers.Registers.{Word, word, ◌|||◌, ◌&&&◌, ◌<<◌}
use sentinel_rtos.Drivers.Gpio.{Pins, gpio_config, gpio_write, gpio_af, gpio_output, gpio_nopull}

-- The masks of the device header, and `SPI_CR1_BR_Pos`.
pub record SpiMasks : Type 0 where
  pub apb2enr_spi1en : Word
  pub cr1_br_pos : ℕ
  pub cr1_cpha : Word
  pub cr1_cpol : Word
  pub cr1_mstr : Word
  pub cr1_ssm : Word
  pub cr1_ssi : Word
  pub cr1_spe : Word

abbrev pub spi_cs_pin : ℕ
spi_cs_pin = 6

unfoldable pub spi_cs_select : ℕ → Pins → Pins
spi_cs_select gpiob p = gpio_write gpiob spi_cs_pin false p

unfoldable pub spi_cs_deselect : ℕ → Pins → Pins
spi_cs_deselect gpiob p = gpio_write gpiob spi_cs_pin true p

-- The pins: the clock of the peripheral, SCK, MISO, MOSI and the chip select.
unfoldable pub spi_pins : SpiMasks → ℕ → ℕ → Pins → Pins
spi_pins masks gpioa_base gpiob p =
    let p0 = record p { apb2enr = p.apb2enr ||| masks.apb2enr_spi1en } in
    let p1 = gpio_config gpioa_base gpiob 3 gpio_af 5 gpio_nopull p0 in
    let p2 = gpio_config gpioa_base gpiob 4 gpio_af 5 gpio_nopull p1 in
    let p3 = gpio_config gpioa_base gpiob 5 gpio_af 5 gpio_nopull p2 in
    let p4 = gpio_config gpioa_base gpiob spi_cs_pin gpio_output 0 gpio_nopull p3 in
    spi_cs_deselect gpiob p4

-- `if (on) cr1 |= mask;`
abbrev pub set_if : Bool → Word → Word → Word
set_if on mask cr1 = if on then cr1 ||| mask else cr1

-- The writes to CR1.
unfoldable pub spi_control : SpiMasks → ℕ → ℕ → Word
spi_control masks baud_div mode =
    let w0 = word 0 ||| ((word baud_div &&& word 7) << masks.cr1_br_pos) in
    let w1 = set_if (word mode 0) masks.cr1_cpha w0 in
    let w2 = set_if (word mode 1) masks.cr1_cpol w1 in
    let w3 = w2 ||| (masks.cr1_mstr ||| masks.cr1_ssm ||| masks.cr1_ssi) in w3 ||| masks.cr1_spe

-- The pins and CR1 after it.
unfoldable pub spi_init : SpiMasks → ℕ → ℕ → ℕ → ℕ → Pins → Pins × Word
spi_init masks gpioa_base gpiob baud_div mode p =
    (spi_pins masks gpioa_base gpiob p, spi_control masks baud_div mode)

module _ {Slave : Type 0} (exchange : ℕ → Slave → ℕ × Slave) where
  -- The byte that comes back, and the slave after it.
  unfoldable pub spi_transfer : ℕ → Slave → ℕ × Slave
  spi_transfer tx slave = let (rx, after) = exchange (tx % 256) slave in (rx % 256, after)

  -- The loop of `spi_write` from index `i` on, with `left` rounds left.
  unfoldable pub write_from : (ℕ → ℕ) → ℕ → ℕ → Slave → Slave
  write_from bytes i zero slave = slave
  write_from bytes i (suc left) slave =
      write_from bytes (i + 1) left (spi_transfer (bytes i) slave).1

  unfoldable pub spi_write : (ℕ → ℕ) → ℕ → Slave → Slave
  spi_write bytes len slave = write_from bytes 0 len slave

  -- The loop of `spi_read`, and the buffer after it.
  unfoldable pub read_from : (ℕ → ℕ) → ℕ → ℕ → Slave → (ℕ → ℕ) × Slave
  read_from bytes i zero slave = (bytes, slave)
  read_from bytes i (suc left) slave =
      let (rx, after) = spi_transfer 0xff slave in read_from (update bytes i rx) (i + 1) left after

  unfoldable pub spi_read : (ℕ → ℕ) → ℕ → Slave → (ℕ → ℕ) × Slave
  spi_read bytes len slave = read_from bytes 0 len slave
