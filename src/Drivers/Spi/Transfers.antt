-- ===== src/Drivers/Spi/Transfers.antt =====
-- The transfers of Drivers/Src/spi.c against the slave's own run over a list of bytes.
use mathlib.Core.Path.{ap₂}
use sentinel_rtos.Base.{
  ℕ, zero, suc, ◌+◌, ◌%◌, ◌<◌, ◌≤◌, ◌≡◌, ◌⊎◌, refl, ◌∙◌, inl, inr, List, [], ◌∷◌, elements, update,
  arith,
}
use sentinel_rtos.Drivers.Spi.{spi_transfer, write_from, read_from, spi_write, spi_read}

-- `n` times the same byte.
abbrev pub repeated : ℕ → ℕ → List ℕ
repeated zero byte = []
repeated (suc n) byte = byte ∷ repeated n byte

module _ {Slave : Type 0} (exchange : ℕ → Slave → ℕ × Slave) where
  -- The slave's answers to a list of bytes, in order, and the slave after them.
  abbrev pub answers : List ℕ → Slave → List ℕ × Slave
  answers [] slave = ([], slave)
  answers (tx ∷ more) slave =
      let (rx, after) = exchange tx slave in
      let (others, last) = answers more after in (rx % 256 ∷ others, last)

  write_from_lem :
      (left i : ℕ) (bytes : ℕ → ℕ) (slave : Slave)
      → write_from exchange bytes i left slave
        ≡ (answers (elements (λ j. bytes j % 256) i left) slave).1
  unfolding write_from spi_transfer
  write_from_lem zero i bytes slave = refl
  write_from_lem (suc left) i bytes slave =
      write_from_lem left (i + 1) bytes (exchange (bytes i % 256) slave).1

  -- The slots outside the loop's range stay.
  read_from-outside :
      (left i j : ℕ) (bytes : ℕ → ℕ) (slave : Slave)
      → (j < i) ⊎ (i + left ≤ j)
      → (read_from exchange bytes i left slave).0 j ≡ bytes j
  unfolding read_from spi_transfer
  read_from-outside zero i j bytes slave out = refl
  read_from-outside (suc left) i j bytes slave out =
      let (rx, after) = exchange 0xff slave in
      read_from-outside left (i + 1) j (update bytes i (rx % 256)) after (omega arith)
      ∙ ground arith

  read_from_lem :
      (left i : ℕ) (bytes : ℕ → ℕ) (slave : Slave)
      → let (buffer, after) = read_from exchange bytes i left slave in
        let (received, last) = answers (repeated left 0xff) slave in
        (elements buffer i left ≡ received) × (after ≡ last)
  unfolding read_from spi_transfer
  read_from_lem zero i bytes slave = (refl, refl)
  read_from_lem (suc left) i bytes slave =
      let (rx, after) = exchange 0xff slave in
      let next = update bytes i (rx % 256) in
      let (heads, tails) = read_from_lem left (i + 1) next after in
      (
        ap₂ ◌∷◌ (read_from-outside left (i + 1) i next after (inl (omega arith)) ∙ ground arith)
            heads,
        tails,
      )

-- `spi_write` clocks out the `len` bytes in their order, and `spi_read` as many bytes 0xFF; a read
-- leaves in the buffer, from its start on, what the slave answered, in order, and the buffer's other slots as they were.
pub spi_transfers :
    {Slave : Type 0} (exchange : ℕ → Slave → ℕ × Slave) (len j : ℕ) (bytes : ℕ → ℕ) (slave : Slave)
    → len ≤ j
    → let (buffer, after) = spi_read exchange bytes len slave in
      let (received, last) = answers exchange (repeated len 0xff) slave in
      (spi_write exchange bytes len slave
        ≡ (answers exchange (elements (λ i. bytes i % 256) 0 len) slave).1)
      × (elements buffer 0 len ≡ received)
      × (after ≡ last)
      × (buffer j ≡ bytes j)
unfolding spi_write spi_read
spi_transfers exchange len j bytes slave past =
    let (r, a) = read_from_lem exchange len 0 bytes slave in
    (
      write_from_lem exchange len 0 bytes slave,
      r,
      a,
      read_from-outside exchange len 0 j bytes slave (inr (omega arith)),
    )
