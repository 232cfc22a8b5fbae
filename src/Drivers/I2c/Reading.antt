-- ===== src/Drivers/I2c/Reading.antt =====
-- `i2c_read` of Drivers/Src/i2c.c on a bus that answers.
use sentinel_rtos.Base.{
  ℕ, zero, suc, ◌+◌, ◌*◌, ◌%◌, ◌^◌, ◌≡◌, refl, ◌∙◌, ap, true, false, some, List, [], ◌∷◌, arith,
}
use sentinel_rtos.Drivers.I2c.{
  busy, rxne, Write, start, stop, ack, nack, data_byte, Wire, I2c, bind, pure, put, wait_flag,
  address_byte, i2c_start, read_data, end_before, receive_all, read_some, i2c_read,
}
use sentinel_rtos.Drivers.I2c.Outcome.{holds_bus}
use sentinel_rtos.Drivers.I2c.Prompt.{
  IsPrompt, bind-some, later, set_at_once, idle_at_once, begun, started,
}

-- What DR holds at its reads for the next `n` bytes and a last one, each after one read of SR1: the last one
-- after a NACK and a STOP.
unfoldable pub arrived : Wire → List Write → ℕ → ℕ → List ℕ
arrived wire ws reads zero = wire.received (stop ∷ nack ∷ ws) (reads + 1) % 2 ^ 8 ∷ []
arrived wire ws reads (suc n) = wire.received ws (reads + 1) % 2 ^ 8 ∷ arrived wire ws (reads + 2) n

module _ (wire : Wire) (prompt : IsPrompt wire)
    (rxne_set : (ws : List Write) (n : ℕ) → wire.shows rxne ws n ≡ true) where
  -- One byte, with the writes `ws` before it.
  byte_received :
      (n : ℕ) (b b1 : I2c) (bytes : List ℕ) (b2 : I2c)
      → end_before wire n b ≡ (some tt, b1)
      → receive_all wire n (record b1 { reads = b1.reads + 2 }) ≡ (some bytes, b2)
      → receive_all wire (suc n) b
        ≡ (some (wire.received b1.writes (b1.reads + 1) % 2 ^ 8 ∷ bytes), b2)
  unfolding receive_all read_data pure
  byte_received n b b1 bytes b2 ended rest =
      bind-some (end_before wire n) _ ended
      ∙ bind-some (wait_flag wire rxne true) _ (set_at_once wire prompt rxne b1 rxne_set)
      ∙ bind-some (read_data wire) _ refl
      ∙ bind-some (receive_all wire n) _
          (ap (λ r. receive_all wire n (record b1 { reads = r })) (omega arith) ∙ rest)

  all_received :
      (n : ℕ) (b : I2c)
      → receive_all wire (suc n) b ≡ (
        some (arrived wire b.writes b.reads n),
        record { reads = b.reads + 2 * (n + 1); writes = stop ∷ nack ∷ b.writes },
      )
  unfolding arrived put end_before receive_all pure bind
  all_received zero b =
      byte_received zero b (record b { writes = stop ∷ nack ∷ b.writes }) [] _ refl refl
      ∙ ground arith
  all_received (suc n) b =
      byte_received (suc n) b b _ _ refl (all_received n (record b { reads = b.reads + 2 }))
      ∙ ground arith

  -- On a bus that nobody holds and that answers every wait at the first read, a read of n + 1 bytes returns I2C_OK with the bytes that
  -- DR holds at its n + 1 reads, in order, and has put out ACK, a start, the address with the read bit, and a NACK and a stop
  -- before the last byte, and nothing else.
  pub i2c_read-receives :
      (slave n : ℕ) (b : I2c)
      → holds_bus b.writes ≡ false
      → let ws = data_byte (address_byte wire slave true) ∷ start ∷ ack ∷ b.writes in
        i2c_read wire slave (suc n) b ≡ (
          some (arrived wire ws (b.reads + 5) n),
          record { reads = b.reads + 5 + 2 * (n + 1); writes = stop ∷ nack ∷ ws },
        )
  unfolding i2c_read read_some put
  i2c_read-receives slave n b free =
      let b1 = record (later b) { writes = ack ∷ b.writes } in
      bind-some (wait_flag wire busy false) _ (idle_at_once wire prompt b free)
      ∙ bind-some (put ack) _ refl
      ∙ bind-some (i2c_start wire slave true) _ (started wire prompt slave true b1)
      ∙ ap (λ r. receive_all wire (suc n) (record (begun wire prompt slave true b1) { reads = r }))
          (omega arith)
      ∙ all_received n (record (begun wire prompt slave true b1) { reads = b.reads + 5 })
