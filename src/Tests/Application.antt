-- ===== src/Tests/Application.antt =====
-- The theorems on the sweep and on the I2C transfers, on concrete runs.
use sentinel_rtos.Base.{suc, ℕ, ◌+◌, ◌*◌, ◌≤◌, ◌≡◌, refl, true, false, none, some, [], ◌∷◌, length}
use sentinel_rtos.Drivers.I2c.{
  busy, start, stop, ack, nack, data_byte, Wire, i2c_read, I2c, i2c_timeout, address_byte,
  i2c_write, i2c_read_reg,
}
use sentinel_rtos.Drivers.I2c.Outcome.{holds_bus, sent, ShowsBusy, i2c_read_reg-fails}
use sentinel_rtos.Drivers.I2c.Bounds.{i2c_write-bounded}
use sentinel_rtos.Drivers.I2c.Reading.{arrived, i2c_read-receives}
use sentinel_rtos.Drivers.I2c.Prompt.{IsPrompt, i2c_write-sends}

-- A bus that is busy while it is held, and answers at once.
abbrev slave_wire : Wire
slave_wire = record {
  shows = λ f ws n. elim f [ busy ↦ holds_bus ws | _ ↦ true ];
  received = λ ws n. 0x5a;
}

slave_wire-IsPrompt : IsPrompt slave_wire
slave_wire-IsPrompt = record {
  idle = λ ws n free. free;
  sb_set = λ ws n. refl;
  addr_set = λ ws n. refl;
  txe_set = λ ws n. refl;
  btf_set = λ ws n. refl;
}

slave_wire-ShowsBusy : ShowsBusy slave_wire
slave_wire-ShowsBusy ws n held = held

abbrev fresh_bus : I2c
fresh_bus = record { reads = 0; writes = [] }

i2c_write-sends_example :
    (b1 : I2c) × (i2c_write slave_wire 0x68 (1 ∷ 2 ∷ []) fresh_bus ≡ (some tt, b1))
    × (b1.writes
        ≡ stop
          ∷ sent slave_wire
              (1 ∷ 2 ∷ [])
              (data_byte (address_byte slave_wire 0x68 false) ∷ start ∷ []))
unfolding holds_bus
i2c_write-sends_example =
    i2c_write-sends slave_wire slave_wire-IsPrompt 0x68 (1 ∷ 2 ∷ []) fresh_bus refl

-- No slave is there: every flag stays clear.
abbrev dead_wire : Wire
dead_wire = record { shows = λ f ws n. false; received = λ ws n. 0 }

i2c_write-bounded_example :
    (i2c_write dead_wire 0x68 (1 ∷ 2 ∷ []) fresh_bus).1.reads
    ≤ 0 + ((length {A = ℕ} (1 ∷ 2 ∷ []) + 4) * i2c_timeout + 2)
i2c_write-bounded_example = i2c_write-bounded dead_wire 0x68 (1 ∷ 2 ∷ []) fresh_bus

i2c_read_reg-fails_example : (i2c_read_reg slave_wire 0x68 0x75 1 fresh_bus).0 ≡ none
i2c_read_reg-fails_example =
    i2c_read_reg-fails slave_wire 0x68 0x75 0 fresh_bus slave_wire-ShowsBusy

i2c_read-receives_example :
    let ws = data_byte (address_byte slave_wire 0x68 true) ∷ start ∷ ack ∷ [] in
    i2c_read slave_wire 0x68 (suc 2) fresh_bus ≡ (
      some (arrived slave_wire ws (0 + 5) 2),
      record { reads = 0 + 5 + 2 * (2 + 1); writes = stop ∷ nack ∷ ws },
    )
unfolding holds_bus
i2c_read-receives_example =
    i2c_read-receives slave_wire slave_wire-IsPrompt (λ ws n. refl) 0x68 2 fresh_bus refl
