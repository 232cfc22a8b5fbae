-- ===== src/Drivers/I2c/Outcome.antt =====
-- What the transfers of Drivers/Src/i2c.c have written when they succeed.
use sentinel_rtos.Base.{
  ℕ, zero, suc, ◌+◌, ◌≡◌, refl, ◌∙◌, ap, Bool, true, false, inl, inr, Option, none, some, List, [],
  ◌∷◌, Bool-cases,
}
use sentinel_rtos.Drivers.I2c.{
  Flag, busy, sb, addr, txe, btf, Write, start, stop, ack, nack, data_byte, Wire, I2c, Transfer,
  bind, ◌>>◌, pure, put, read_status, flag_is, poll, wait_flag, wait_addr, address_byte, i2c_start,
  send_all, i2c_write, read_some, i2c_read, i2c_read_reg, i2c_timeout,
}

-- `Q` holds if the transfer succeeds.
abbrev pub OnSuccess {ℓ} : {A : Type ℓ} → Option A × I2c → (A → I2c → Type 0) → Type 0
OnSuccess (none, b) Q = Unit
OnSuccess (some a, b) Q = Q a b

goes_on {ℓ κ} :
    {A : Type ℓ} {B : Type κ} (r : Option A × I2c) (f : A → Transfer B) (Q : B → I2c → Type 0)
    → OnSuccess r (λ a b. OnSuccess (f a b) Q)
    → OnSuccess (elim r.0 [ none ↦ (none, r.1) | some a ↦ f a r.1 ]) Q
goes_on (none, b) f Q h = tt
goes_on (some a, b) f Q h = h

OnSuccess-bind {ℓ κ} :
    {A : Type ℓ} {B : Type κ} (m : Transfer A) (f : A → Transfer B) (b : I2c) (Q : B → I2c → Type 0)
    → OnSuccess (m b) (λ a b1. OnSuccess (f a b1) Q)
    → OnSuccess (bind m f b) Q
unfolding bind
OnSuccess-bind m f b Q h = goes_on (m b) f Q h

module _ (wire : Wire) where
  -- Waiting writes nothing.
  poll_writes :
      (f : Flag) (set : Bool) (n : ℕ) (b : I2c) (Q : I2c → Type 0)
      → ((b1 : I2c) → b1.writes ≡ b.writes → Q b1)
      → OnSuccess (poll wire f set n b) (λ _ b1. Q b1)
  unfolding poll
  poll_writes f set zero b Q h = tt
  poll_writes f set (suc n) b Q h = elim (Bool-cases (flag_is wire f set b)) [
    | inl e ↦ rw e (h (record b { reads = b.reads + 1 }) refl)
    | inr e ↦ rw e (poll_writes f set n (record b { reads = b.reads + 1 }) Q h)
  ]

  after_wait {ℓ} :
      {A : Type ℓ} (f : Flag) (set : Bool) (rest : Transfer A) (b : I2c) (Q : A → I2c → Type 0)
      → ((b1 : I2c) → b1.writes ≡ b.writes → OnSuccess (rest b1) Q)
      → OnSuccess (bind (wait_flag wire f set) (λ _. rest) b) Q
  unfolding wait_flag
  after_wait f set rest b Q h =
      OnSuccess-bind (wait_flag wire f set) (λ _. rest) b Q
        (poll_writes f set i2c_timeout b (λ b1. OnSuccess (rest b1) Q) h)

  after_put {ℓ} :
      {A : Type ℓ} (w : Write) (rest : Transfer A) (b : I2c) (Q : A → I2c → Type 0)
      → OnSuccess (rest (record b { writes = w ∷ b.writes })) Q
      → OnSuccess (bind (put w) (λ _. rest) b) Q
  unfolding put bind
  after_put w rest b Q h = h

  answered :
      (r : Option (Unit {0}) × I2c) (Q : I2c → Type 0)
      → OnSuccess r (λ _ b. Q b)
      → OnSuccess {A = Unit {0}}
          (elim r.0 [
            | none ↦ (none, record r.1 { writes = stop ∷ r.1.writes })
            | some a ↦ (some a, r.1)
          ])
          (λ _ b. Q b)
  answered (none, b) Q h = tt
  answered (some a, b) Q h = h

  after_addr {ℓ} :
      {A : Type ℓ} (rest : Transfer A) (b : I2c) (Q : A → I2c → Type 0)
      → ((b1 : I2c) → b1.writes ≡ b.writes → OnSuccess (rest b1) Q)
      → OnSuccess (bind (wait_addr wire) (λ _. rest) b) Q
  unfolding wait_addr wait_flag
  after_addr rest b Q h =
      OnSuccess-bind (wait_addr wire) (λ _. rest) b Q
        (answered (wait_flag wire addr true b) (λ b1. OnSuccess (rest b1) Q)
          (poll_writes addr true i2c_timeout b (λ b1. OnSuccess (rest b1) Q) h))

  two_reads :
      (b : I2c) (Q : I2c → Type 0)
      → ((b1 : I2c) → b1.writes ≡ b.writes → Q b1)
      → OnSuccess ((read_status >> read_status) b) (λ _ b1. Q b1)
  unfolding read_status bind
  two_reads b Q h = h (record b { reads = b.reads + 1 + 1 }) refl

  after_start {ℓ} :
      {A : Type ℓ} (slave : ℕ) (reading : Bool) (rest : Transfer A) (b : I2c) (Q : A → I2c → Type 0)
      → ((b1 : I2c)
          → b1.writes ≡ data_byte (address_byte wire slave reading) ∷ start ∷ b.writes
          → OnSuccess (rest b1) Q)
      → OnSuccess (bind (i2c_start wire slave reading) (λ _. rest) b) Q
  unfolding i2c_start
  after_start slave reading rest b Q h =
      let R : I2c → Type 0 = λ b1. OnSuccess (rest b1) Q in
      OnSuccess-bind (i2c_start wire slave reading) (λ _. rest) b Q
        (after_put start _ b (λ _ b1. R b1)
          (after_wait sb true _ _ (λ _ b1. R b1)
            (λ b1 e1.
              after_put (data_byte (address_byte wire slave reading)) _ b1 (λ _ b2. R b2)
                (after_addr _ _ (λ _ b2. R b2)
                  (λ b2 e2. two_reads b2 R (λ b3 e3.
                    h b3
                      (e3 ∙ e2 ∙ ap (λ l. data_byte (address_byte wire slave reading) ∷ l) e1)))))))

  -- The bytes as written, the last one first.
  unfoldable pub sent : List ℕ → List Write → List Write
  sent [] ws = ws
  sent (x ∷ bytes) ws = sent bytes (data_byte x ∷ ws)

  sends :
      (bytes : List ℕ) (b : I2c) (R : I2c → Type 0)
      → ((b1 : I2c) → b1.writes ≡ sent bytes b.writes → R b1)
      → OnSuccess (send_all wire bytes b) (λ _ b1. R b1)
  unfolding send_all sent pure
  sends [] b R h = h b refl
  sends (x ∷ bytes) b R h =
      after_wait txe true _ b (λ _ b1. R b1)
        (λ b1 e1.
          after_put (data_byte x) _ b1 (λ _ b2. R b2)
            (sends bytes (record b1 { writes = data_byte x ∷ b1.writes }) R
              (λ b2 e2. h b2 (e2 ∙ ap (λ l. sent bytes (data_byte x ∷ l)) e1))))

  after_send {ℓ} :
      {A : Type ℓ} (bytes : List ℕ) (rest : Transfer A) (b : I2c) (Q : A → I2c → Type 0)
      → ((b1 : I2c) → b1.writes ≡ sent bytes b.writes → OnSuccess (rest b1) Q)
      → OnSuccess (bind (send_all wire bytes) (λ _. rest) b) Q
  after_send bytes rest b Q h =
      OnSuccess-bind (send_all wire bytes) (λ _. rest) b Q
        (sends bytes b (λ b1. OnSuccess (rest b1) Q) h)

  -- A write that returns I2C_OK has put out a start, the address with the write bit, every byte in
  -- order, and a stop, and nothing else.
  pub i2c_write-writes :
      (slave : ℕ) (bytes : List ℕ) (b : I2c)
      → OnSuccess (i2c_write wire slave bytes b) (λ _ b1.
        b1.writes
        ≡ stop ∷ sent bytes (data_byte (address_byte wire slave false) ∷ start ∷ b.writes))
  unfolding i2c_write put
  i2c_write-writes slave bytes b = after_wait busy false _ b _ (λ b1 e1.
      after_start slave false _ b1 _ (λ b2 e2. after_send bytes _ b2 _ (λ b3 e3.
        after_wait btf true _ b3 _ (λ b4 e4.
          ap (λ l. stop ∷ l)
            (e4
              ∙ e3
              ∙ ap (sent bytes)
                  (e2 ∙ ap (λ l. data_byte (address_byte wire slave false) ∷ start ∷ l) e1))))))

-- Whether the bus is held: the last START comes after the last STOP.
unfoldable pub holds_bus : List Write → Bool
holds_bus [] = false
holds_bus (start ∷ ws) = true
holds_bus (stop ∷ ws) = false
holds_bus (ack ∷ ws) = holds_bus ws
holds_bus (nack ∷ ws) = holds_bus ws
holds_bus (data_byte x ∷ ws) = holds_bus ws

-- The hardware shows BUSY from a START to the next STOP.
abbrev pub ShowsBusy : Wire → Type 0
ShowsBusy wire = (ws : List Write) (n : ℕ) → holds_bus ws ≡ true → wire.shows busy ws n ≡ true

never_idle :
    (wire : Wire) (n : ℕ) (b : I2c)
    → ShowsBusy wire
    → holds_bus b.writes ≡ true
    → (poll wire busy false n b).0 ≡ none
unfolding poll
never_idle wire zero b shows held = refl
never_idle wire (suc n) b shows held =
    rw (shows b.writes b.reads held)
      (never_idle wire n (record b { reads = b.reads + 1 }) shows held)

vacuous {ℓ} : {A : Type ℓ} (r : Option A × I2c) (Q : A → I2c → Type 0) → r.0 ≡ none → OnSuccess r Q
vacuous (none, b) Q e = tt
vacuous (some a, b) Q e = cc

never {ℓ} : {A : Type ℓ} (r : Option A × I2c) → OnSuccess r (λ _ _. ⊥) → r.0 ≡ none
never (none, b) h = refl
never (some a, b) h = absurd h

read_fails :
    (wire : Wire) (slave n : ℕ) (b : I2c)
    → ShowsBusy wire
    → holds_bus b.writes ≡ true
    → OnSuccess (i2c_read wire slave (suc n) b) (λ _ _. ⊥)
unfolding i2c_read read_some wait_flag
read_fails wire slave n b shows held =
    OnSuccess-bind (wait_flag wire busy false) _ b _
      (vacuous (wait_flag wire busy false b) _ (never_idle wire i2c_timeout b shows held))

-- On hardware that shows BUSY while the bus is held, the read of one or more bytes from a register
-- never succeeds: it keeps the bus after the register's number, and the read that follows waits for
-- the bus to be free.
pub i2c_read_reg-fails :
    (wire : Wire) (slave reg n : ℕ) (b : I2c)
    → ShowsBusy wire
    → (i2c_read_reg wire slave reg (suc n) b).0 ≡ none
unfolding i2c_read_reg holds_bus
i2c_read_reg-fails wire slave reg n b shows = never (i2c_read_reg wire slave reg (suc n) b) (
    after_wait wire busy false _ b _ (λ b1 e1. after_start wire slave false _ b1 _ (λ b2 e2.
      after_wait wire txe true _ b2 _ (λ b3 e3. after_put wire (data_byte reg) _ b3 _ (
        after_wait wire btf true _ _ _ (λ b4 e4.
          read_fails wire slave n b4 shows
            (ap holds_bus (e4 ∙ ap (λ l. data_byte reg ∷ l) (e3 ∙ e2)))))))))
