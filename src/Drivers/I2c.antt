-- ===== src/Drivers/I2c.antt =====
-- The I2C transfers of Drivers/Src/i2c.c. The bus is hardware: what its registers show is a parameter,
-- and what the code writes to them is kept in order.
pub mod Outcome
pub mod Bounds
pub mod Prompt
pub mod Reading
use sentinel_rtos.Base.{
  ℕ, zero, suc, ◌+◌, ◌*◌, ◌%◌, ◌^◌, Bool, true, false, not, Option, none, some, List, [], ◌∷◌, ◌==◌,
  if◌then◌else◌,
}

-- I2C_TIMEOUT.
abbrev pub i2c_timeout : ℕ
i2c_timeout = 100000

-- The flags that the code waits for: BUSY stands in SR2, the others in SR1.
pub data Flag : Type 0 where
  busy sb addr txe btf rxne : Flag

-- What is written: START or STOP in CR1, ACK set or cleared there, or a byte to DR.
pub data Write : Type 0 where
  start stop ack nack : Write
  data_byte : ℕ → Write

-- What the hardware shows: a flag, after these writes, at the n-th read; and what DR then holds.
pub record Wire : Type 0 where
  pub shows : Flag → List Write → ℕ → Bool
  pub received : List Write → ℕ → ℕ

-- The reads so far, and the writes, the last one first.
pub record I2c : Type 0 where
  pub reads : ℕ
  pub writes : List Write

-- Code on the bus. None is the return of I2C_ERROR.
abbrev pub Transfer {ℓ} : Type ℓ → Type ℓ
Transfer A = I2c → Option A × I2c

unfoldable pub bind {ℓ κ} : {A : Type ℓ} {B : Type κ} → Transfer A → (A → Transfer B) → Transfer B
bind m f b = elim (m b).0 [ none ↦ (none, (m b).1) | some a ↦ f a (m b).1 ]

infixl 5 ◌>>=◌ ◌>>◌
abbrev pub ◌>>=◌ {ℓ κ} : {A : Type ℓ} {B : Type κ} → Transfer A → (A → Transfer B) → Transfer B
m >>= f = bind m f

abbrev pub ◌>>◌ {ℓ} : {B : Type ℓ} → Transfer (Unit {0}) → Transfer B → Transfer B
m >> n = bind m (λ _. n)

unfoldable pub pure {ℓ} : {A : Type ℓ} → A → Transfer A
pure a b = (some a, b)

unfoldable pub put : Write → Transfer (Unit {0})
put w b = (some tt, record b { writes = w ∷ b.writes })

-- A read for its effect on the hardware.
unfoldable pub read_status : Transfer (Unit {0})
read_status b = (some tt, record b { reads = b.reads + 1 })

module _ (wire : Wire) where
  -- `((*reg & mask) != 0) == set`.
  abbrev pub flag_is : Flag → Bool → I2c → Bool
  flag_is f set b =
      if set then wire.shows f b.writes b.reads else not (wire.shows f b.writes b.reads)

  -- The loop of `wait_flag`, with `n` rounds left.
  unfoldable pub poll : Flag → Bool → ℕ → Transfer (Unit {0})
  poll f set zero b = (none, b)
  poll f set (suc n) b =
      let later = poll f set n (record b { reads = b.reads + 1 }) in
      if flag_is f set b then (some tt, record b { reads = b.reads + 1 }) else later

  unfoldable pub wait_flag : Flag → Bool → Transfer (Unit {0})
  wait_flag f set = poll f set i2c_timeout

  -- The wait for ADDR, which releases the bus when no slave answers.
  unfoldable pub wait_addr : Transfer (Unit {0})
  wait_addr b =
      let (r, b1) = wait_flag addr true b in
      elim r [ none ↦ (none, record b1 { writes = stop ∷ b1.writes }) | some a ↦ (some a, b1) ]

  -- `(addr << 1) | (reading ? 1U : 0U)` as a byte.
  abbrev pub address_byte : ℕ → Bool → ℕ
  address_byte slave reading = (slave * 2 + (if reading then 1 else 0)) % 2 ^ 8

  unfoldable pub i2c_start : ℕ → Bool → Transfer (Unit {0})
  i2c_start slave reading = do
    put start
    wait_flag sb true
    put (data_byte (address_byte slave reading))
    wait_addr
    read_status
    read_status

  -- The loop of `i2c_write`.
  unfoldable pub send_all : List ℕ → Transfer (Unit {0})
  send_all [] = pure tt
  send_all (x ∷ bytes) = do wait_flag txe true; put (data_byte x); send_all bytes

  unfoldable pub i2c_write : ℕ → List ℕ → Transfer (Unit {0})
  i2c_write slave bytes = do
    wait_flag busy false
    i2c_start slave false
    send_all bytes
    wait_flag btf true
    put stop

  -- `(uint8_t)I2C1->DR`.
  unfoldable pub read_data : Transfer ℕ
  read_data b = (some (wire.received b.writes b.reads % 2 ^ 8), record b { reads = b.reads + 1 })

  -- NACK and STOP before the last byte.
  unfoldable pub end_before : ℕ → Transfer (Unit {0})
  end_before zero = do put nack; put stop
  end_before (suc n) = pure tt

  -- The loop of `i2c_read`, with `n` bytes left. What an error leaves in the buffer is dropped.
  unfoldable pub receive_all : ℕ → Transfer (List ℕ)
  receive_all zero = pure []
  receive_all (suc n) = do
    end_before n
    wait_flag rxne true
    x ← read_data
    bytes ← receive_all n
    pure (x ∷ bytes)

  -- `i2c_read` where `len` is not 0.
  unfoldable pub read_some : ℕ → ℕ → Transfer (List ℕ)
  read_some slave len = do wait_flag busy false; put ack; i2c_start slave true; receive_all len

  unfoldable pub i2c_read : ℕ → ℕ → Transfer (List ℕ)
  i2c_read slave zero = pure []
  i2c_read slave (suc n) = read_some slave (suc n)

  unfoldable pub i2c_read_reg : ℕ → ℕ → ℕ → Transfer (List ℕ)
  i2c_read_reg slave reg len = do
    wait_flag busy false
    i2c_start slave false
    wait_flag txe true
    put (data_byte reg)
    wait_flag btf true
    i2c_read slave len
