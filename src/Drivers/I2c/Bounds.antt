-- ===== src/Drivers/I2c/Bounds.antt =====
-- The number of register reads that a write of Drivers/Src/i2c.c makes.
use sentinel_rtos.Base.{
  ℕ, zero, suc, ◌+◌, ◌*◌, ◌≤◌, Bool, true, false, inl, inr, Option, none, some, List, [], ◌∷◌,
  length, Bool-cases, arith,
}
use sentinel_rtos.Drivers.I2c.{
  Flag, busy, sb, addr, txe, btf, Write, start, stop, data_byte, Wire, I2c, Transfer, bind, ◌>>◌,
  pure, put, read_status, flag_is, poll, wait_flag, wait_addr, address_byte, i2c_start, send_all,
  i2c_write, i2c_timeout,
}

-- At most `n` reads, whatever the outcome.
abbrev Within {ℓ} : {A : Type ℓ} → Transfer A → ℕ → Type 0
Within m n = (b : I2c) → (m b).1.reads ≤ b.reads + n

Within-step {ℓ κ} :
    {A : Type ℓ} {B : Type κ} (r : Option A × I2c) (f : A → Transfer B) (n : ℕ)
    → ((a : A) → Within (f a) n)
    → (elim r.0 as (λ _. Option B × I2c) [ none ↦ (none, r.1) | some a ↦ f a r.1 ]).1.reads
      ≤ r.1.reads + n
Within-step (none, b) f n h = omega arith
Within-step (some a, b) f n h = h a b

Within-bind {ℓ κ} :
    {A : Type ℓ} {B : Type κ} (m : Transfer A) (f : A → Transfer B) (i j : ℕ)
    → Within m i
    → ((a : A) → Within (f a) j)
    → Within (bind m f) (i + j)
unfolding bind
Within-bind m f i j first then_rest b = omega (arith, first b, Within-step (m b) f j then_rest)

module _ (wire : Wire) where
  Within-poll : (f : Flag) (set : Bool) (n : ℕ) → Within (poll wire f set n) n
  unfolding poll
  Within-poll f set zero b = omega arith
  Within-poll f set (suc n) b = elim (Bool-cases (flag_is wire f set b)) [
    | inl e ↦ rw e (omega arith)
    | inr e ↦ rw e (omega (arith, Within-poll f set n (record b { reads = b.reads + 1 })))
  ]

  Within-wait_flag : (f : Flag) (set : Bool) → Within (wait_flag wire f set) i2c_timeout
  unfolding wait_flag
  Within-wait_flag f set = Within-poll f set i2c_timeout

  Within-put : (w : Write) → Within (put w) 0
  unfolding put
  Within-put w b = omega arith

  Within-read_status : Within read_status 1
  unfolding read_status
  Within-read_status b = omega arith

  given_up :
      (r : Option (Unit {0}) × I2c)
      → (elim r.0 as (λ _. Option (Unit {0}) × I2c) [
        | none ↦ (none, record r.1 { writes = stop ∷ r.1.writes })
        | some a ↦ (some a, r.1)
      ]).1.reads
        ≤ r.1.reads
  given_up (none, b) = omega arith
  given_up (some a, b) = omega arith

  Within-wait_addr : Within (wait_addr wire) i2c_timeout
  unfolding wait_addr
  Within-wait_addr b =
      omega (arith, given_up (wait_flag wire addr true b), Within-wait_flag addr true b)

  Within-then {ℓ} :
      {B : Type ℓ} (m : Transfer (Unit {0})) (n : Transfer B) (i j k : ℕ)
      → Within m i
      → Within n j
      → i + j ≤ k
      → Within (m >> n) k
  Within-then m n i j k first second le b =
      omega (arith, Within-bind m (λ _. n) i j first (λ _. second) b)

  Within-i2c_start :
      (slave : ℕ) (reading : Bool) → Within (i2c_start wire slave reading) (2 * i2c_timeout + 2)
  unfolding i2c_start
  Within-i2c_start slave reading =
      Within-then (put start) _ 0 (2 * i2c_timeout + 2) _ (Within-put start)
        (Within-then (wait_flag wire sb true) _ i2c_timeout (i2c_timeout + 2) _
          (Within-wait_flag sb true)
          (Within-then (put (data_byte (address_byte wire slave reading))) _ 0 (i2c_timeout + 2) _
            (Within-put (data_byte (address_byte wire slave reading)))
            (Within-then (wait_addr wire) _ i2c_timeout 2 _ Within-wait_addr
              (Within-then read_status read_status 1 1 _ Within-read_status Within-read_status
                (omega arith))
              (omega arith))
            (omega arith))
          (omega arith))
        (omega arith)

  Within-send_all : (bytes : List ℕ) → Within (send_all wire bytes) (length bytes * i2c_timeout)
  unfolding send_all pure
  Within-send_all [] b = omega arith
  Within-send_all (x ∷ bytes) b =
      Within-then (wait_flag wire txe true) _ i2c_timeout (length bytes * i2c_timeout)
        (length (x ∷ bytes) * i2c_timeout) (Within-wait_flag txe true)
        (Within-then (put (data_byte x)) _ 0 (length bytes * i2c_timeout) _
          (Within-put (data_byte x)) (Within-send_all bytes) (omega arith))
        (omega arith) b

  -- A write ends on every bus, whether stuck or not, after at most `len + 4` spin budgets and two reads.
  pub i2c_write-bounded :
      (slave : ℕ) (bytes : List ℕ) (b : I2c)
      → (i2c_write wire slave bytes b).1.reads ≤ b.reads + ((length bytes + 4) * i2c_timeout + 2)
  unfolding i2c_write
  i2c_write-bounded slave bytes =
      Within-then (wait_flag wire busy false) _ i2c_timeout ((length bytes + 3) * i2c_timeout + 2) _
        (Within-wait_flag busy false)
        (Within-then (i2c_start wire slave false) _ (2 * i2c_timeout + 2)
          ((length bytes + 1) * i2c_timeout) _ (Within-i2c_start slave false)
          (Within-then (send_all wire bytes) _ (length bytes * i2c_timeout) i2c_timeout _
            (Within-send_all bytes)
            (Within-then (wait_flag wire btf true) (put stop) i2c_timeout 0 _
              (Within-wait_flag btf true) (Within-put stop) (omega arith))
            (omega arith))
          (omega arith))
        (omega arith)
