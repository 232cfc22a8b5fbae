-- ===== src/Drivers/I2c/Prompt.antt =====
-- `i2c_write` of Drivers/Src/i2c.c on a bus that answers.
use sentinel_rtos.Base.{
  arith, ℕ, ◌+◌, ◌≡◌, refl, ◌∙◌, ap, subst, suc, Bool, true, false, not, Option, none, some, List,
  [], ◌∷◌,
}
use sentinel_rtos.Drivers.I2c.{
  Flag, busy, sb, addr, txe, btf, Write, start, stop, data_byte, Wire, I2c, Transfer, bind, pure,
  put, read_status, poll, wait_flag, wait_addr, address_byte, i2c_start, send_all, i2c_write,
  flag_is,
}
use sentinel_rtos.Drivers.I2c.Outcome.{OnSuccess, sent, holds_bus, i2c_write-writes}

-- A bus that is idle while nobody holds it, and answers every other wait at the first read.
pub record IsPrompt (wire : Wire) : Type 0 where
  pub idle : (ws : List Write) (n : ℕ) → holds_bus ws ≡ false → wire.shows busy ws n ≡ false
  pub sb_set : (ws : List Write) (n : ℕ) → wire.shows sb ws n ≡ true
  pub addr_set : (ws : List Write) (n : ℕ) → wire.shows addr ws n ≡ true
  pub txe_set : (ws : List Write) (n : ℕ) → wire.shows txe ws n ≡ true
  pub btf_set : (ws : List Write) (n : ℕ) → wire.shows btf ws n ≡ true

pub bind-some {ℓ κ} :
    {A : Type ℓ} {B : Type κ} (m : Transfer A) (f : A → Transfer B) {b b1 : I2c} {a : A}
    → m b ≡ (some a, b1)
    → bind m f b ≡ f a b1
unfolding bind
bind-some {B = B} m f e =
    ap (λ r. elim r.0 as (λ _. Option B × I2c) [ none ↦ (none, r.1) | some a ↦ f a r.1 ]) e

abbrev pub later : I2c → I2c
later b = record b { reads = b.reads + 1 }

abbrev with_write : Write → I2c → I2c
with_write w b = record b { writes = w ∷ b.writes }

module _ (wire : Wire) (prompt : IsPrompt wire) where
  polled_at_once :
      (f : Flag) (set : Bool) (n : ℕ) (b : I2c)
      → flag_is wire f set b ≡ true
      → poll wire f set (suc n) b ≡ (some tt, later b)
  unfolding poll
  polled_at_once f set n b h = rw h

  pub set_at_once :
      (f : Flag) (b : I2c)
      → ((ws : List Write) (n : ℕ) → wire.shows f ws n ≡ true)
      → wait_flag wire f true b ≡ (some tt, later b)
  unfolding wait_flag
  set_at_once f b h = polled_at_once f true 99999 b (h b.writes b.reads)

  pub idle_at_once :
      (b : I2c) → holds_bus b.writes ≡ false → wait_flag wire busy false b ≡ (some tt, later b)
  unfolding wait_flag
  idle_at_once b free =
      polled_at_once busy false 99999 b (ap not (prompt.idle b.writes b.reads free))

  answers_at_once : (b : I2c) → wait_addr wire b ≡ (some tt, later b)
  unfolding wait_addr
  answers_at_once b =
      ap
        (λ r. elim r.0 as (λ _. Option (Unit {0}) × I2c) [
          | none ↦ (none, record r.1 { writes = stop ∷ r.1.writes })
          | some a ↦ (some a, r.1)
        ])
        (set_at_once addr b prompt.addr_set)

  -- The bus after a start that a slave has answered.
  abbrev pub begun : ℕ → Bool → I2c → I2c
  begun slave reading b = record {
    reads = b.reads + 4;
    writes = data_byte (address_byte wire slave reading) ∷ start ∷ b.writes;
  }

  pub started :
      (slave : ℕ) (reading : Bool) (b : I2c)
      → i2c_start wire slave reading b ≡ (some tt, begun slave reading b)
  unfolding i2c_start put read_status
  started slave reading b =
      let b1 = with_write start b in
      let b2 = with_write (data_byte (address_byte wire slave reading)) (later b1) in
      bind-some (put start) _ refl
      ∙ bind-some (wait_flag wire sb true) _ (set_at_once sb b1 prompt.sb_set)
      ∙ bind-some (put (data_byte (address_byte wire slave reading))) _ refl
      ∙ bind-some (wait_addr wire) _ (answers_at_once b2)
      ∙ bind-some read_status _ refl
      ∙ ground arith

  all_sent : (bytes : List ℕ) (b : I2c) → (b1 : I2c) × (send_all wire bytes b ≡ (some tt, b1))
  unfolding send_all pure put
  all_sent [] b = (b, refl)
  all_sent (x ∷ bytes) b =
      let (b1, e) = all_sent bytes (with_write (data_byte x) (later b)) in
      (
        b1,
        bind-some (wait_flag wire txe true) _ (set_at_once txe b prompt.txe_set)
            ∙ bind-some (put (data_byte x)) _ refl
            ∙ e,
      )

  -- On a bus that nobody holds and that answers every wait at the first read, a write returns I2C_OK, and has put out a start, the address
  -- with the write bit, every byte in order, and a stop, and nothing else.
  pub i2c_write-sends :
      (slave : ℕ) (bytes : List ℕ) (b : I2c)
      → holds_bus b.writes ≡ false
      → (b1 : I2c) × (i2c_write wire slave bytes b ≡ (some tt, b1))
        × (b1.writes
            ≡ stop ∷ sent wire bytes (data_byte (address_byte wire slave false) ∷ start ∷ b.writes))
  unfolding i2c_write put
  i2c_write-sends slave bytes b free =
      let b1 = begun slave false (later b) in
      let (b2, e2) = all_sent bytes b1 in
      let returned : i2c_write wire slave bytes b ≡ (some tt, with_write stop (later b2)) =
        bind-some (wait_flag wire busy false) _ (idle_at_once b free)
        ∙ bind-some (i2c_start wire slave false) _ (started slave false (later b))
        ∙ bind-some (send_all wire bytes) _ e2
        ∙ bind-some (wait_flag wire btf true) _ (set_at_once btf b2 prompt.btf_set) in
      (
        with_write stop (later b2),
        returned,
        subst
            (λ r. OnSuccess {A = Unit {0}} r (λ _ b3.
              b3.writes
              ≡ stop
                ∷ sent wire bytes (data_byte (address_byte wire slave false) ∷ start ∷ b.writes)))
            returned (i2c_write-writes wire slave bytes b),
      )
