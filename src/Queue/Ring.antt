-- ===== src/Queue/Ring.antt =====
-- The ring of Kernel/os_queue.c holds a list: writing at the head appends, and skipping the tail
-- drops the oldest.
use native.Mathlib.Nat.{add-zero, zero-add, add_comm, mod-eq_of_lt, mod-eq-sub-mod, mod-add-mod}
use mathlib.Core.Path.{ap₂}
use sentinel_rtos.Base.{
  ℕ, suc, ◌+◌, ◌-◌, ◌*◌, ◌%◌, ◌<◌, ◌≡◌, ◌≢◌, refl, ap, ◌∙◌, List, [], ◌∷◌, ◌++◌, ltb, if◌then◌else◌,
  update, elements, elements-ext, elements-snoc, dec_lt, arith,
}

-- The `n` messages from slot `tail` on, going round at `capacity`, of the buffer at `buffer`.
abbrev pub ring : (ℕ → ℕ) → ℕ → ℕ → ℕ → ℕ → List ℕ
ring memory buffer capacity tail n =
    elements (λ i. memory (buffer + 4 * ((tail + i) % capacity))) 0 n

-- A step round the ring, without a remainder.
round_step :
    (capacity tail i : ℕ)
    → tail < capacity
    → i < capacity
    → (tail + i) % capacity ≡ (if ltb (tail + i) capacity then tail + i else tail + i - capacity)
round_step capacity tail i ht hi = elim (dec_lt (tail + i) capacity) [
  | yes p ↦ ground (arith, mod-eq_of_lt p)
  | no p ↦ ground (
    arith,
    mod-eq-sub-mod {n = tail + i} {m = capacity} (omega arith),
    mod-eq_of_lt {n = tail + i - capacity} {m = capacity} (omega arith),
  )
]

-- Different places in the ring are different slots.
round_distinct :
    (capacity tail i j : ℕ)
    → tail < capacity
    → i < j
    → j < capacity
    → (tail + i) % capacity ≢ (tail + j) % capacity
round_distinct capacity tail i j ht hi hj e =
    ground (arith, round_step capacity tail i, round_step capacity tail j)

pub round_next :
    (capacity tail i : ℕ) → ((tail + 1) % capacity + i) % capacity ≡ (tail + (i + 1)) % capacity
round_next capacity tail i = rw mod-add-mod (ap (λ x. x % capacity) (omega arith))

-- A write just behind the messages appends one.
pub ring-append :
    (memory : ℕ → ℕ) (buffer capacity tail n message : ℕ)
    → tail < capacity
    → n < capacity
    → ring
        (update memory (buffer + 4 * ((tail + n) % capacity)) message)
        buffer
        capacity
        tail
        (n + 1)
      ≡ ring memory buffer capacity tail n ++ (message ∷ [])
ring-append memory buffer capacity tail n message ht hn =
    elements-snoc written 0 n ∙ ap₂ ◌++◌ same (ap (λ m. m ∷ []) last)
  where
    written : ℕ → ℕ
    written i =
        update memory (buffer + 4 * ((tail + n) % capacity)) message
          (buffer + 4 * ((tail + i) % capacity))

    same : elements written 0 n ≡ ring memory buffer capacity tail n
    same =
        elements-ext written (λ i. memory (buffer + 4 * ((tail + i) % capacity))) 0 0 n
          (λ i lt. ground (arith, zero-add i, round_distinct capacity tail i n))

    last : written (0 + n) ≡ message
    last = ground (arith, zero-add n)

-- The oldest message, and the ring without it.
pub ring-rest :
    (memory : ℕ → ℕ) (buffer capacity tail n : ℕ)
    → tail < capacity
    → ring memory buffer capacity tail (suc n)
      ≡ memory (buffer + 4 * tail) ∷ ring memory buffer capacity ((tail + 1) % capacity) n
ring-rest memory buffer capacity tail n ht = ap₂ ◌∷◌ oldest others
  where
    oldest : memory (buffer + 4 * ((tail + 0) % capacity)) ≡ memory (buffer + 4 * tail)
    oldest = rw (add-zero, mod-eq_of_lt ht) refl

    others :
        elements (λ i. memory (buffer + 4 * ((tail + i) % capacity))) 1 n
        ≡ ring memory buffer capacity ((tail + 1) % capacity) n
    others =
        elements-ext (λ i. memory (buffer + 4 * ((tail + i) % capacity)))
          (λ i. memory (buffer + 4 * (((tail + 1) % capacity + i) % capacity))) 1 0 n
          (λ i lt. rw (zero-add, round_next capacity tail i, add_comm 1 i))

-- The slot behind the messages moves on by one, and 32 bits are enough for it.
pub next_behind :
    (modulus capacity tail n : ℕ)
    → 0 < capacity
    → capacity < modulus
    → ((tail + n) % capacity + 1) % modulus % capacity ≡ (tail + (n + 1)) % capacity
next_behind modulus capacity tail n hc hm =
    rw (mod-eq_of_lt {n = (tail + n) % capacity + 1} {m = modulus} (omega arith))
      (rw mod-add-mod (ap (λ x. x % capacity) (omega arith)))

-- Once round the ring.
pub full_round : (capacity tail : ℕ) → tail < capacity → (tail + capacity) % capacity ≡ tail
full_round capacity tail h = grind arith

pub next_in_range :
    (modulus capacity tail : ℕ)
    → tail < capacity
    → capacity < modulus
    → (tail + 1) % modulus % capacity ≡ (tail + 1) % capacity
next_in_range modulus capacity tail h hm =
    rw (mod-eq_of_lt {n = tail + 1} {m = modulus} (omega arith))

-- The slot of the oldest message of a full ring is the last one behind its successor.
pub last_of_full :
    (capacity tail n : ℕ)
    → tail < capacity
    → n + 1 ≡ capacity
    → ((tail + 1) % capacity + n) % capacity ≡ tail
last_of_full capacity tail n h e =
    round_next capacity tail n ∙ ap (λ m. (tail + m) % capacity) e ∙ full_round capacity tail h
