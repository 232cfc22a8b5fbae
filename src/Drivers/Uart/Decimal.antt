-- ===== src/Drivers/Uart/Decimal.antt =====
-- The digits of `uart_print_number` of Drivers/Src/uart.c.
use native.Mathlib.Nat.{mod-eq_of_lt}
use mathlib.Core.List.{append_assoc, append-nil}
use sentinel_rtos.Base.{
  ℕ, zero, suc, ◌+◌, ◌-◌, ◌*◌, ◌/◌, ◌%◌, ◌^◌, ◌<◌, ◌≤◌, ◌≡◌, refl, ◌∙◌, ap, sym, true, false, inl,
  inr, List, [], ◌∷◌, ◌++◌, ◌==◌, update, length, arith, Bool-cases,
}
use sentinel_rtos.Base.All.{All, All-map}
use sentinel_rtos.Drivers.Uart.{
  Usart, uart_write, io_putchar, uart_print, fill, drain, characters, uart_print_number,
}

-- The number that decimal digits after `num` write.
unfoldable pub read_on : ℕ → List ℕ → ℕ
read_on num [] = num
read_on num (ch ∷ str) = read_on (num * 10 + (ch - 48)) str

drain-update_past :
    (buffer : ℕ → ℕ) (i j ch : ℕ) → i ≤ j → drain (update buffer j ch) i ≡ drain buffer i
unfolding drain
drain-update_past buffer zero j ch h = refl
drain-update_past buffer (suc i) j ch h = ground (arith, drain-update_past buffer i j ch)

drain-update_next :
    (buffer : ℕ → ℕ) (i ch : ℕ) → drain (update buffer i ch) (i + 1) ≡ ch ∷ drain buffer i
unfolding drain
drain-update_next buffer i ch =
    let next : i + 1 ≡ suc i = omega arith in
    rw next (ground (arith, drain-update_past buffer i i ch))

-- The digits written so far follow those still to come.
read_on-fill :
    (fuel num : ℕ) (buffer : ℕ → ℕ) (i : ℕ)
    → num < 10 ^ fuel
    → let (n, filled) = fill fuel num buffer i in
      read_on 0 (drain filled n) ≡ read_on num (drain buffer i)
unfolding fill drain read_on
read_on-fill zero num buffer i h = ground arith
read_on-fill (suc fuel) num buffer i h = elim (Bool-cases (num == 0)) [
  | inl e ↦ rw e (ground arith)
  | inr e ↦
      let rest =
        read_on-fill fuel (num / 10) (update buffer i (48 + num % 10)) (i + 1) (omega arith) in
      rw e (rest ∙ next_digit e)
]
  where
    next_digit :
        (num == 0) ≡ false
        → read_on (num / 10) (drain (update buffer i (48 + num % 10)) (i + 1))
          ≡ read_on num (drain buffer i)
    next_digit e =
        rw (drain-update_next buffer i (48 + num % 10))
          (ap (λ n. read_on n (drain buffer i)) (ground arith))

-- The buffer is never written past its tenth byte, and holds digits.
fill-range :
    (fuel num : ℕ) (buffer : ℕ → ℕ) (i : ℕ)
    → let (n, filled) = fill fuel num buffer i in (i ≤ n) × (n ≤ i + fuel)
unfolding fill
fill-range zero num buffer i = ground arith
fill-range (suc fuel) num buffer i =
    ground (arith, fill-range fuel (num / 10) (update buffer i (48 + num % 10)) (i + 1))

abbrev pub IsDigit : ℕ → Type 0
IsDigit ch = (48 ≤ ch) × (ch ≤ 57)

fill-digits :
    (fuel num : ℕ) (buffer : ℕ → ℕ) (i : ℕ)
    → All IsDigit (drain buffer i)
    → let (n, filled) = fill fuel num buffer i in All IsDigit (drain filled n)
unfolding fill drain
fill-digits zero num buffer i h = h
fill-digits (suc fuel) num buffer i h = elim (Bool-cases (num == 0)) [
  | inl e ↦ rw e h
  | inr e ↦ rw e (
      fill-digits fuel (num / 10) (update buffer i (48 + num % 10)) (i + 1)
        (rw (drain-update_next buffer i (48 + num % 10)) ((omega arith, omega arith), h)))
]

length-drain : (buffer : ℕ → ℕ) (i : ℕ) → length (drain buffer i) ≡ i
unfolding drain
length-drain buffer zero = refl
length-drain buffer (suc i) = ground (arith, length-drain buffer i)

-- An enabled transmitter gets every character of a string of bytes.
written-uart_print :
    (str : List ℕ) (u : Usart)
    → u.enabled ≡ true
    → All (λ ch. ch < 256) str
    → (uart_print str u).written ≡ u.written ++ str
unfolding uart_print io_putchar uart_write
written-uart_print [] u on h = sym (append-nil u.written)
written-uart_print (ch ∷ str) u on (byte, h) =
    written-uart_print str (io_putchar ch u).1 (ground arith) h
    ∙ rw (on, mod-eq_of_lt byte) (append_assoc u.written (ch ∷ []) str)

characters-bytes : (str : List ℕ) → All IsDigit str → All (λ ch. ch < 256) str
characters-bytes str h = All-map _ _ str (λ ch d. omega (arith, d)) h

characters-digits : (num : ℕ) → All IsDigit (characters num)
unfolding characters drain
characters-digits num = elim (Bool-cases (num == 0)) [
  | inl e ↦ rw e ((omega arith, omega arith), tt)
  | inr e ↦ rw e (fill-digits 10 num (λ j. 0) 0 tt)
]

characters-read : (num : ℕ) → num < 2 ^ 32 → read_on 0 (characters num) ≡ num
unfolding characters read_on drain
characters-read num h = elim (Bool-cases (num == 0)) [
  | inl e ↦ rw e (ground arith)
  | inr e ↦ rw e (read_on-fill 10 num (λ j. 0) 0 (omega arith))
]

characters-few : (num : ℕ) → length (characters num) ≤ 10
unfolding characters
characters-few num = elim (Bool-cases (num == 0)) [
  | inl e ↦ rw e (omega arith)
  | inr e ↦
      let (n, filled) = fill 10 num (λ j. 0) 0 in
      rw (e, length-drain filled n) ((fill-range 10 num (λ j. 0) 0).1)
]

-- On an enabled transmitter `uart_print_number` writes, for every 32-bit number, a string of at most
-- ten digits that reads as the number in decimal.
pub uart_print_number-decimal :
    (num : ℕ) (u : Usart)
    → num < 2 ^ 32
    → u.enabled ≡ true
    → (str : List ℕ) × ((uart_print_number num u).written ≡ u.written ++ str)
      × All IsDigit str
      × (length str ≤ 10)
      × (read_on 0 str ≡ num)
unfolding uart_print_number
uart_print_number-decimal num u small on = (
  characters num,
  written-uart_print (characters num) u on
      (characters-bytes (characters num) (characters-digits num)),
  characters-digits num,
  characters-few num,
  characters-read num small,
)
