-- ===== src/Drivers/Registers.antt =====
-- 32-bit registers as words of bits, with the operators that the drivers apply to them, and the
-- registers of the GPIO ports and of the clock control.
use sentinel_rtos.Base.{
  ℕ, zero, suc, ◌+◌, ◌-◌, ◌/◌, ◌%◌, ◌<◌, ◌≤◌, ◌≡◌, refl, ◌∙◌, Bool, false, not, ◌&&◌, ◌||◌, ◌==◌,
  ltb, leb, if◌then◌else◌, arith,
}

-- Bit `i` is that of weight 2^i.
abbrev pub Word : Type 0
Word = ℕ → Bool

-- The bits of a number.
unfoldable pub word : ℕ → Word
word n zero = n % 2 == 1
word n (suc i) = word (n / 2) i

infixl 30 ◌|||◌
infixl 32 ◌^^^◌
infixl 35 ◌&&&◌
abbrev pub ◌|||◌ : Word → Word → Word
(a ||| b) i = a i || b i

abbrev pub ◌&&&◌ : Word → Word → Word
(a &&& b) i = a i && b i

abbrev pub ◌^^^◌ : Word → Word → Word
(a ^^^ b) i = if b i then not (a i) else a i

abbrev pub ~~~◌ : Word → Word
(~~~ a) i = not (a i)

infixr 40 ~~~◌
infixl 45 ◌<<◌
abbrev pub ◌<<◌ : Word → ℕ → Word
(a << n) i = leb n i && ltb i 32 && a (i - n)

pub word-zero : (i : ℕ) → word 0 i ≡ false
unfolding word
word-zero zero = refl
word-zero (suc i) = word-zero i

pub word-seven : (i : ℕ) → word 7 i ≡ ltb i 3
unfolding word
word-seven zero = refl
word-seven (suc zero) = refl
word-seven (suc (suc zero)) = refl
word-seven (suc (suc (suc i))) = word-zero i ∙ ground arith

-- A write of the field of `width` bits from `shift` on by clearing and setting.
pub field_written :
    (w mask value : Word) (shift width i : ℕ)
    → i < 32
    → ((j : ℕ) → mask j ≡ ltb j width)
    → ((j : ℕ) → width ≤ j → value j ≡ false)
    → (w &&& ~~~ (mask << shift) ||| (value << shift)) i
      ≡ (if leb shift i && ltb i (shift + width) then value (i - shift) else w i)
field_written w mask value shift width i lt full small =
    ground (arith, full (i - shift), small (i - shift))
