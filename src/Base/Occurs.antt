-- ===== src/Base/Occurs.antt =====
-- How often a number stands in a list, and the removal of its first occurrence.
use Prim.Native.Nat.{ℕ, zero, suc, ◌+◌, ◌-◌, ◌≤◌}
use mathlib.Core.Path.{◌≡◌, refl}
use mathlib.Core.Logic.{inl, inr}
use mathlib.Core.List.{List, [], ◌∷◌, ◌++◌}
use native.Mathlib.Omega.{arith}
use sentinel_rtos.Base.Maps.{length}
use sentinel_rtos.Base.Tests.{◌==◌, leb, Bool-cases, if◌then◌else◌}

unfoldable pub occurs : ℕ → List ℕ → ℕ
occurs t [] = 0
occurs t (x ∷ xs) = (if x == t then 1 else 0) + occurs t xs

-- The list without the first `t`.
unfoldable pub erase : ℕ → List ℕ → List ℕ
erase t [] = []
erase t (x ∷ xs) = if x == t then xs else x ∷ erase t xs

pub occurs-append : (t : ℕ) (xs ys : List ℕ) → occurs t (xs ++ ys) ≡ occurs t xs + occurs t ys
unfolding occurs
occurs-append t [] ys = omega arith
occurs-append t (x ∷ xs) ys = omega (arith, occurs-append t xs ys)

pub occurs-singleton : (t x : ℕ) → occurs t (x ∷ []) ≡ (if x == t then 1 else 0)
unfolding occurs
occurs-singleton t x = ground arith

pub occurs-erase :
    (t y : ℕ) (xs : List ℕ) → occurs t (erase y xs) ≡ occurs t xs - (if y == t then 1 else 0)
unfolding occurs erase
occurs-erase t y [] = ground arith
occurs-erase t y (x ∷ xs) = ground (arith, occurs-erase t y xs)

pub erase_of_absent : (t : ℕ) (xs : List ℕ) → occurs t xs ≡ 0 → erase t xs ≡ xs
unfolding occurs erase
erase_of_absent t [] h = refl
erase_of_absent t (x ∷ xs) h = ground (arith, erase_of_absent t xs)

pub occurs-le-length : (t : ℕ) (xs : List ℕ) → occurs t xs ≤ length xs
unfolding occurs
occurs-le-length t [] = omega arith
occurs-le-length t (x ∷ xs) = ground (arith, occurs-le-length t xs)

pub length-erase : (t : ℕ) (xs : List ℕ) → 1 ≤ occurs t xs → length xs ≡ length (erase t xs) + 1
unfolding occurs erase
length-erase t [] h = absurd (omega arith)
length-erase t (x ∷ xs) h = ground (arith, length-erase t xs)

occurs_head : (x : ℕ) (xs : List ℕ) → 1 ≤ occurs x (x ∷ xs)
unfolding occurs
occurs_head x xs = ground arith

-- A list of numbers below `n`, each at most once, has at most `n` of them.
pub pigeonhole :
    (n : ℕ) (xs : List ℕ)
    → ((t : ℕ) → occurs t xs ≤ 1)
    → ((t : ℕ) → n ≤ t → occurs t xs ≡ 0)
    → length xs ≤ n
pigeonhole zero [] once small = omega arith
pigeonhole zero (x ∷ xs) once small =
    absurd (ground (arith, small x (omega arith), occurs_head x xs))
pigeonhole (suc n) xs once small =
    let shorter =
      pigeonhole n (erase n xs) (λ t. ground (arith, once t, occurs-erase t n xs))
        (λ t le. ground (arith, once t, small t, occurs-erase t n xs)) in
    elim (Bool-cases (leb 1 (occurs n xs))) [
      | inl there ↦ ground (arith, length-erase n xs)
      | inr gone ↦ ground (arith, erase_of_absent n xs)
    ]
