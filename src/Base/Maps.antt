-- ===== src/Base/Maps.antt =====
-- Arrays and stores as functions of an index, and lists measured by native numbers.
use Prim.Native.Nat.{ℕ, zero, suc, ◌+◌, ◌≤◌, ◌<◌}
use mathlib.Core.Path.{◌≡◌, refl, ap, ap₂}
use mathlib.Core.Option.{Option, none, some}
use mathlib.Core.List.{List, [], ◌∷◌, ◌++◌}
use native.Mathlib.Omega.{arith}
use sentinel_rtos.Base.Tests.{◌==◌, if◌then◌else◌}

module _ {ℓ} {A : Type ℓ} where
  -- `f[i] = v`.
  abbrev pub update : (ℕ → A) → ℕ → A → ℕ → A
  update f i v j = if j == i then v else f j

  abbrev pub length : List A → ℕ
  length [] = 0
  length (x ∷ xs) = suc (length xs)

  abbrev pub get_elem? : List A → ℕ → Option A
  get_elem? [] i = none
  get_elem? (x ∷ xs) zero = some x
  get_elem? (x ∷ xs) (suc i) = get_elem? xs i

  -- The `n` elements of an array from index `i` on.
  abbrev pub elements : (ℕ → A) → ℕ → ℕ → List A
  elements f i zero = []
  elements f i (suc n) = f i ∷ elements f (i + 1) n

  pub length-append : (xs ys : List A) → length (xs ++ ys) ≡ length xs + length ys
  length-append [] ys = omega arith
  length-append (x ∷ xs) ys = omega (arith, length-append xs ys)

module _ {ℓ} {A : Type ℓ} where
  pub length-elements : (f : ℕ → A) (i n : ℕ) → length (elements f i n) ≡ n
  length-elements f i zero = refl
  length-elements f i (suc n) = ap suc (length-elements f (i + 1) n)

  -- Two arrays that agree shifted by a distance have the same elements there.
  pub elements-ext :
      (f g : ℕ → A) (i j n : ℕ)
      → ((k : ℕ) → k < n → f (i + k) ≡ g (j + k))
      → elements f i n ≡ elements g j n
  elements-ext f g i j zero h = refl
  elements-ext f g i j (suc n) h =
      ap₂ ◌∷◌ (ground (arith, h 0))
        (elements-ext f g (i + 1) (j + 1) n (λ k lt. ground (arith, h (k + 1))))

  pub elements-snoc :
      (f : ℕ → A) (i n : ℕ) → elements f i (n + 1) ≡ elements f i n ++ (f (i + n) ∷ [])
  elements-snoc f i zero = ground arith
  elements-snoc f i (suc n) = ground (arith, elements-snoc f (i + 1) n)

  pub elements-update_past :
      (f : ℕ → A) (i n j : ℕ) (v : A) → i + n ≤ j → elements (update f j v) i n ≡ elements f i n
  elements-update_past f i n j v h = elements-ext (update f j v) f i i n (λ k lt. ground arith)
