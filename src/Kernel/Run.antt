-- ===== src/Kernel/Run.antt =====
-- How a call of the kernel goes on: it returns, stops at a switch that `os_yield` asks for and goes
-- on when the task runs again, reads through a NULL pointer, or spins for ever.
use sentinel_rtos.Base.{◌≡◌, refl, ap, fun_ext, Option, none, some}
use sentinel_rtos.Kernel.State.{Kernel, os_yield}

pub data Run {ℓ} (A : Type ℓ) : Type ℓ where
  done : A → Kernel → Run A
  yielded : Kernel → (Kernel → Run A) → Run A
  fault : Run A
  halted : Kernel → Run A

-- Code that runs on the kernel.
abbrev pub M {ℓ} : Type ℓ → Type ℓ
M A = Kernel → Run A

unfoldable pub bind {ℓ κ} : {A : Type ℓ} {B : Type κ} → Run A → (A → M B) → Run B
bind (done a k) f = f a k
bind (yielded k g) f = yielded k (λ k'. bind (g k') f)
bind fault f = fault
bind (halted k) f = halted k

infixl 5 ◌>>=◌ ◌>>◌
abbrev pub ◌>>=◌ {ℓ κ} : {A : Type ℓ} {B : Type κ} → M A → (A → M B) → M B
◌>>=◌ m f k = bind (m k) f

abbrev pub ◌>>◌ {ℓ} : {B : Type ℓ} → M (Unit {0}) → M B → M B
m >> n = m >>= λ _. n

abbrev pub pure {ℓ} : {A : Type ℓ} → A → M A
pure a k = done a k

pub bind_assoc {ℓ κ μ} :
    {A : Type ℓ} {B : Type κ} {C : Type μ} (r : Run A) (f : A → M B) (g : B → M C)
    → bind (bind r f) g ≡ bind r (λ a. f a >>= g)
unfolding bind
bind_assoc (done a k) f g = refl
bind_assoc (yielded k h) f g = ap (yielded k) (fun_ext (λ k'. bind_assoc (h k') f g))
bind_assoc fault f g = refl
bind_assoc (halted k) f g = refl

-- `os_yield` in a task: PendSV is taken at once, and the rest runs when the task is back.
abbrev pub yield_then {ℓ} : {A : Type ℓ} → M A → M A
yield_then rest k = yielded (os_yield k) rest

-- In a handler, and with interrupts masked, the switch stays pending and the code goes on.
unfoldable pub straight_on {ℓ} : {A : Type ℓ} → Run A → Run A
straight_on (done a k) = done a k
straight_on (yielded k g) = straight_on (g k)
straight_on fault = fault
straight_on (halted k) = halted k

-- The state at the return, or at the first switch.
unfoldable pub reached {ℓ} : {A : Type ℓ} → Run A → Option Kernel
reached (done a k) = some k
reached (yielded k g) = some k
reached fault = none
reached (halted k) = none
