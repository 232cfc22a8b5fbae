-- ===== src/Kernel/WaitQueue/Lists.antt =====
-- The wait queues of Kernel/os_kernel.c as lists: parking appends, taking out erases.
use sentinel_rtos.Base.{
  ℕ, zero, suc, ◌+◌, ◌-◌, ◌≤◌, ◌<◌, ◌≡◌, refl, none, some, [], ◌∷◌, ◌++◌, inl, inr, arith, ◌==◌,
  ltb, if◌then◌else◌, update, elements, elements-ext, elements-snoc, elements-update_past,
  Bool-cases, leb, length, length-elements, Option-cases,
}
use sentinel_rtos.Base.Occurs.{occurs, erase, erase_of_absent}
use sentinel_rtos.Kernel.State.{WaitQueue}
use sentinel_rtos.Kernel.WaitQueue.{find_slot, shift_down, take_out, park, waiting}

-- Each slot in the range takes its neighbour's value, and no other slot changes.
shift_down_lem :
    (f : ℕ → ℕ) (j n x : ℕ)
    → shift_down f j n x ≡ (if ltb x j then f x else if ltb x (j + n) then f (x + 1) else f x)
unfolding shift_down
shift_down_lem f j zero x = ground arith
shift_down_lem f j (suc n) x = ground (arith, shift_down_lem (update f j (f (j + 1))) (j + 1) n x)

find_slot-range : (f : ℕ → ℕ) (t i n x : ℕ) → find_slot f t i n ≡ some x → (i ≤ x) × (x < i + n)
unfolding find_slot
find_slot-range f t i zero x h = cc
find_slot-range f t i (suc n) x h = ground (arith, find_slot-range f t (i + 1) n x)

find_slot-none : (f : ℕ → ℕ) (t i n : ℕ) → find_slot f t i n ≡ none → occurs t (elements f i n) ≡ 0
unfolding find_slot occurs
find_slot-none f t i zero h = refl
find_slot-none f t i (suc n) h = ground (arith, find_slot-none f t (i + 1) n)

find_slot-occurs :
    (f : ℕ → ℕ) (t i n x : ℕ) → find_slot f t i n ≡ some x → 1 ≤ occurs t (elements f i n)
unfolding find_slot occurs
find_slot-occurs f t i zero x h = cc
find_slot-occurs f t i (suc n) x h = ground (arith, find_slot-occurs f t (i + 1) n x)

shift_down-elements : (f : ℕ → ℕ) (x n : ℕ) → elements (shift_down f x n) x n ≡ elements f (x + 1) n
shift_down-elements f x n =
    elements-ext (shift_down f x n) f x (x + 1) n
      (λ k lt. ground (arith, shift_down_lem f x n (x + k)))

-- Closing the gap erases the first occurrence.
erase-elements :
    (f : ℕ → ℕ) (t i n x : ℕ)
    → find_slot f t i n ≡ some x
    → erase t (elements f i n) ≡ elements (shift_down f x (i + n - (x + 1))) i (n - 1)
unfolding find_slot erase
erase-elements f t i zero x h = cc
erase-elements f t i (suc zero) x h = ground arith
erase-elements f t i (suc (suc n)) x h = elim (Bool-cases (f i == t)) [
  | inl e ↦ ground (arith, shift_down-elements f x (suc n))
  | inr e ↦ ground (
    arith,
    find_slot-range f t (i + 1) (suc n) x,
    erase-elements f t (i + 1) (suc n) x,
    shift_down_lem f x (i + suc (suc n) - (x + 1)) i,
  )
]

-- `wait_queue_remove` erases the first occurrence of the task, and keeps the others in order.
pub waiting-take_out : (q : WaitQueue) (t : ℕ) → waiting (take_out q t) ≡ erase t (waiting q)
unfolding waiting take_out
waiting-take_out q t = elim (Option-cases (find_slot q.slots t 0 q.wait_count)) [
  | inl e ↦ ground (
    arith,
    erase_of_absent t (elements q.slots 0 q.wait_count),
    find_slot-none q.slots t 0 q.wait_count,
  )
  | inr (x, e) ↦ ground (arith, erase-elements q.slots t 0 q.wait_count x)
]

-- Taking out a waiting task makes the queue one shorter; a task that does not wait changes nothing.
pub wait_count-take_out :
    (q : WaitQueue) (t : ℕ)
    → (take_out q t).wait_count ≡ q.wait_count - (if leb 1 (occurs t (waiting q)) then 1 else 0)
unfolding waiting take_out
wait_count-take_out q t = elim (Option-cases (find_slot q.slots t 0 q.wait_count)) [
  | inl e ↦ ground (arith, find_slot-none q.slots t 0 q.wait_count)
  | inr (x, e) ↦ ground (arith, find_slot-occurs q.slots t 0 q.wait_count x)
]

pub length-waiting : (q : WaitQueue) → length (waiting q) ≡ q.wait_count
unfolding waiting
length-waiting q = length-elements q.slots 0 q.wait_count

-- Parking appends the task.
pub waiting-park : (q : WaitQueue) (t : ℕ) → waiting (park q t) ≡ waiting q ++ (t ∷ [])
unfolding waiting park
waiting-park q t = ground (
  arith,
  elements-snoc (update q.slots q.wait_count t) 0 q.wait_count,
  elements-update_past q.slots 0 q.wait_count q.wait_count t,
)
