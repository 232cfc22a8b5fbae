-- ===== src/Kernel/WaitQueue.antt =====
-- The wait queues of Kernel/os_kernel.c: the loops over their slots, and the lists they stand for.
pub mod Lists
pub mod Choice
use sentinel_rtos.Base.{
  ℕ, zero, suc, ◌+◌, ◌-◌, Option, none, some, List, ◌==◌, ltb, if◌then◌else◌, update, elements,
}
use sentinel_rtos.Kernel.State.{WaitQueue, Tcb}

-- The search loop of `wait_queue_remove`, with `n` slots left from slot `i` on.
unfoldable pub find_slot : (ℕ → ℕ) → ℕ → ℕ → ℕ → Option ℕ
find_slot slots task i zero = none
find_slot slots task i (suc n) = if slots i == task then some i else find_slot slots task (i + 1) n

-- Its inner loop, `n` rounds from slot `j` on.
unfoldable pub shift_down : (ℕ → ℕ) → ℕ → ℕ → ℕ → ℕ
shift_down slots j zero = slots
shift_down slots j (suc n) = shift_down (update slots j (slots (j + 1))) (j + 1) n

-- What `wait_queue_remove` does to the queue.
unfoldable pub take_out : WaitQueue → ℕ → WaitQueue
unfolding find_slot shift_down
take_out q task = elim (find_slot q.slots task 0 q.wait_count) [
  | none ↦ q
  | some i ↦ record {
    slots = shift_down q.slots i (q.wait_count - (i + 1));
    wait_count = q.wait_count - 1;
  }
]

-- What `block_current` does to a queue that has room.
unfoldable pub park : WaitQueue → ℕ → WaitQueue
park q task = record { slots = update q.slots q.wait_count task; wait_count = q.wait_count + 1 }

-- One round of the loop of `pick_waiter`.
unfoldable pub better : (ℕ → Tcb) → ℕ → Option ℕ → Option ℕ
better tasks t none = some t
better tasks t (some b) =
    if ltb (tasks b).current_priority (tasks t).current_priority then some t else some b

-- That loop, with `n` slots left from slot `i` on.
unfoldable pub pick_from : (ℕ → Tcb) → (ℕ → ℕ) → ℕ → ℕ → Option ℕ → Option ℕ
unfolding better
pick_from tasks slots i zero best = best
pick_from tasks slots i (suc n) best = pick_from tasks slots (i + 1) n (better tasks (slots i) best)

unfoldable pub pick_waiter : (ℕ → Tcb) → WaitQueue → Option ℕ
unfolding pick_from
pick_waiter tasks q = pick_from tasks q.slots 0 q.wait_count none

-- The tasks in a queue, in the order in which they came.
unfoldable pub waiting : WaitQueue → List ℕ
waiting q = elements q.slots 0 q.wait_count
