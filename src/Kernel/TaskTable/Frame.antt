-- ===== src/Kernel/TaskTable/Frame.antt =====
-- The first stack frame of a task that `os_task_create` of Kernel/os_kernel.c registers.
use sentinel_rtos.Base.{
  ℕ, ◌+◌, ◌-◌, ◌*◌, ◌%◌, ◌<◌, ◌≤◌, ◌≡◌, ◌≢◌, ◌⊎◌, refl, ap, ◌∙◌, ◌||◌, true, false, inl, inr, ltb,
  leb, ◌==◌, update, arith,
}
use sentinel_rtos.Kernel.State.{Kernel, stack_canary, max_tasks}
use sentinel_rtos.Kernel.TaskTable.{os_task_init_stack, stack_top, os_task_create}

module _ (memory : ℕ → ℕ) (taskptr top : ℕ) (room : 64 ≤ top) where
  frame_pointer : (os_task_init_stack memory taskptr top).1 ≡ top - 64
  unfolding os_task_init_stack
  frame_pointer = omega arith

  frame_pc : (os_task_init_stack memory taskptr top).0 (top - 8) ≡ taskptr
  unfolding os_task_init_stack
  frame_pc = ground arith

  frame_xpsr : (os_task_init_stack memory taskptr top).0 (top - 4) ≡ 0x0100_0000
  unfolding os_task_init_stack
  frame_xpsr = ground arith

  frame_outside :
      (a : ℕ) → (a + 64 < top) ⊎ (top ≤ a) → (os_task_init_stack memory taskptr top).0 a ≡ memory a
  unfolding os_task_init_stack
  frame_outside a (inl h) = ground arith
  frame_outside a (inr h) = ground arith

-- The arguments that `os_task_create` accepts from a table with room.
pub record IsAccepted (taskptr stack_words : ℕ) (k : Kernel) : Type 0 where
  pub room : k.task_count < max_tasks
  pub entry : taskptr ≢ 0
  pub words : 64 ≤ stack_words

pub os_task_create-frame :
    (taskptr stack_base stack_words priority : ℕ) (k : Kernel)
    → IsAccepted taskptr stack_words k
    → let (created, k') = os_task_create taskptr stack_base stack_words priority k in
      let t = k'.os_tasks k.task_count in
      (created ≡ true)
      × (k'.task_count ≡ k.task_count + 1)
      × ((t.stack_ptr + 64) % 8 ≡ 0)
      × (t.stack_ptr + 64 ≤ stack_base + 4 * stack_words)
      × (stack_base < t.stack_ptr)
      × (k'.memory stack_base ≡ stack_canary)
      × (k'.memory (t.stack_ptr + 56) ≡ taskptr)
      × (k'.memory (t.stack_ptr + 60) ≡ 0x0100_0000)
      × ((a : ℕ) → (a < stack_base) ⊎ (stack_base + 4 * stack_words ≤ a) → k'.memory a ≡ k.memory a)
unfolding os_task_create
os_task_create-frame taskptr stack_base stack_words priority k h =
    rw (accepts, own_slot, frame_pointer memory taskptr top above)
      (
        refl,
        refl,
        omega arith,
        omega arith,
        omega arith,
        frame_outside memory taskptr top above stack_base (inl (omega arith)) ∙ ground arith,
        ap frame (omega arith) ∙ frame_pc memory taskptr top above,
        ap frame (omega arith) ∙ frame_xpsr memory taskptr top above,
        elsewhere,
      )
  where
    memory : ℕ → ℕ
    memory = update k.memory stack_base stack_canary

    top : ℕ
    top = stack_top stack_base stack_words

    frame : ℕ → ℕ
    frame = (os_task_init_stack memory taskptr top).0

    above : 64 ≤ top
    above = omega (arith, h.words)

    accepts : (leb max_tasks k.task_count || taskptr == 0 || ltb stack_words 64) ≡ false
    accepts = ground (arith, h.room, h.entry, h.words)

    own_slot : (k.task_count == k.task_count) ≡ true
    own_slot = ground arith

    elsewhere :
        (a : ℕ) → (a < stack_base) ⊎ (stack_base + 4 * stack_words ≤ a) → frame a ≡ k.memory a
    elsewhere a (inl below) =
        frame_outside memory taskptr top above a (inl (omega (arith, h.words))) ∙ ground arith
    elsewhere a (inr beyond) =
        frame_outside memory taskptr top above a (inr (omega arith)) ∙ ground (arith, h.words)

-- A task for a full table, without an entry point or with less than 64 words of stack is refused,
-- and the kernel is as it was.
pub os_task_create_refuses :
    (taskptr stack_base stack_words priority : ℕ) (k : Kernel)
    → (max_tasks ≤ k.task_count) ⊎ (taskptr ≡ 0) ⊎ (stack_words < 64)
    → os_task_create taskptr stack_base stack_words priority k ≡ (false, k)
unfolding os_task_create
os_task_create_refuses taskptr stack_base stack_words priority k h = ground arith
