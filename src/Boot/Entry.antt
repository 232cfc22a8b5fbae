-- ===== src/Boot/Entry.antt =====
-- The first frames of the tasks of Src/main.c, from their creation to the launch of Kernel/os_kernel.c.
use sentinel_rtos.Base.{
  ℕ, ◌+◌, ◌*◌, ◌<◌, ◌≤◌, ◌≡◌, ◌⊎◌, refl, ap, ◌∙◌, subst, true, some, inl, inr, arith,
}
use sentinel_rtos.Kernel.State.{Kernel}
use sentinel_rtos.Kernel.Boot.{FirstTask, entered}
use sentinel_rtos.Kernel.Scheduler.{dispatch}
use sentinel_rtos.Kernel.Safety.Switch.{os_tasks-preempt, dispatch-rest}
use sentinel_rtos.Kernel.TaskTable.{os_task_create}
use sentinel_rtos.Kernel.TaskTable.Frame.{IsAccepted, os_task_create-frame}
use sentinel_rtos.Queue.Polled.{Touches}
use sentinel_rtos.Boot.{stack_words}

-- The stack at `a` is outside the `n` words at `b`.
abbrev pub IsApart : ℕ → ℕ → ℕ → Type 0
IsApart a b n = (a + 4 * 256 ≤ b) ⊎ (b + 4 * n ≤ a)

pub canary_apart : (a b n : ℕ) → IsApart a b n → (a < b) ⊎ (b + 4 * n ≤ a)
canary_apart a b n (inl h) = inl (omega arith)
canary_apart a b n (inr h) = inr h

-- The first frame of task `t` is inside its stack at `a`, with this entry point.
pub record Framed (t a entry : ℕ) (k : Kernel) : Type 0 where
  pub above : a < (k.os_tasks t).stack_ptr
  pub below : (k.os_tasks t).stack_ptr + 64 ≤ a + 4 * 256
  pub pc : k.memory ((k.os_tasks t).stack_ptr + 56) ≡ entry

-- The frame of task `t` stays, and so does the pointer to it.
keeps-Framed :
    (t a entry : ℕ) (k k' : Kernel)
    → (k'.os_tasks t).stack_ptr ≡ (k.os_tasks t).stack_ptr
    → k'.memory ((k.os_tasks t).stack_ptr + 56) ≡ k.memory ((k.os_tasks t).stack_ptr + 56)
    → Framed t a entry k
    → Framed t a entry k'
keeps-Framed t a entry k k' pointer word s = record {
  above = omega (arith, s.above, pointer);
  below = omega (arith, s.below, pointer);
  pc = ap (λ i. k'.memory (i + 56)) pointer ∙ word ∙ s.pc;
}

module _ (entry stack priority : ℕ) (k : Kernel) (h : IsAccepted entry stack_words k) where
  abbrev created : Kernel
  created = (os_task_create entry stack stack_words priority k).1

  pub created-Framed : (n : ℕ) → k.task_count ≡ n → Framed n stack entry created
  created-Framed n there =
      let frame = os_task_create-frame entry stack stack_words priority k h in
      subst (λ i. Framed i stack entry created) there
        (record { above = frame.4; below = frame.3; pc = frame.6 })

  other_pointer :
      (t : ℕ) → t < k.task_count → (created.os_tasks t).stack_ptr ≡ (k.os_tasks t).stack_ptr
  unfolding os_task_create
  other_pointer t before = ground (arith, h.room, h.entry, h.words)

  pub still-Framed :
      (t a e : ℕ) → t < k.task_count → IsApart a stack 256 → Framed t a e k → Framed t a e created
  still-Framed t a e before apart s =
      let frame = os_task_create-frame entry stack stack_words priority k h in
      keeps-Framed t a e k created (other_pointer t before)
        (frame.8 ((k.os_tasks t).stack_ptr + 56) (ground (arith, apart, s.above, s.below))) s

pub dispatch-Framed :
    (t a entry c u : ℕ) (k : Kernel)
    → k.current_tcb ≡ some c
    → Framed t a entry k
    → Framed t a entry (dispatch k u)
unfolding dispatch
dispatch-Framed t a entry c u k cur s =
    keeps-Framed t a entry k (dispatch k u) (ground (arith, os_tasks-preempt k u c t cur))
      (ap (λ m. m ((k.os_tasks t).stack_ptr + 56)) (dispatch-rest k u).0) s

pub Touches-Framed :
    (t a entry buffer capacity : ℕ) (k k' : Kernel)
    → IsApart a buffer capacity
    → Touches k k' buffer capacity
    → Framed t a entry k
    → Framed t a entry k'
Touches-Framed t a entry buffer capacity k k' apart touched s =
    keeps-Framed t a entry k k' (ground (arith, touched.tasks t))
      (ground (arith, touched.words ((k.os_tasks t).stack_ptr + 56), apart, s.above, s.below)) s

-- The launched kernel's frame is that with which the task was entered.
pub launched-Framed :
    (d : Kernel) (t a entry : ℕ)
    → Framed t a entry d
    → Framed t a entry (record d { kernel_running = true; primask = 0 })
launched-Framed d t a entry s =
    keeps-Framed t a entry d (record d { kernel_running = true; primask = 0 }) refl refl s

-- A task is entered at its entry point, with its PSP inside its stack.
pub record Enters (a entry : ℕ) (f : FirstTask) : Type 0 where
  pub at_entry : f.pc ≡ entry
  pub above_base : a < f.psp
  pub in_stack : f.psp ≤ a + 4 * 256

pub Framed-Enters : (t a entry : ℕ) (k : Kernel) → Framed t a entry k → Enters a entry (entered k t)
unfolding entered
Framed-Enters t a entry k s = record {
  at_entry = s.pc;
  above_base = omega (arith, s.above);
  in_stack = s.below;
}
