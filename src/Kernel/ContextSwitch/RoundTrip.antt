-- ===== src/Kernel/ContextSwitch/RoundTrip.antt =====
-- What the context switch of Kernel/os_kernel_asm.s gives back to a task.
use sentinel_rtos.Base.{
  ℕ, ◌+◌, ◌-◌, ◌*◌, ◌≤◌, ◌<◌, ◌≡◌, ◌≢◌, ◌⊎◌, refl, ap, ◌∙◌, subst, inl, inr, some, ◌==◌,
  if◌then◌else◌, arith, Option-cases,
}
use sentinel_rtos.Kernel.State.{Kernel}
use sentinel_rtos.Kernel.Run.{done, bind}
use sentinel_rtos.Kernel.Scheduler.{os_scheduler}
use sentinel_rtos.Kernel.System.Reachable.{bind-done}
use sentinel_rtos.Kernel.ContextSwitch.{
  Cpu, store_registers, save_context, restore_context, restore_current, pend_sv_handler,
}
use sentinel_rtos.Kernel.ContextSwitch.Frames.{
  store_registers-in, store_registers-out, load_registers_lem, os_scheduler-stacks,
}

-- A switch from task `c` to task `b`.
record Switched (cpu cpu' : Cpu) (k k' : Kernel) (c b : ℕ) : Type 0 where
  stack_ptr :
      (u : ℕ)
      → (k'.os_tasks u).stack_ptr ≡ (if u == c then cpu.psp - 32 else (k.os_tasks u).stack_ptr)
  memory : k'.memory ≡ store_registers cpu.saved k.memory (cpu.psp - 32) 0 8
  psp : cpu'.psp ≡ (k'.os_tasks b).stack_ptr + 32
  saved : (i : ℕ) → i < 8 → cpu'.saved i ≡ k'.memory ((k'.os_tasks b).stack_ptr + 4 * i)

restore_current-done :
    (cpu cpu' : Cpu) (j k' : Kernel) (b : ℕ)
    → restore_current cpu j ≡ done cpu' k'
    → k'.current_tcb ≡ some b
    → (j ≡ k') × (restore_context cpu b k' ≡ cpu')
unfolding restore_current
restore_current-done cpu cpu' j k' b e now = elim (Option-cases j.current_tcb) [
  | inl idle ↦ ground arith
  | inr (d, other) ↦ ground arith
]

restore_context-saved :
    (cpu : Cpu) (b : ℕ) (k : Kernel) (i : ℕ)
    → i < 8
    → (restore_context cpu b k).saved i ≡ k.memory ((k.os_tasks b).stack_ptr + 4 * i)
unfolding restore_context
restore_context-saved cpu b k i lt =
    ground (arith, load_registers_lem cpu.saved k.memory (k.os_tasks b).stack_ptr 0 8 i)

saved_then_restored :
    (cpu : Cpu) (k k' : Kernel) (c b : ℕ)
    → os_scheduler (save_context cpu c k) ≡ done tt k'
    → Switched cpu (restore_context cpu b k') k k' c b
unfolding save_context restore_context
saved_then_restored cpu k k' c b e = record {
  stack_ptr = λ u. ground (arith, os_scheduler-stacks (save_context cpu c k) k' u e);
  memory = (os_scheduler-stacks (save_context cpu c k) k' c e).1;
  psp = refl;
  saved = restore_context-saved cpu b k';
}

pend_sv_handler-Switched :
    (cpu cpu' : Cpu) (k k' : Kernel) (c b : ℕ)
    → k.current_tcb ≡ some c
    → pend_sv_handler cpu k ≡ done cpu' k'
    → k'.current_tcb ≡ some b
    → Switched cpu cpu' k k' c b
unfolding pend_sv_handler
pend_sv_handler-Switched cpu cpu' k k' c b was e now =
    let go : bind (os_scheduler (save_context cpu c k)) (λ (_ : Unit {0}). restore_current cpu)
        ≡ done cpu' k' =
      ground arith in
    let (a, j, returned, restored) =
      bind-done (os_scheduler (save_context cpu c k)) (λ (_ : Unit {0}). restore_current cpu) go in
    let (same, cpu_is) = restore_current-done cpu cpu' j k' b restored now in
    subst (λ x. Switched cpu x k k' c b) cpu_is
      (saved_then_restored cpu k k' c b (returned ∙ ap (done tt) same))

-- A task `c` that a switch took the processor from, at `psp` with at least the 32 bytes of a frame
-- below, gets its stack pointer and each of R4 to R11 back from the later switch that chooses it,
-- if its stack pointer and the 8 words of its frame were left alone between the two, and if the task that
-- the later switch suspends is another one whose frame does not overlap that of `c`.
pub switch_and_back :
    (cpu cpu1 cpu2 cpu3 : Cpu) (k k1 k2 k3 : Kernel) (c a b i : ℕ)
    → 32 ≤ cpu.psp
    → k.current_tcb ≡ some c
    → pend_sv_handler cpu k ≡ done cpu1 k1
    → k1.current_tcb ≡ some a
    → (k2.os_tasks c).stack_ptr ≡ (k1.os_tasks c).stack_ptr
    → ((j : ℕ) → j < 8 → k2.memory (cpu.psp - 32 + 4 * j) ≡ k1.memory (cpu.psp - 32 + 4 * j))
    → k2.current_tcb ≡ some b
    → b ≢ c
    → (cpu2.psp ≤ cpu.psp - 32) ⊎ (cpu.psp ≤ cpu2.psp - 32)
    → 32 ≤ cpu2.psp
    → pend_sv_handler cpu2 k2 ≡ done cpu3 k3
    → k3.current_tcb ≡ some c
    → i < 8
    → (cpu3.psp ≡ cpu.psp) × (cpu3.saved i ≡ cpu.saved i)
switch_and_back cpu cpu1 cpu2 cpu3 k k1 k2 k3 c a b i room was out went kept frame later ne apart
      room2 back now lt =
    (here.psp ∙ ap (λ p. p + 32) at ∙ omega arith, read_back)
  where
    there : Switched cpu cpu1 k k1 c a
    there = pend_sv_handler-Switched cpu cpu1 k k1 c a was out went

    here : Switched cpu2 cpu3 k2 k3 b c
    here = pend_sv_handler-Switched cpu2 cpu3 k2 k3 b c later back now

    at : (k3.os_tasks c).stack_ptr ≡ cpu.psp - 32
    at = ground (arith, there.stack_ptr c, here.stack_ptr c)

    spared :
        store_registers cpu2.saved k2.memory (cpu2.psp - 32) 0 8 (cpu.psp - 32 + 4 * i)
        ≡ k2.memory (cpu.psp - 32 + 4 * i)
    spared =
        store_registers-out cpu2.saved k2.memory (cpu2.psp - 32) 0 8 (cpu.psp - 32 + 4 * i)
          (elim apart [ inl below ↦ inr (omega arith) | inr above ↦ inl (omega arith) ])

    read_back : cpu3.saved i ≡ cpu.saved i
    read_back =
        here.saved i lt
        ∙ ap (λ p. k3.memory (p + 4 * i)) at
        ∙ ap (λ (m : ℕ → ℕ). m (cpu.psp - 32 + 4 * i)) here.memory
        ∙ spared
        ∙ frame i lt
        ∙ ap (λ (m : ℕ → ℕ). m (cpu.psp - 32 + 4 * i)) there.memory
        ∙ store_registers-in cpu.saved k.memory (cpu.psp - 32) 0 8 i (omega arith) (omega arith)
