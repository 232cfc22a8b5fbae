-- ===== src/Kernel/TaskTable.antt =====
-- `os_task_create` and `os_task_init_stack` of Kernel/os_kernel.c.
pub mod Frame
use sentinel_rtos.Base.{
  ℕ, zero, suc, ◌+◌, ◌-◌, ◌*◌, ◌/◌, ◌||◌, Bool, true, false, Option, none, some, ◌==◌, ltb, leb,
  if◌then◌else◌, update,
}
use sentinel_rtos.Kernel.State.{Kernel, Tcb, ready, set_task, stack_canary, os_success, max_tasks}

-- `*(--stk) = v`, on memory and the stack pointer.
abbrev pub push : (ℕ → ℕ) × ℕ → ℕ → (ℕ → ℕ) × ℕ
push (memory, stk) v = (update memory (stk - 4) v, stk - 4)

-- The loop that pushes `n` zeros.
unfoldable pub push_zeros : (ℕ → ℕ) × ℕ → ℕ → (ℕ → ℕ) × ℕ
push_zeros s zero = s
push_zeros s (suc n) = push_zeros (push s 0) n

-- The hardware frame: xPSR, PC, LR, R12, R3, R2, R1 and R0.
unfoldable pub push_hardware_frame : (ℕ → ℕ) × ℕ → ℕ → (ℕ → ℕ) × ℕ
push_hardware_frame s taskptr =
    let s1 = push s 0x0100_0000 in
    let s2 = push s1 taskptr in
    let s3 = push s2 0xffff_ffff in
    let s4 = push s3 0x1212_1212 in
    let s5 = push s4 0x0303_0303 in
    let s6 = push s5 0x0202_0202 in let s7 = push s6 0x0101_0101 in push s7 0

unfoldable pub os_task_init_stack : (ℕ → ℕ) → ℕ → ℕ → (ℕ → ℕ) × ℕ
unfolding push_hardware_frame push_zeros
os_task_init_stack memory taskptr stack_top =
    push_zeros (push_hardware_frame (memory, stack_top) taskptr) 8

-- The end of the stack array, rounded down to 8 bytes.
abbrev pub stack_top : ℕ → ℕ → ℕ
stack_top stack_base stack_words = (stack_base + 4 * stack_words) / 8 * 8

-- A NULL entry point is the address 0.
unfoldable pub os_task_create : ℕ → ℕ → ℕ → ℕ → Kernel → Bool × Kernel
os_task_create taskptr stack_base stack_words priority k =
    if leb max_tasks k.task_count || taskptr == 0 || ltb stack_words 64
    then (false, k)
    else (let (memory, stk) =
          os_task_init_stack (update k.memory stack_base stack_canary) taskptr
            (stack_top stack_base stack_words) in
        let new_tcb : Tcb = record {
          stack_ptr = stk;
          state = ready;
          base_priority = priority;
          current_priority = priority;
          stack_base = stack_base;
          stack_size = stack_words;
          sleep_time = 0;
          wait_queue = none;
          wait_result = os_success;
        } in
        (
          true,
          record k {
            os_tasks = update k.os_tasks k.task_count new_tcb;
            memory = memory;
            current_tcb = elim k.current_tcb [ none ↦ some k.task_count | some c ↦ some c ];
            task_count = k.task_count + 1;
          },
        ))
