-- ===== src/Kernel/Tick/Effect.antt =====
-- What one `SysTick_Handler` of Kernel/os_kernel.c does to each TCB, and what it leaves alone.
use sentinel_rtos.Base.{
  ℕ, zero, suc, ◌+◌, ◌-◌, ◌≤◌, ◌≡◌, refl, inl, inr, none, ltb, leb, ◌&&◌, ◌==◌, if◌then◌else◌,
  arith, Option-cases, Bool-cases,
}
use sentinel_rtos.Kernel.State.{Kernel, Tcb, WaitRef, wait_queue_at, ready, os_timeout, set_task}
use sentinel_rtos.Kernel.Blocking.{wait_queue_remove}
use sentinel_rtos.Kernel.Tick.{time_out, tick_task, tick_tasks}
use sentinel_rtos.Kernel.Invariant.{QueuesAgree, waits}
use sentinel_rtos.Kernel.Invariant.Queues.{
  os_tasks-wait_queue_remove, wait_queue_remove-QueuesAgree, QueuesAgree-set_task,
}
use sentinel_rtos.Kernel.Invariant.Frame.{
  SameObjects, SameObjects-refl, SameObjects-trans, SameObjects-set_task,
  wait_queue_remove-SameObjects, wait_count-wait_queue_remove, wait_queue_at-set_task,
}

-- The end of a wait: a waiter leaves its queue with OS_TIMEOUT, a sleeper only wakes.
abbrev pub expired : Tcb → Tcb
expired c = record c {
  sleep_time = 0;
  state = ready;
  wait_queue = none;
  wait_result = if waits c then os_timeout else c.wait_result;
}

-- One tick in the life of a TCB.
unfoldable pub ticked : Tcb → Tcb
ticked c =
    if c.sleep_time == 0
    then c
    else if c.sleep_time == 1
    then expired c
    else record c { sleep_time = c.sleep_time - 1 }

os_tasks-time_out :
    (k : Kernel) (i u : ℕ)
    → (time_out k i).os_tasks u ≡ (
        if u == i
        then record (k.os_tasks i) {
          wait_queue = none;
          wait_result = if waits (k.os_tasks i) then os_timeout else (k.os_tasks i).wait_result;
        }
        else k.os_tasks u)
unfolding time_out
os_tasks-time_out k i u = elim (Option-cases (k.os_tasks i).wait_queue) [
  | inl e ↦ rw (e, time_out) (ground arith)
  | inr (r, e) ↦
      rw (e, time_out)
        (ground (arith, os_tasks-wait_queue_remove k i u, os_tasks-wait_queue_remove k i i))
]

os_tasks-tick_task :
    (k : Kernel) (i u : ℕ)
    → (tick_task k i).os_tasks u ≡ (if u == i then ticked (k.os_tasks i) else k.os_tasks u)
unfolding tick_task ticked
os_tasks-tick_task k i u =
    let k1 = set_task k i (record (k.os_tasks i) { sleep_time = (k.os_tasks i).sleep_time - 1 }) in
    ground (arith, os_tasks-time_out k1 i u, os_tasks-time_out k1 i i)

-- The loop reaches each of its tasks once.
pub os_tasks-tick_tasks :
    (k : Kernel) (i n u : ℕ)
    → (tick_tasks k i n).os_tasks u
      ≡ (if leb i u && ltb u (i + n) then ticked (k.os_tasks u) else k.os_tasks u)
unfolding tick_tasks
os_tasks-tick_tasks k i zero u = ground arith
os_tasks-tick_tasks k i (suc n) u =
    ground (arith, os_tasks-tick_tasks (tick_task k i) (i + 1) n u, os_tasks-tick_task k i u)

time_out-SameObjects : (k : Kernel) (i : ℕ) → SameObjects k (time_out k i)
unfolding time_out
time_out-SameObjects k i = elim (Option-cases (k.os_tasks i).wait_queue) [
  | inl e ↦ rw (e, time_out) (SameObjects-refl k)
  | inr (r, e) ↦ rw (e, time_out) (SameObjects-set_task i _ (wait_queue_remove-SameObjects k i))
]

tick_task-SameObjects : (k : Kernel) (i : ℕ) → SameObjects k (tick_task k i)
unfolding tick_task
tick_task-SameObjects k i = elim (Bool-cases ((k.os_tasks i).sleep_time == 0)) [
  | inl e ↦ rw e (SameObjects-refl k)
  | inr e ↦ rw e (elim (Bool-cases ((k.os_tasks i).sleep_time - 1 == 0)) [
    | inl last ↦ rw last (
        SameObjects-set_task i _ (
          SameObjects-trans (SameObjects-set_task i _ (SameObjects-refl k))
            (time_out-SameObjects _ i)))
    | inr more ↦ rw more (SameObjects-set_task i _ (SameObjects-refl k))
  ])
]

pub tick_tasks-SameObjects : (k : Kernel) (i n : ℕ) → SameObjects k (tick_tasks k i n)
unfolding tick_tasks
tick_tasks-SameObjects k i zero = SameObjects-refl k
tick_tasks-SameObjects k i (suc n) =
    SameObjects-trans (tick_task-SameObjects k i) (tick_tasks-SameObjects (tick_task k i) (i + 1) n)

time_out-QueuesAgree : (k : Kernel) (i : ℕ) → QueuesAgree k → QueuesAgree (time_out k i)
unfolding time_out
time_out-QueuesAgree k i v = elim (Option-cases (k.os_tasks i).wait_queue) [
  | inl e ↦ rw (e, time_out) v
  | inr (r, e) ↦
      rw (e, time_out)
        (QueuesAgree-set_task (wait_queue_remove k i) i _ refl
          (wait_queue_remove-QueuesAgree k i v))
]

tick_task-QueuesAgree : (k : Kernel) (i : ℕ) → QueuesAgree k → QueuesAgree (tick_task k i)
unfolding tick_task
tick_task-QueuesAgree k i v = elim (Bool-cases ((k.os_tasks i).sleep_time == 0)) [
  | inl e ↦ rw e v
  | inr e ↦ rw e (elim (Bool-cases ((k.os_tasks i).sleep_time - 1 == 0)) [
    | inl last ↦ rw last (
        QueuesAgree-set_task (time_out _ i) i _ refl
          (time_out-QueuesAgree _ i (QueuesAgree-set_task k i _ refl v)))
    | inr more ↦ rw more (QueuesAgree-set_task k i _ refl v)
  ])
]

pub tick_tasks-QueuesAgree : (k : Kernel) (i n : ℕ) → QueuesAgree k → QueuesAgree (tick_tasks k i n)
unfolding tick_tasks
tick_tasks-QueuesAgree k i zero v = v
tick_tasks-QueuesAgree k i (suc n) v =
    tick_tasks-QueuesAgree (tick_task k i) (i + 1) n (tick_task-QueuesAgree k i v)

time_out-wait_count :
    (k : Kernel) (i : ℕ) (s : WaitRef)
    → (wait_queue_at (time_out k i) s).wait_count ≤ (wait_queue_at k s).wait_count
unfolding time_out
time_out-wait_count k i s = elim (Option-cases (k.os_tasks i).wait_queue) [
  | inl e ↦ rw (e, time_out) (omega arith)
  | inr (r, e) ↦ rw (e, time_out, wait_queue_at-set_task) (wait_count-wait_queue_remove k i s)
]

tick_task-wait_count :
    (k : Kernel) (i : ℕ) (s : WaitRef)
    → (wait_queue_at (tick_task k i) s).wait_count ≤ (wait_queue_at k s).wait_count
unfolding tick_task
tick_task-wait_count k i s =
    let k1 = set_task k i (record (k.os_tasks i) { sleep_time = (k.os_tasks i).sleep_time - 1 }) in
    ground (
      arith,
      time_out-wait_count k1 i s,
      wait_queue_at-set_task k i
          (record (k.os_tasks i) { sleep_time = (k.os_tasks i).sleep_time - 1 }) s,
      wait_queue_at-set_task (time_out k1 i) i
          (record ((time_out k1 i).os_tasks i) { state = ready }) s,
    )

pub tick_tasks-wait_count :
    (k : Kernel) (i n : ℕ) (s : WaitRef)
    → (wait_queue_at (tick_tasks k i n) s).wait_count ≤ (wait_queue_at k s).wait_count
unfolding tick_tasks
tick_tasks-wait_count k i zero s = omega arith
tick_tasks-wait_count k i (suc n) s =
    omega (arith, tick_task-wait_count k i s, tick_tasks-wait_count (tick_task k i) (i + 1) n s)
