-- ===== src/Kernel/Blocking.antt =====
-- Parking and waking in Kernel/os_kernel.c: `wait_queue_remove`, `block_current`, `wake_task`.
use sentinel_rtos.Base.{ℕ, ◌≡◌, arith, Bool, true, false, none, some, ◌==◌, leb, if◌then◌else◌}
use sentinel_rtos.Kernel.State.{
  Kernel, Tcb, WaitRef, ready, blocked, set_task, wait_queue_at, set_wait_queue, os_success,
  wait_forever,
}
use sentinel_rtos.Kernel.WaitQueue.{take_out, park}
use sentinel_rtos.Kernel.Run.{M, done, fault}

leave : Kernel → ℕ → WaitRef → Kernel
leave k t r =
    set_task (set_wait_queue k r (take_out (wait_queue_at k r) t)) t
      (record (k.os_tasks t) { wait_queue = none })

unfoldable pub wait_queue_remove : Kernel → ℕ → Kernel
unfolding leave
wait_queue_remove k t = elim (k.os_tasks t).wait_queue [ none ↦ k | some r ↦ leave k t r ]

-- The TCB that `block_current` writes.
abbrev pub parked_tcb : Tcb → WaitRef → ℕ → Tcb
parked_tcb t r timeout = record t {
  wait_queue = some r;
  wait_result = os_success;
  sleep_time = if timeout == wait_forever then 0 else timeout;
  state = blocked;
}

-- `c` is the task to which `current_tcb` points.
unfoldable pub block_current : Kernel → ℕ → WaitRef → ℕ → ℕ → Bool × Kernel
block_current k c r max timeout = if leb max (wait_queue_at k r).wait_count then (false, k) else (
  true,
  set_task (set_wait_queue k r (park (wait_queue_at k r) c)) c
      (parked_tcb (k.os_tasks c) r timeout),
)

unfoldable pub wake_task : Kernel → ℕ → Kernel
wake_task k t =
    let k1 = wait_queue_remove k t in
    set_task k1 t
      (record (k1.os_tasks t) { sleep_time = 0; wait_result = os_success; state = ready })

-- `return current_tcb->wait_result;`
unfoldable pub resume : M ℕ
resume k = elim k.current_tcb [ none ↦ fault | some c ↦ done (k.os_tasks c).wait_result k ]

pub resume_lem :
    (k : Kernel) (c : ℕ) → k.current_tcb ≡ some c → resume k ≡ done (k.os_tasks c).wait_result k
unfolding resume
resume_lem k c current = ground (arith, current)
