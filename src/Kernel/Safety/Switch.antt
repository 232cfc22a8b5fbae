-- ===== src/Kernel/Safety/Switch.antt =====
-- `os_scheduler` of Kernel/os_kernel.c keeps the state well formed.
use sentinel_rtos.Base.{
  ℕ, ◌<◌, ◌≡◌, refl, ap, subst, true, not, ◌&&◌, none, some, inl, inr, ◌==◌, if◌then◌else◌, arith,
  Bool-cases, Option-cases,
}
use sentinel_rtos.Kernel.State.{Kernel, mutex_queue, semaphore_queue, ready, running}
use sentinel_rtos.Kernel.Scheduler.{
  runnable, is_running, scan_start, choose, preempt, dispatch, switch, canary_intact, os_scheduler,
}
use sentinel_rtos.Kernel.Scheduler.Choice.{Outcome, IsBest, choose-Outcome}
use sentinel_rtos.Kernel.Invariant.{IsValid, TcbIsValid, QueuesAgree}
use sentinel_rtos.Kernel.Invariant.Queues.{QueuesAgree-set_task}
use sentinel_rtos.Kernel.Safety.{Stops}

-- The two TCBs that a dispatch writes.
pub os_tasks-dispatch :
    (k : Kernel) (b u : ℕ)
    → (dispatch k b).os_tasks u
      ≡ (if u == b then record (k.os_tasks b) { state = running } else (preempt k b).os_tasks u)
unfolding dispatch preempt
os_tasks-dispatch k b u = ground arith

-- The outgoing task is READY if it was RUNNING.
pub os_tasks-preempt :
    (k : Kernel) (b c u : ℕ)
    → k.current_tcb ≡ some c
    → (preempt k b).os_tasks u ≡ (
        if u == c && (not (c == b) && is_running (k.os_tasks c).state)
        then record (k.os_tasks c) { state = ready }
        else k.os_tasks u)
unfolding preempt
os_tasks-preempt k b c u e = rw (e, preempt) (ground arith)

preempt-QueuesAgree : (k : Kernel) (b : ℕ) → QueuesAgree k → QueuesAgree (preempt k b)
unfolding preempt
preempt-QueuesAgree k b v = elim (Option-cases k.current_tcb) [
  | inl e ↦ rw (e, preempt) v
  | inr (c, e) ↦
      rw (e, preempt)
        (elim (Bool-cases (not (c == b) && is_running (k.os_tasks c).state)) [
          | inl out ↦ rw out (QueuesAgree-set_task k c _ refl v)
          | inr stay ↦ rw stay v
        ])
]

dispatch-QueuesAgree : (k : Kernel) (b : ℕ) → QueuesAgree k → QueuesAgree (dispatch k b)
unfolding dispatch
dispatch-QueuesAgree k b v (mutex_queue m) t =
    QueuesAgree-set_task (preempt k b) b _ refl (preempt-QueuesAgree k b v) (mutex_queue m) t
dispatch-QueuesAgree k b v (semaphore_queue s) t =
    QueuesAgree-set_task (preempt k b) b _ refl (preempt-QueuesAgree k b v) (semaphore_queue s) t

pub dispatch-objects :
    (k : Kernel) (b : ℕ)
    → ((dispatch k b).task_count ≡ k.task_count)
      × ((dispatch k b).mutexes ≡ k.mutexes)
      × ((dispatch k b).semaphores ≡ k.semaphores)
      × ((dispatch k b).current_tcb ≡ some b)
unfolding dispatch preempt
dispatch-objects k b = ground arith

pub dispatch-rest :
    (k : Kernel) (b : ℕ)
    → ((dispatch k b).memory ≡ k.memory)
      × ((dispatch k b).kernel_running ≡ k.kernel_running)
      × ((dispatch k b).queues ≡ k.queues)
unfolding dispatch preempt
dispatch-rest k b = ground arith

pub preempt_idle : (k : Kernel) (b : ℕ) → k.current_tcb ≡ none → preempt k b ≡ k
unfolding preempt
preempt_idle k b e = ground arith

dispatch-TcbIsValid :
    (k : Kernel) (b t : ℕ)
    → runnable (k.os_tasks b).state ≡ true
    → IsValid k
    → TcbIsValid k.task_count (some b) t ((dispatch k b).os_tasks t)
dispatch-TcbIsValid k b t can v = elim (Option-cases k.current_tcb) [
  | inl e ↦ ground (
    arith,
    v.tcbs t,
    v.tcbs b,
    os_tasks-dispatch k b t,
    ap (λ (j : Kernel). j.os_tasks t) (preempt_idle k b e),
  )
  | inr (c, e) ↦
      ground
        (arith, v.tcbs t, v.tcbs b, v.tcbs c, os_tasks-dispatch k b t, os_tasks-preempt k b c t e)
]

-- A runnable task of the table may be dispatched.
pub dispatch-IsValid :
    (k : Kernel) (b : ℕ)
    → b < k.task_count
    → runnable (k.os_tasks b).state ≡ true
    → IsValid k
    → IsValid (dispatch k b)
dispatch-IsValid k b lt can v = record {
  few = rw o.0 v.few;
  current_in = rw (o.0, o.3) lt;
  agree = dispatch-QueuesAgree k b v.agree;
  tcbs = λ t. rw (o.0, o.3) (dispatch-TcbIsValid k b t can v);
  mutexes = λ m. rw (o.0, o.1) (v.mutexes m);
  semaphores = λ s. rw o.2 (v.semaphores s);
}
  where
    o :
        ((dispatch k b).task_count ≡ k.task_count)
        × ((dispatch k b).mutexes ≡ k.mutexes)
        × ((dispatch k b).semaphores ≡ k.semaphores)
        × ((dispatch k b).current_tcb ≡ some b)
    o = dispatch-objects k b

pub choose-in_table :
    (k : Kernel) (b : ℕ)
    → 0 < k.task_count
    → choose k ≡ some b
    → (b < k.task_count) × (runnable (k.os_tasks b).state ≡ true)
choose-in_table k b h e =
    let best : IsBest k (scan_start k) k.task_count b =
      subst (Outcome k (scan_start k) k.task_count) e (choose-Outcome k) in
    (rw best.here (omega arith), best.can_run)

-- `os_scheduler` with the canary of the running task in place returns, in a well-formed state.
pub os_scheduler-IsValid :
    (k : Kernel) → canary_intact k ≡ true → IsValid k → Stops IsValid (os_scheduler k)
unfolding os_scheduler switch
os_scheduler-IsValid k intact v = elim (Bool-cases (k.task_count == 0)) [
  | inl e ↦ rw e v
  | inr e ↦
      rw (e, intact)
        (elim (Option-cases (choose k)) [
          | inl stay ↦ rw (stay, switch) v
          | inr (b, go) ↦
              let t = choose-in_table k b (ground arith) go in
              rw (go, switch) (dispatch-IsValid k b t.0 t.1 v)
        ])
]
