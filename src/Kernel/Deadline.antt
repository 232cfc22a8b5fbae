-- ===== src/Kernel/Deadline.antt =====
-- The time-outs of the waits of Kernel/os_kernel.c, from the call to its return.
pub mod Delay
use sentinel_rtos.Base.{
  ℕ, zero, suc, ◌+◌, ◌<◌, ◌≤◌, ◌≡◌, ◌≢◌, ◌⊎◌, inl, inr, dec_lt, sym, ap, ◌∙◌, subst, true, some,
  ltb, if◌then◌else◌, arith,
}
use sentinel_rtos.Base.Occurs.{occurs}
use sentinel_rtos.Kernel.State.{
  Kernel, Tcb, WaitRef, mutex_queue, semaphore_queue, ready, blocked, os_timeout, wait_forever,
  os_enter_critical, os_exit_critical, os_yield, max_tasks,
}
use sentinel_rtos.Kernel.Run.{Run, done, yielded}
use sentinel_rtos.Kernel.Blocking.{block_current, parked_tcb, resume}
use sentinel_rtos.Kernel.Scheduler.{choose, dispatch}
use sentinel_rtos.Kernel.Tick.Timing.{aged}
use sentinel_rtos.Kernel.System.Elapsed.{Elapsed, Elapsed-aged}
use sentinel_rtos.Kernel.Mutex.{wait_on, os_mutex_acquire}
use sentinel_rtos.Kernel.Mutex.Inheritance.{MustWait, waiting_state, parked_in_waiting_state}
use sentinel_rtos.Kernel.Semaphore.{os_semaphore_acquire}
use sentinel_rtos.Kernel.Invariant.{IsValid, places, waits, waiters_of}
use sentinel_rtos.Kernel.Invariant.Queues.{same_ref_refl}
use sentinel_rtos.Kernel.Safety.{Stops, Runs}
use sentinel_rtos.Kernel.Ownership.Room.{current-lt}
use sentinel_rtos.Kernel.Ownership.Failure.{semaphore_room}
use sentinel_rtos.Kernel.Safety.Locks.{os_mutex_acquire-IsValid}
use sentinel_rtos.Kernel.Safety.Tokens.{os_semaphore_acquire-IsValid}
use sentinel_rtos.Kernel.Safety.Switch.{os_tasks-dispatch, choose-in_table}

-- Task `c` waits on `r`, with `left` ticks to go.
pub record HasDeadline (k : Kernel) (c : ℕ) (r : WaitRef) (left : ℕ) : Type 0 where
  pub queued : (k.os_tasks c).wait_queue ≡ some r
  pub asleep : (k.os_tasks c).state ≡ blocked
  pub deadline : (k.os_tasks c).sleep_time ≡ left
  pub some_left : 0 < left

-- How the wait of `c` on `r` stands in `j`, `n` ticks after it began with `left` to go: it goes on before the deadline, when
-- the scheduler does not choose the task; from then on the task is READY and out of the queue, and its call returns
-- OS_TIMEOUT when it is dispatched.
pub record TimesOut (j : Kernel) (c : ℕ) (r : WaitRef) (left n : ℕ) : Type 0 where
  pub state_then : (j.os_tasks c).state ≡ (if ltb n left then blocked else ready)
  pub queued_then : occurs c (waiters_of j r) ≡ (if ltb n left then 1 else 0)
  pub outcome :
      ((n < left) × (choose j ≢ some c))
      ⊎ ((left ≤ n) × (resume (dispatch j c) ≡ done os_timeout (dispatch j c)))

resume-dispatch :
    (k : Kernel) (c : ℕ) → resume (dispatch k c) ≡ done (k.os_tasks c).wait_result (dispatch k c)
unfolding resume dispatch
resume-dispatch k c = ap (λ x. done x (dispatch k c)) (ground (arith, os_tasks-dispatch k c c))

-- The scheduler does not choose a task that sleeps.
pub asleep_not_chosen :
    (j : Kernel) (c : ℕ) → IsValid j → 0 < (j.os_tasks c).sleep_time → choose j ≢ some c
asleep_not_chosen j c v waits chosen =
    let sleeper = (v.tcbs c).sleeper waits in
    let can = (choose-in_table j c (omega (arith, sleeper.1)) chosen).1 in
    ground (arith, sleeper.0, can)

pub HasDeadline-TimesOut :
    (k j : Kernel) (c : ℕ) (r : WaitRef) (left n : ℕ)
    → IsValid k
    → HasDeadline k c r left
    → Elapsed c k n j
    → TimesOut j c r left n
unfolding aged places
HasDeadline-TimesOut k j c r left n v d e =
    let (valid, same) = Elapsed-aged c k v d.asleep e in
    record {
      state_then = ground (arith, same, d.deadline, d.asleep, d.some_left);
      queued_then =
          valid.agree r c
          ∙ ground (arith, same, d.deadline, d.queued, d.some_left, same_ref_refl r);
      outcome = elim (dec_lt n left) [
        | yes before ↦
            inl
              (before, asleep_not_chosen j c valid (ground (arith, same, d.deadline, d.some_left)))
        | no later ↦
            let expired_result : (j.os_tasks c).wait_result ≡ os_timeout =
              ground (arith, same, d.deadline, d.queued, d.some_left) in
            inr (omega arith, resume-dispatch j c ∙ ap (λ x. done x (dispatch j c)) expired_result)
      ];
    }

-- What a call leaves that stops at a switch is well formed.
pub stopped-IsValid {ℓ} :
    {A : Type ℓ} {k' : Kernel} {g : Kernel → Run A} (r : Run A)
    → r ≡ yielded k' g
    → Stops IsValid r
    → IsValid k'
stopped-IsValid r e h = subst (Stops IsValid) e h

-- An `os_mutex_acquire` that has to wait, with a deadline, in a well-formed state, stops at a switch. However the ticks, the
-- calls of the scheduler and the calls of other tasks and handlers follow each other from there to a state `j`, as long as none of
-- them wakes the task and the scheduler has not chosen it: it is BLOCKED and queued while fewer than `timeout` ticks have passed,
-- and the scheduler does not choose it; after `timeout` or more it is READY and out of the queue, and the
-- call returns OS_TIMEOUT when the scheduler dispatches the task.
pub os_mutex_acquire-TimesOut :
    (k j : Kernel) (m timeout c o n : ℕ)
    → IsValid k
    → Runs k c
    → MustWait k m timeout c o
    → timeout ≢ wait_forever
    → Elapsed c (waiting_state k m timeout c o) n j
    → (os_mutex_acquire m timeout k ≡ yielded (waiting_state k m timeout c o) resume)
      × TimesOut j c (mutex_queue m) timeout n
os_mutex_acquire-TimesOut k j m timeout c o n v run w finite e =
    let (t, stops, parked, count) = parked_in_waiting_state k m timeout c o w in
    let after =
      stopped-IsValid (os_mutex_acquire m timeout k) stops
        (os_mutex_acquire-IsValid k m timeout c run v) in
    (
      stops,
      HasDeadline-TimesOut (waiting_state k m timeout c o) j c (mutex_queue m) timeout n after
          (record {
            queued = ap (λ (u : Tcb). u.wait_queue) parked;
            asleep = ap (λ (u : Tcb). u.state) parked;
            deadline = ap (λ (u : Tcb). u.sleep_time) parked ∙ ground arith;
            some_left = ground (arith, w.waits);
          })
          e,
    )

-- The state at the switch of an `os_semaphore_acquire` without a token.
abbrev pub token_wait : Kernel → ℕ → ℕ → ℕ → Kernel
token_wait k s timeout c = os_yield (
    os_exit_critical k.primask
      (block_current (record k { primask = 1 }) c (semaphore_queue s) max_tasks timeout).1)

-- Without a token, in a running kernel and with a timeout, `os_semaphore_acquire` stops at a switch,
-- with the caller parked.
parked_on_semaphore :
    (k : Kernel) (s timeout c : ℕ)
    → IsValid k
    → Runs k c
    → k.kernel_running ≡ true
    → (k.semaphores s).count ≡ 0
    → timeout ≢ 0
    → (os_semaphore_acquire s timeout k ≡ yielded (token_wait k s timeout c) resume)
      × ((token_wait k s timeout c).os_tasks c
          ≡ parked_tcb (k.os_tasks c) (semaphore_queue s) timeout)
unfolding os_semaphore_acquire os_enter_critical os_exit_critical os_yield wait_on block_current
parked_on_semaphore k s timeout c v run live none_left waits =
    (ground (arith, semaphore_room k s c v run), ground (arith, semaphore_room k s c v run))

-- An `os_semaphore_acquire` without a token, with a deadline, by the running task of a well-formed state of the running kernel,
-- stops at a switch. However the ticks, the calls of the scheduler and the calls of other tasks and handlers follow each other
-- from there to a state `j`, as long as none of them wakes the task and the scheduler has not chosen it: it is BLOCKED and
-- queued while fewer than `timeout` ticks have passed, and the scheduler does not choose it; after `timeout` or more it is
-- READY and out of the queue, and the call returns OS_TIMEOUT when the scheduler dispatches the task.
pub os_semaphore_acquire-TimesOut :
    (k j : Kernel) (s timeout c n : ℕ)
    → IsValid k
    → Runs k c
    → k.kernel_running ≡ true
    → (k.semaphores s).count ≡ 0
    → timeout ≢ 0
    → timeout ≢ wait_forever
    → Elapsed c (token_wait k s timeout c) n j
    → (os_semaphore_acquire s timeout k ≡ yielded (token_wait k s timeout c) resume)
      × TimesOut j c (semaphore_queue s) timeout n
os_semaphore_acquire-TimesOut k j s timeout c n v run live none_left waits finite e =
    let (stops, parked) = parked_on_semaphore k s timeout c v run live none_left waits in
    let after =
      stopped-IsValid (os_semaphore_acquire s timeout k) stops
        (os_semaphore_acquire-IsValid k s timeout c run v) in
    (
      stops,
      HasDeadline-TimesOut (token_wait k s timeout c) j c (semaphore_queue s) timeout n after
          (record {
            queued = ap (λ (u : Tcb). u.wait_queue) parked;
            asleep = ap (λ (u : Tcb). u.state) parked;
            deadline = ap (λ (u : Tcb). u.sleep_time) parked ∙ ground arith;
            some_left = ground arith;
          })
          e,
    )
