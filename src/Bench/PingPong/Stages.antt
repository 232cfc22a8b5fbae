-- ===== src/Bench/PingPong/Stages.antt =====
-- The stages of a round trip of the two tasks of Bench/microbench.c.
use sentinel_rtos.Base.{
  ℕ, ◌<◌, ◌≡◌, ◌≢◌, refl, sym, ap, ◌∙◌, Bool, true, false, some, arith, ℕ_discrete,
}
use sentinel_rtos.Kernel.State.{Kernel, Tcb, Semaphore, TaskState, semaphore_queue, stack_canary}
use sentinel_rtos.Kernel.Scheduler.{runnable, dispatch, preempt}
use sentinel_rtos.Kernel.Invariant.{IsValid}

module _ (a b ping_sem pong_sem : ℕ) where
  -- Two tasks of equal priority above all others, with their canaries, and their two semaphores.
  pub record Pair (k : Kernel) : Type 0 where
    pub valid : IsValid k
    pub live : k.kernel_running ≡ true
    pub a_in : a < k.task_count
    pub b_in : b < k.task_count
    pub two : a ≢ b
    pub equal : (k.os_tasks a).current_priority ≡ (k.os_tasks b).current_priority
    pub lower :
        (u : ℕ)
        → u < k.task_count
        → u ≢ a
        → u ≢ b
        → runnable (k.os_tasks u).state ≡ true
        → (k.os_tasks u).current_priority < (k.os_tasks a).current_priority
    pub canary_a : k.memory (k.os_tasks a).stack_base ≡ stack_canary
    pub canary_b : k.memory (k.os_tasks b).stack_base ≡ stack_canary
    pub sems : ping_sem ≢ pong_sem
    pub ping_max : (k.semaphores ping_sem).max_count ≡ 1
    pub ping_idle : (k.semaphores ping_sem).waiters.wait_count ≡ 0
    pub pong_none : (k.semaphores pong_sem).count ≡ 0

  -- Task `b` alone waits for a token of `pong_sem`, or nobody does.
  abbrev pub PongQueue : Bool → Kernel → Type 0
  PongQueue true k =
      ((k.os_tasks b).wait_queue ≡ some (semaphore_queue pong_sem))
      × ((k.semaphores pong_sem).waiters.wait_count ≡ 1)
      × ((k.semaphores pong_sem).waiters.slots 0 ≡ b)
  PongQueue false k = (k.semaphores pong_sem).waiters.wait_count ≡ 0

  pub record Stage (current : ℕ) (state_a state_b : TaskState) (tokens : ℕ) (waits : Bool)
      (k : Kernel) : Type 0 where
    pub pair : Pair k
    pub runs : k.current_tcb ≡ some current
    pub a_is : (k.os_tasks a).state ≡ state_a
    pub b_is : (k.os_tasks b).state ≡ state_b
    pub ping_count : (k.semaphores ping_sem).count ≡ tokens
    pub queue : PongQueue waits k

  -- What a step leaves alone.
  pub record Keeps (k k' : Kernel) : Type 0 where
    pub same_live : k'.kernel_running ≡ k.kernel_running
    pub same_count : k'.task_count ≡ k.task_count
    pub same_memory : k'.memory ≡ k.memory
    pub same_priority : (u : ℕ) → (k'.os_tasks u).current_priority ≡ (k.os_tasks u).current_priority
    pub same_base : (u : ℕ) → (k'.os_tasks u).stack_base ≡ (k.os_tasks u).stack_base
    pub wakes_no_other :
        (u : ℕ)
        → u ≢ a
        → u ≢ b
        → runnable (k'.os_tasks u).state ≡ true
        → runnable (k.os_tasks u).state ≡ true
    pub same_ping_max : (k'.semaphores ping_sem).max_count ≡ (k.semaphores ping_sem).max_count
    pub same_ping_idle :
        (k'.semaphores ping_sem).waiters.wait_count ≡ (k.semaphores ping_sem).waiters.wait_count
    pub same_pong : (k'.semaphores pong_sem).count ≡ (k.semaphores pong_sem).count

  pub Pair-kept : (k k' : Kernel) → Pair k → Keeps k k' → IsValid k' → Pair k'
  Pair-kept k k' p h v = record {
    valid = v;
    live = h.same_live ∙ p.live;
    a_in = ground (arith, p.a_in, h.same_count);
    b_in = ground (arith, p.b_in, h.same_count);
    two = p.two;
    equal = h.same_priority a ∙ p.equal ∙ sym (h.same_priority b);
    lower = λ u lt not_a not_b run. ground (
      arith,
      h.same_count,
      h.same_priority a,
      h.same_priority u,
      p.lower u (ground (arith, h.same_count)) not_a not_b (h.wakes_no_other u not_a not_b run),
    );
    canary_a =
        ap k'.memory (h.same_base a)
        ∙ ap (λ m. m (k.os_tasks a).stack_base) h.same_memory
        ∙ p.canary_a;
    canary_b =
        ap k'.memory (h.same_base b)
        ∙ ap (λ m. m (k.os_tasks b).stack_base) h.same_memory
        ∙ p.canary_b;
    sems = p.sems;
    ping_max = h.same_ping_max ∙ p.ping_max;
    ping_idle = h.same_ping_idle ∙ p.ping_idle;
    pong_none = h.same_pong ∙ p.pong_none;
  }

  pub dispatch-Keeps :
      (k : Kernel) (t : ℕ) → runnable (k.os_tasks t).state ≡ true → Keeps k (dispatch k t)
  unfolding dispatch preempt
  dispatch-Keeps k t can = record {
    same_live = ground arith;
    same_count = ground arith;
    same_memory = ground arith;
    same_priority = λ u. ground arith;
    same_base = λ u. ground arith;
    wakes_no_other = λ u not_a not_b run. ground arith;
    same_ping_max = ground arith;
    same_ping_idle = ground arith;
    same_pong = ground arith;
  }

  -- A step that writes semaphores, and of the table task `b` alone.
  pub written-Keeps :
      (k : Kernel) (tasks : ℕ → Tcb) (semaphores : ℕ → Semaphore) (pending : Bool)
      → ((u : ℕ) → u ≢ b → tasks u ≡ k.os_tasks u)
      → (tasks b).current_priority ≡ (k.os_tasks b).current_priority
      → (tasks b).stack_base ≡ (k.os_tasks b).stack_base
      → (semaphores ping_sem).max_count ≡ (k.semaphores ping_sem).max_count
      → (semaphores ping_sem).waiters.wait_count ≡ (k.semaphores ping_sem).waiters.wait_count
      → (semaphores pong_sem).count ≡ (k.semaphores pong_sem).count
      → Keeps k (record k { os_tasks = tasks; semaphores = semaphores; pend_sv = pending })
  written-Keeps k tasks semaphores pending others priority base same_max same_idle same_pong =
      record {
        same_live = refl;
        same_count = refl;
        same_memory = refl;
        same_priority = λ u. elim (ℕ_discrete u b) [
          | yes e ↦ rw e priority
          | no e ↦ ap (λ (t : Tcb). t.current_priority) (others u e)
        ];
        same_base = λ u. elim (ℕ_discrete u b) [
          | yes e ↦ rw e base
          | no e ↦ ap (λ (t : Tcb). t.stack_base) (others u e)
        ];
        wakes_no_other = λ u not_a not_b run. rw (← others u not_b) run;
        same_ping_max = same_max;
        same_ping_idle = same_idle;
        same_pong = same_pong;
      }
