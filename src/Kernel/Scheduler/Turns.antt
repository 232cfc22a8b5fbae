-- ===== src/Kernel/Scheduler/Turns.antt =====
-- Repeated calls of `os_scheduler` of Kernel/os_kernel.c: tasks of the highest priority take turns.
use native.Mathlib.Nat.{mod-eq_of_lt, mod-eq-sub-mod}
use mathlib.Core.Path.{subst₂}
use sentinel_rtos.Base.{
  ℕ, zero, suc, ◌+◌, ◌-◌, ◌%◌, ◌<◌, ◌≤◌, ◌≡◌, ◌≢◌, refl, sym, ap, ◌∙◌, subst, true, false, some,
  ◌==◌, ltb, if◌then◌else◌, dec_lt, ℕ_discrete, arith,
}
use sentinel_rtos.Kernel.State.{Kernel, Tcb, stack_canary}
use sentinel_rtos.Kernel.Run.{M, done, bind, ◌>>◌, pure}
use sentinel_rtos.Kernel.Scheduler.{
  runnable, scan_start, choose, preempt, dispatch, switch, canary_intact, os_scheduler,
}
use sentinel_rtos.Kernel.Scheduler.Choice.{Outcome, IsBest, choose-Outcome}
use sentinel_rtos.Kernel.Scheduler.Contract.{choose-some, reach_slot, scan_start-current}
use sentinel_rtos.Kernel.Invariant.{IsValid, InTable}
use sentinel_rtos.Kernel.Safety.{Runs}
use sentinel_rtos.Kernel.Safety.Switch.{
  os_tasks-dispatch, os_tasks-preempt, dispatch-objects, dispatch-IsValid,
}

-- The scheduler called `n` times in a row.
unfoldable pub os_scheduler_times : ℕ → M (Unit {0})
os_scheduler_times zero = pure tt
os_scheduler_times (suc n) = do os_scheduler; os_scheduler_times n

-- Task `u` of the table can run, no task that can run has a higher priority, and every canary is in place.
pub record IsDue (u : ℕ) (k : Kernel) : Type 0 where
  pub in_table : u < k.task_count
  pub can_run : runnable (k.os_tasks u).state ≡ true
  pub highest :
      (t : ℕ)
      → t < k.task_count
      → runnable (k.os_tasks t).state ≡ true
      → (k.os_tasks t).current_priority ≤ (k.os_tasks u).current_priority
  pub canaries : (t : ℕ) → t < k.task_count → k.memory (k.os_tasks t).stack_base ≡ stack_canary

-- The rounds of a scan from behind task `c` before it gets to `u`, in a table of `n`.
abbrev distance : ℕ → ℕ → ℕ → ℕ
distance n c u = if ltb c u then u - c - 1 else u + n - c - 1

-- The round of the scan at which a slot is considered.
round_of : (n c j b : ℕ) → c < n → j < n → b < n → (c + 1 + j) % n ≡ b → j ≡ distance n c b
round_of n c j b c_in j_in b_in e = elim (dec_lt (c + 1 + j) n) [
  | yes p ↦ ground (arith, mod-eq_of_lt p)
  | no q ↦ ground (
    arith,
    mod-eq-sub-mod {n = c + 1 + j} {m = n} (omega arith),
    mod-eq_of_lt {n = c + 1 + j - n} {m = n} (omega arith),
  )
]

-- A task is chosen no later than `u`.
chosen_by_then :
    (k : Kernel) (u c : ℕ)
    → IsValid k
    → IsDue u k
    → k.current_tcb ≡ some c
    → c < k.task_count
    → (b : ℕ) × (choose k ≡ some b)
      × (b < k.task_count)
      × (runnable (k.os_tasks b).state ≡ true)
      × (distance k.task_count c b ≤ distance k.task_count c u)
chosen_by_then k u c v d cur c_in =
    let (b, chosen) = choose-some k u v d.in_table d.can_run in
    let best : IsBest k (scan_start k) k.task_count b =
      subst (Outcome k (scan_start k) k.task_count) chosen (choose-Outcome k) in
    let start = scan_start-current k c v cur in
    let b_in : b < k.task_count = rw best.here (omega arith) in
    let (j, below, here) =
      reach_slot (scan_start k) u k.task_count (omega (arith, start)) d.in_table in
    let b_round =
      round_of k.task_count c best.round b c_in best.in_time b_in
        (ap (λ s. (s + best.round) % k.task_count) (sym start) ∙ sym best.here) in
    let u_round =
      round_of k.task_count c j u c_in below d.in_table
        (ap (λ s. (s + j) % k.task_count) (sym start) ∙ here) in
    (
      b,
      chosen,
      b_in,
      best.can_run,
      elim (dec_lt j best.round) [
        | yes earlier ↦
            let lower : (k.os_tasks u).current_priority < (k.os_tasks b).current_priority =
              subst
                (λ i.
                  runnable (k.os_tasks i).state ≡ true
                  → (k.os_tasks i).current_priority < (k.os_tasks b).current_priority)
                here (best.first j earlier) d.can_run in
            absurd (omega (arith, d.highest b b_in best.can_run))
        | no not_earlier ↦ subst₂ ◌≤◌ b_round u_round (omega arith)
      ],
    )

canary-IsDue :
    (k : Kernel) (u c : ℕ)
    → IsDue u k
    → k.current_tcb ≡ some c
    → c < k.task_count
    → canary_intact k ≡ true
unfolding canary_intact
canary-IsDue k u c d cur c_in = ground (arith, d.canaries c c_in)

-- A dispatch changes states only, and none from one that can run to one that cannot.
dispatched_tcb :
    (k : Kernel) (b c t : ℕ)
    → k.current_tcb ≡ some c
    → runnable (k.os_tasks b).state ≡ true
    → let x = (dispatch k b).os_tasks t in
      (runnable x.state ≡ runnable (k.os_tasks t).state)
      × (x.current_priority ≡ (k.os_tasks t).current_priority)
      × (x.stack_base ≡ (k.os_tasks t).stack_base)
dispatched_tcb k b c t cur can = (
  ground (arith, os_tasks-dispatch k b t, os_tasks-preempt k b c t cur),
  ground (arith, os_tasks-dispatch k b t, os_tasks-preempt k b c t cur),
  ground (arith, os_tasks-dispatch k b t, os_tasks-preempt k b c t cur),
)

dispatched_memory : (k : Kernel) (b : ℕ) → (dispatch k b).memory ≡ k.memory
unfolding dispatch preempt
dispatched_memory k b = ground arith

dispatch-IsDue :
    (k : Kernel) (u b c : ℕ)
    → k.current_tcb ≡ some c
    → runnable (k.os_tasks b).state ≡ true
    → IsDue u k
    → IsDue u (dispatch k b)
dispatch-IsDue k u b c cur can d = record {
  in_table = rw (dispatch-objects k b).0 d.in_table;
  can_run = (dispatched_tcb k b c u cur can).0 ∙ d.can_run;
  highest = λ t lt can_t.
      subst₂ ◌≤◌ (sym (dispatched_tcb k b c t cur can).1) (sym (dispatched_tcb k b c u cur can).1) (
        d.highest t (subst (λ n. t < n) (dispatch-objects k b).0 lt)
          (sym (dispatched_tcb k b c t cur can).0 ∙ can_t));
  canaries = λ t lt.
      ap (λ a. (dispatch k b).memory a) (dispatched_tcb k b c t cur can).2
      ∙ ap (λ (m : ℕ → ℕ). m (k.os_tasks t).stack_base) (dispatched_memory k b)
      ∙ d.canaries t (subst (λ n. t < n) (dispatch-objects k b).0 lt);
}

scheduler_step :
    (k : Kernel) (u b c : ℕ)
    → IsDue u k
    → k.current_tcb ≡ some c
    → c < k.task_count
    → choose k ≡ some b
    → os_scheduler k ≡ done tt (dispatch k b)
unfolding os_scheduler switch
scheduler_step k u b c d cur c_in chosen =
    rw (some_tasks, canary-IsDue k u c d cur c_in) (rw (chosen, switch) refl)
  where
    some_tasks : (k.task_count == 0) ≡ false
    some_tasks = ground (arith, d.in_table)

dispatch-Runs : (k : Kernel) (b : ℕ) → Runs (dispatch k b) b
unfolding dispatch
dispatch-Runs k b = record {
  is_current = refl;
  is_running = ap (λ (t : Tcb). t.state) (os_tasks-dispatch k b b) ∙ ground arith;
}

-- A task of the distance between `b` and `c` and not `b` is nearer to `b`.
nearer :
    (n c b u : ℕ)
    → c < n
    → b < n
    → u < n
    → b ≢ u
    → distance n c b ≤ distance n c u
    → distance n b u < distance n c u
nearer n c b u c_in b_in u_in ne le = ground arith

one_less : {a b c : ℕ} → a < b → b < c + 1 → a < c
one_less h g = omega arith

within :
    (left : ℕ) (k : Kernel) (u c : ℕ)
    → IsValid k
    → IsDue u k
    → k.current_tcb ≡ some c
    → distance k.task_count c u < left
    → (i : ℕ) × (k' : Kernel) × (i ≤ left) × (os_scheduler_times i k ≡ done tt k') × Runs k' u
unfolding os_scheduler_times bind
within zero k u c v d cur near = absurd (omega arith)
within (suc left) k u c v d cur near =
    let c_in : c < k.task_count = subst (InTable k.task_count) cur v.current_in in
    let (b, chosen, b_in, can, soon) = chosen_by_then k u c v d cur c_in in
    let step = scheduler_step k u b c d cur c_in chosen in
    elim (ℕ_discrete b u) [
      | yes e ↦ (
        1,
        dispatch k b,
        omega arith,
        rw step refl,
        subst (λ t. Runs (dispatch k b) t) e (dispatch-Runs k b),
      )
      | no ne ↦
          let closer : distance k.task_count b u < left =
            one_less (nearer k.task_count c b u c_in b_in d.in_table ne soon) (omega arith) in
          let (i, k', few, returned, runs) =
            within left (dispatch k b) u b (dispatch-IsValid k b b_in can v)
              (dispatch-IsDue k u b c cur can d) (dispatch-Runs k b).is_current
              (subst (λ n. distance n b u < left) (sym (dispatch-objects k b).0) closer) in
          (suc i, k', omega arith, rw step returned, runs)
    ]

-- No task of the highest priority is passed over. In a well-formed state with a running task, every canary
-- in place and nothing but switches, a task that can run, and than which none that can run has a
-- higher priority, gets the processor within as many calls of the scheduler as there are tasks.
pub os_scheduler_in_turn :
    (k : Kernel) (u c : ℕ)
    → IsValid k
    → IsDue u k
    → k.current_tcb ≡ some c
    → (i : ℕ) × (k' : Kernel) × (i ≤ k.task_count)
      × (os_scheduler_times i k ≡ done tt k')
      × Runs k' u
os_scheduler_in_turn k u c v d cur =
    let c_in : c < k.task_count = subst (InTable k.task_count) cur v.current_in in
    within k.task_count k u c v d cur (ground (arith, d.in_table))
