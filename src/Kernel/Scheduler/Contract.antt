-- ===== src/Kernel/Scheduler/Contract.antt =====
-- What `os_scheduler` of Kernel/os_kernel.c promises: the highest priority runs, and tasks of equal
-- priority take turns.
use native.Mathlib.Nat.{mod-eq_of_lt, mod-eq-sub-mod}
use mathlib.Core.Bool.{false≢true}
use sentinel_rtos.Base.{
  ℕ, ◌+◌, ◌-◌, ◌%◌, ◌<◌, ◌≤◌, ◌≡◌, ◌≢◌, ◌∙◌, sym, ap, subst, inl, inr, true, false, none, some,
  ◌==◌, dec_lt, arith, Option-cases,
}
use sentinel_rtos.Kernel.State.{Kernel}
use sentinel_rtos.Kernel.Run.{done}
use sentinel_rtos.Kernel.Scheduler.{
  runnable, scan_start, choose, dispatch, switch, canary_intact, os_scheduler,
}
use sentinel_rtos.Kernel.Scheduler.Choice.{Outcome, IsBest, choose-Outcome}
use sentinel_rtos.Kernel.Invariant.{IsValid, InTable}

-- From a start in the table or just behind it, `n` rounds reach every slot.
pub reach_slot : (start t n : ℕ) → start ≤ n → t < n → (j : ℕ) × (j < n) × ((start + j) % n ≡ t)
reach_slot start t n hs ht = elim (dec_lt t start) [
  | yes before ↦ (
    t + n - start,
    omega arith,
    mod-eq-sub-mod {n = start + (t + n - start)} {m = n} (omega arith)
        ∙ ap (λ x. x % n) (omega arith)
        ∙ mod-eq_of_lt ht,
  )
  | no behind ↦ (t - start, omega arith, ap (λ x. x % n) (omega arith) ∙ mod-eq_of_lt ht)
]

scan_start-le : (k : Kernel) → IsValid k → scan_start k ≤ k.task_count
unfolding scan_start
scan_start-le k v = ground (arith, v.current_in, v.few)

pub choose-some :
    (k : Kernel) (t : ℕ)
    → IsValid k
    → t < k.task_count
    → runnable (k.os_tasks t).state ≡ true
    → (b : ℕ) × (choose k ≡ some b)
choose-some k t v lt can = elim (Option-cases (choose k)) [
  | inl e ↦ absurd (nothing e)
  | inr found ↦ found
]
  where
    nothing : choose k ≡ none → ⊥
    nothing e =
        let (j, below, here) = reach_slot (scan_start k) t k.task_count (scan_start-le k v) lt in
        let o : Outcome k (scan_start k) k.task_count none =
          subst (Outcome k (scan_start k) k.task_count) e (choose-Outcome k) in
        false≢true (sym (o j below) ∙ ap (λ i. runnable (k.os_tasks i).state) here ∙ can)

pub best-highest :
    (k : Kernel) (b u : ℕ)
    → IsValid k
    → IsBest k (scan_start k) k.task_count b
    → u < k.task_count
    → runnable (k.os_tasks u).state ≡ true
    → (k.os_tasks u).current_priority ≤ (k.os_tasks b).current_priority
best-highest k b u v best lt can =
    let (j, below, here) = reach_slot (scan_start k) u k.task_count (scan_start-le k v) lt in
    subst
      (λ i.
        runnable (k.os_tasks i).state ≡ true
        → (k.os_tasks i).current_priority ≤ (k.os_tasks b).current_priority)
      here (best.highest j below) can

-- In a well-formed state, with the canary of the running task in place and some task `t` that can run,
-- `os_scheduler` returns with a task of the table dispatched that can run, and no task that can run
-- has a higher priority.
pub os_scheduler_highest :
    (k : Kernel) (t : ℕ)
    → IsValid k
    → canary_intact k ≡ true
    → t < k.task_count
    → runnable (k.os_tasks t).state ≡ true
    → (b : ℕ) × (os_scheduler k ≡ done tt (dispatch k b))
      × (b < k.task_count)
      × (runnable (k.os_tasks b).state ≡ true)
      × ((u : ℕ)
          → u < k.task_count
          → runnable (k.os_tasks u).state ≡ true
          → (k.os_tasks u).current_priority ≤ (k.os_tasks b).current_priority)
unfolding os_scheduler switch
os_scheduler_highest k t v intact lt can =
    let (b, chosen) = choose-some k t v lt can in
    let best : IsBest k (scan_start k) k.task_count b =
      subst (Outcome k (scan_start k) k.task_count) chosen (choose-Outcome k) in
    (
      b,
      rw (non_empty, intact) (rw (chosen, switch)),
      rw best.here (omega arith),
      best.can_run,
      λ u. best-highest k b u v best,
    )
  where
    non_empty : (k.task_count == 0) ≡ false
    non_empty = ground arith

current-lt : (k : Kernel) (c : ℕ) → IsValid k → k.current_tcb ≡ some c → c < k.task_count
current-lt k c v cur = subst (InTable k.task_count) cur v.current_in

pub scan_start-current :
    (k : Kernel) (c : ℕ) → IsValid k → k.current_tcb ≡ some c → scan_start k ≡ c + 1
unfolding scan_start
scan_start-current k c v cur = ground (arith, current-lt k c v cur, v.few)

-- The running task comes last in the scan.
last_round :
    (k : Kernel) (c j : ℕ)
    → IsValid k
    → k.current_tcb ≡ some c
    → j < k.task_count
    → (scan_start k + j) % k.task_count ≡ c
    → j + 1 ≡ k.task_count
last_round k c j v cur lt e = elim (dec_lt (c + 1 + j) k.task_count) [
  | yes p ↦ absurd (omega (arith, mod-eq_of_lt p, from_next))
  | no q ↦ omega (
    arith,
    from_next,
    current-lt k c v cur,
    mod-eq-sub-mod {n = c + 1 + j} {m = k.task_count} (omega arith),
    mod-eq_of_lt {n = c + 1 + j - k.task_count} {m = k.task_count}
        (omega (arith, current-lt k c v cur)),
  )
]
  where
    from_next : (c + 1 + j) % k.task_count ≡ c
    from_next = ap (λ s. (s + j) % k.task_count) (sym (scan_start-current k c v cur)) ∙ e

le_not_lt : {a b : ℕ} → a ≤ b → b < a → ⊥
le_not_lt h g = omega arith

-- In a well-formed state, while another task of at least the same priority can run, the running
-- task is not chosen again.
pub choose_rotates :
    (k : Kernel) (c u : ℕ)
    → IsValid k
    → k.current_tcb ≡ some c
    → u < k.task_count
    → u ≢ c
    → runnable (k.os_tasks u).state ≡ true
    → (k.os_tasks c).current_priority ≤ (k.os_tasks u).current_priority
    → choose k ≢ some c
choose_rotates k c u v cur lt other can high chosen =
    let best : IsBest k (scan_start k) k.task_count c =
      subst (Outcome k (scan_start k) k.task_count) chosen (choose-Outcome k) in
    let (j, below, here) = reach_slot (scan_start k) u k.task_count (scan_start-le k v) lt in
    let last = last_round k c best.round v cur best.in_time (sym best.here) in
    elim (dec_lt j best.round) [
      | yes earlier ↦ le_not_lt high (
          subst
            (λ i.
              runnable (k.os_tasks i).state ≡ true
              → (k.os_tasks i).current_priority < (k.os_tasks c).current_priority)
            here (best.first j earlier) can)
      | no not_earlier ↦
          let same : j ≡ best.round = omega (arith, best.in_time) in
          other (sym here ∙ ap (λ i. (scan_start k + i) % k.task_count) same ∙ sym best.here)
    ]
