-- ===== src/Kernel/Scheduler/Choice.antt =====
-- The task that `os_scheduler` of Kernel/os_kernel.c picks: the highest priority, and the first in
-- rotation from the running task on among equals.
use sentinel_rtos.Base.{
  ℕ, zero, suc, ◌+◌, ◌%◌, ◌<◌, ◌≤◌, ◌≡◌, refl, inl, inr, true, false, Option, none, some, ltb, ◌&&◌,
  arith, Bool-cases, subst, dec_lt,
}
use native.Mathlib.Nat.{add-zero}
use sentinel_rtos.Kernel.State.{Kernel}
use sentinel_rtos.Kernel.Scheduler.{runnable, consider, scan, scan_start, choose}

module _ (k : Kernel) (start : ℕ) where
  -- The task that round `i` of the loop looks at.
  abbrev pub at_round : ℕ → ℕ
  at_round i = (start + i) % k.task_count

  abbrev pub CanRun : ℕ → Type 0
  CanRun t = runnable (k.os_tasks t).state ≡ true

  -- `b` is the best task of the first `n` rounds: runnable, no runnable task of them has a higher
  -- priority, and those of the rounds before its own have lower ones.
  pub record IsBest (n b : ℕ) : Type 0 where
    pub round : ℕ
    pub in_time : round < n
    pub here : b ≡ at_round round
    pub can_run : CanRun b
    pub highest :
        (j : ℕ)
        → j < n
        → CanRun (at_round j)
        → (k.os_tasks (at_round j)).current_priority ≤ (k.os_tasks b).current_priority
    pub first :
        (j : ℕ)
        → j < round
        → CanRun (at_round j)
        → (k.os_tasks (at_round j)).current_priority < (k.os_tasks b).current_priority

  -- The outcome of `n` rounds: nothing only if no task of them can run.
  abbrev pub Outcome : ℕ → Option ℕ → Type 0
  Outcome n none = (j : ℕ) → j < n → runnable (k.os_tasks (at_round j)).state ≡ false
  Outcome n (some b) = IsBest n b

  abbrev priority_at : ℕ → ℕ
  priority_at i = (k.os_tasks (at_round i)).current_priority

  -- What holds of the first `n` rounds and of the next one holds of the first `n + 1`.
  up_to_next : (P : ℕ → Type 0) (n : ℕ) → ((j : ℕ) → j < n → P j) → P n → (j : ℕ) → j < n + 1 → P j
  up_to_next P n below here j lt = elim (dec_lt j n) [
    | yes h ↦ below j h
    | no h ↦ let e : j ≡ n = omega arith in rw e here
  ]

  consider-first : (n : ℕ) → Outcome n none → CanRun (at_round n) → IsBest (n + 1) (at_round n)
  consider-first n o can = record {
    round = n;
    in_time = omega arith;
    here = refl;
    can_run = can;
    highest =
        up_to_next (λ j. CanRun (at_round j) → priority_at j ≤ priority_at n) n
          (λ j lt run. ground (arith, o j)) (λ run. omega arith);
    first = λ j lt run. ground (arith, o j);
  }

  consider-replaces :
      (n b : ℕ)
      → IsBest n b
      → CanRun (at_round n)
      → (k.os_tasks b).current_priority < priority_at n
      → IsBest (n + 1) (at_round n)
  consider-replaces n b best can lower = record {
    round = n;
    in_time = omega arith;
    here = refl;
    can_run = can;
    highest =
        up_to_next (λ j. CanRun (at_round j) → priority_at j ≤ priority_at n) n
          (λ j lt run. omega (arith, best.highest j lt run)) (λ run. omega arith);
    first = λ j lt run. omega (arith, best.highest j lt run);
  }

  consider-keeps :
      (n b : ℕ)
      → IsBest n b
      → (CanRun (at_round n) → priority_at n ≤ (k.os_tasks b).current_priority)
      → IsBest (n + 1) b
  consider-keeps n b best h = record {
    round = best.round;
    in_time = omega (arith, best.in_time);
    here = best.here;
    can_run = best.can_run;
    highest =
        up_to_next (λ j. CanRun (at_round j) → priority_at j ≤ (k.os_tasks b).current_priority) n
          best.highest h;
    first = best.first;
  }

  consider-Outcome :
      (n : ℕ) (o : Option ℕ) → Outcome n o → Outcome (n + 1) (consider k (at_round n) o)
  unfolding consider
  consider-Outcome n none out = elim (Bool-cases (runnable (k.os_tasks (at_round n)).state)) [
    | inl can ↦ rw can (consider-first n out can)
    | inr cannot ↦
        rw cannot (up_to_next (λ j. runnable (k.os_tasks (at_round j)).state ≡ false) n out cannot)
  ]
  consider-Outcome n (some b) out =
      elim (Bool-cases (
        runnable (k.os_tasks (at_round n)).state
        && ltb (k.os_tasks b).current_priority (priority_at n))) [
          | inl e ↦ rw e (consider-replaces n b out (ground arith) (ground arith))
          | inr e ↦ rw e (consider-keeps n b out (λ run. ground arith))
        ]

  scan-Outcome : (n i : ℕ) (o : Option ℕ) → Outcome i o → Outcome (i + n) (scan k start n i o)
  unfolding scan
  scan-Outcome zero i o out = rw add-zero out
  scan-Outcome (suc n) i o out =
      subst (λ m. Outcome m (scan k start n (i + 1) (consider k (at_round i) o))) (omega arith)
        (scan-Outcome n (i + 1) (consider k (at_round i) o) (consider-Outcome i o out))

-- The scan of all slots picks the best task in rotation, and nothing only if no task can run.
pub choose-Outcome : (k : Kernel) → Outcome k (scan_start k) k.task_count (choose k)
unfolding choose
choose-Outcome k =
    subst (λ m. Outcome k (scan_start k) m (choose k)) (omega arith)
      (scan-Outcome k (scan_start k) k.task_count 0 none (λ j lt. absurd (omega arith)))
