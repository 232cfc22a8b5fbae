-- ===== src/Kernel/WaitQueue/Choice.antt =====
-- `pick_waiter` of Kernel/os_kernel.c: the highest priority, and the first among equals.
use mathlib.Core.List.{append_assoc, append-nil}
use sentinel_rtos.Base.{
  ℕ, zero, suc, ◌+◌, ◌≤◌, ◌<◌, ◌≡◌, refl, ap, subst, inl, inr, Option, none, some, List, [], ◌∷◌,
  ◌++◌, arith, ltb, elements, length, Bool-cases, Option-cases,
}
use sentinel_rtos.Base.All.{All, All-append, All-map}
use sentinel_rtos.Base.Occurs.{occurs, occurs-append, occurs-le-length}
use sentinel_rtos.Kernel.State.{WaitQueue, Tcb}
use sentinel_rtos.Kernel.WaitQueue.{better, pick_from, pick_waiter, waiting}
use sentinel_rtos.Kernel.WaitQueue.Lists.{length-waiting}

module _ (tasks : ℕ → Tcb) where
  -- Task `b` is in the list, every task before it has a lower priority, and none after it a higher.
  pub record IsFirstHighest (xs : List ℕ) (b : ℕ) : Type 0 where
    pub before : List ℕ
    pub after : List ℕ
    pub splits : xs ≡ before ++ (b ∷ after)
    pub lower : All (λ t. (tasks t).current_priority < (tasks b).current_priority) before
    pub no_higher : All (λ t. (tasks t).current_priority ≤ (tasks b).current_priority) after

  -- The choice from a list: none from the empty list alone.
  abbrev pub Chosen : List ℕ → Option ℕ → Type 0
  Chosen xs none = xs ≡ []
  Chosen xs (some b) = IsFirstHighest xs b

  better_replaces :
      (xs : List ℕ) (b t : ℕ)
      → (tasks b).current_priority < (tasks t).current_priority
      → IsFirstHighest xs b
      → IsFirstHighest (xs ++ (t ∷ [])) t
  better_replaces xs b t h c = record {
    before = xs;
    after = [];
    splits = refl;
    lower = rw c.splits (
        All-append _ c.before (b ∷ c.after) (All-map _ _ c.before (λ x p. omega arith) c.lower)
          (h, All-map _ _ c.after (λ x p. omega arith) c.no_higher));
    no_higher = tt;
  }

  better_keeps :
      (xs : List ℕ) (b t : ℕ)
      → (tasks t).current_priority ≤ (tasks b).current_priority
      → IsFirstHighest xs b
      → IsFirstHighest (xs ++ (t ∷ [])) b
  better_keeps xs b t h c = record {
    before = c.before;
    after = c.after ++ (t ∷ []);
    splits = rw c.splits (append_assoc c.before (b ∷ c.after) (t ∷ []));
    lower = c.lower;
    no_higher = All-append _ c.after (t ∷ []) c.no_higher (h, tt);
  }

  better-Chosen :
      (xs : List ℕ) (t : ℕ) (o : Option ℕ)
      → Chosen xs o
      → Chosen (xs ++ (t ∷ [])) (better tasks t o)
  unfolding better
  better-Chosen xs t none c = record {
    before = [];
    after = [];
    splits = rw c;
    lower = tt;
    no_higher = tt;
  }
  better-Chosen xs t (some b) c =
      elim (Bool-cases (ltb (tasks b).current_priority (tasks t).current_priority)) [
        | inl e ↦ rw e (better_replaces xs b t (ground arith) c)
        | inr e ↦ rw e (better_keeps xs b t (ground arith) c)
      ]

  pick_from-Chosen :
      (slots : ℕ → ℕ) (i n : ℕ) (xs : List ℕ) (o : Option ℕ)
      → Chosen xs o
      → Chosen (xs ++ elements slots i n) (pick_from tasks slots i n o)
  unfolding pick_from
  pick_from-Chosen slots i zero xs o c = rw append-nil c
  pick_from-Chosen slots i (suc n) xs o c =
      subst (λ l. Chosen l (pick_from tasks slots (i + 1) n (better tasks (slots i) o)))
        (append_assoc xs (slots i ∷ []) (elements slots (i + 1) n))
        (pick_from-Chosen slots (i + 1) n (xs ++ (slots i ∷ [])) (better tasks (slots i) o)
          (better-Chosen xs (slots i) o c))

  -- `pick_waiter` takes the first of the waiters with the highest priority, and nothing only from
  -- an empty queue.
  pub pick_waiter-Chosen : (q : WaitQueue) → Chosen (waiting q) (pick_waiter tasks q)
  unfolding pick_waiter waiting
  pick_waiter-Chosen q = pick_from-Chosen q.slots 0 q.wait_count [] none refl

  pub pick_waiter-occurs :
      (q : WaitQueue) (t : ℕ) → pick_waiter tasks q ≡ some t → 1 ≤ occurs t (waiting q)
  unfolding occurs
  pick_waiter-occurs q t e =
      let c : IsFirstHighest (waiting q) t = subst (Chosen (waiting q)) e (pick_waiter-Chosen q) in
      rw c.splits (ground (arith, occurs-append t c.before (t ∷ c.after)))

  pub pick_waiter-none : (q : WaitQueue) → pick_waiter tasks q ≡ none → q.wait_count ≡ 0
  pick_waiter-none q e =
      let c : waiting q ≡ [] = subst (Chosen (waiting q)) e (pick_waiter-Chosen q) in
      omega (arith, length-waiting q, ap length c)

  pub pick_waiter-some : (q : WaitQueue) (t : ℕ) → pick_waiter tasks q ≡ some t → 1 ≤ q.wait_count
  pick_waiter-some q t e =
      omega (arith, length-waiting q, occurs-le-length t (waiting q), pick_waiter-occurs q t e)

  pub pick_waiter_empty : (q : WaitQueue) → q.wait_count ≡ 0 → pick_waiter tasks q ≡ none
  unfolding pick_waiter pick_from
  pick_waiter_empty q e = rw (e, pick_from)

-- The choice depends on the priorities only.
pub IsFirstHighest-ext :
    (f g : ℕ → Tcb) (xs : List ℕ) (b : ℕ)
    → ((t : ℕ) → (f t).current_priority ≡ (g t).current_priority)
    → IsFirstHighest f xs b
    → IsFirstHighest g xs b
IsFirstHighest-ext f g xs b same c = record {
  before = c.before;
  after = c.after;
  splits = c.splits;
  lower = All-map _ _ c.before (λ t h. omega (arith, same t, same b)) c.lower;
  no_higher = All-map _ _ c.after (λ t h. omega (arith, same t, same b)) c.no_higher;
}

-- A queue with a waiter has a choice.
pub pick_waiter_finds :
    (tasks : ℕ → Tcb) (q : WaitQueue)
    → 0 < q.wait_count
    → (t : ℕ) × (pick_waiter tasks q ≡ some t) × IsFirstHighest tasks (waiting q) t
pick_waiter_finds tasks q h = elim (Option-cases (pick_waiter tasks q)) [
  | inl e ↦ absurd (omega (arith, pick_waiter-none tasks q e))
  | inr (t, e) ↦ (t, e, subst (Chosen tasks (waiting q)) e (pick_waiter-Chosen tasks q))
]
