-- ===== src/Bench/PingPong/RoundTrip.antt =====
-- The measured loop of the context switch benchmark of Bench/microbench.c, with the scheduler between its tasks.
use sentinel_rtos.Base.{ℕ, zero, suc, ◌*◌, ◌≤◌, ◌≡◌, ◌≢◌, refl, ap, ◌∙◌, true, false, some, arith}
use sentinel_rtos.Kernel.State.{Kernel, running, blocked, wait_forever}
use sentinel_rtos.Kernel.Run.{M, done, yielded, bind, ◌>>=◌, ◌>>◌}
use sentinel_rtos.Kernel.Blocking.{resume, resume_lem}
use sentinel_rtos.Kernel.Scheduler.{os_scheduler}
use sentinel_rtos.Kernel.Semaphore.{os_semaphore_acquire, os_semaphore_release}
use sentinel_rtos.Bench.PingPong.{ping_rounds, bench_pong_task, rescheduled, is_current, in_turn}
use sentinel_rtos.Bench.PingPong.Stages.{Stage}
use sentinel_rtos.Bench.PingPong.Steps.{
  gives_pong, switches_to_b, gives_ping, waits_again, switches_to_a, takes_ping,
}

rescheduled_to : (k : Kernel) {k1 : Kernel} → os_scheduler k ≡ done tt k1 → rescheduled k ≡ some k1
unfolding rescheduled
rescheduled_to k e = rw (e, rescheduled)

current_is : (k : Kernel) (a : ℕ) → k.current_tcb ≡ some a → is_current k a ≡ true
unfolding is_current
current_is k a e = ground arith

current_is_other : (k : Kernel) (a b : ℕ) → a ≢ b → k.current_tcb ≡ some b → is_current k a ≡ false
unfolding is_current
current_is_other k a b other e = ground arith

module _ (n a : ℕ) (f g : M (Unit {0})) (k : Kernel) where
  in_turn_own :
      (k1 k2 : Kernel) (h : M (Unit {0}))
      → is_current k a ≡ true
      → f k ≡ yielded k1 h
      → os_scheduler k1 ≡ done tt k2
      → in_turn (suc n) a f g k ≡ in_turn n a h g k2
  unfolding in_turn
  in_turn_own k1 k2 h own stops next = rw (own, in_turn, stops, rescheduled_to k1 next, own)

  in_turn_other :
      (k1 k2 : Kernel) (h : M (Unit {0}))
      → is_current k a ≡ false
      → g k ≡ yielded k1 h
      → os_scheduler k1 ≡ done tt k2
      → in_turn (suc n) a f g k ≡ in_turn n a f h k2
  unfolding in_turn
  in_turn_other k1 k2 h other stops next = rw (other, in_turn, stops, rescheduled_to k1 next, other)

-- Only what task `a` does next counts.
in_turn_start :
    (n a : ℕ) (f f' g : M (Unit {0})) (k k' : Kernel)
    → is_current k a ≡ true
    → is_current k' a ≡ true
    → f k ≡ f' k'
    → in_turn n a f g k ≡ in_turn n a f' g k'
unfolding in_turn
in_turn_start zero a f f' g k k' own own' same = ground (arith, own, own', same)
in_turn_start (suc n) a f f' g k k' own own' same = ground (arith, own, own', same)

-- What is left of `bench_pong_task` once its acquire has stopped, with `m` rounds after this one.
abbrev pub pong_waits : ℕ → ℕ → ℕ → M (Unit {0})
pong_waits ping_sem pong_sem m =
    resume >>= λ _. os_semaphore_release ping_sem >> bench_pong_task ping_sem pong_sem m

pong_goes_on :
    (k k1 k2 : Kernel) (b ping_sem pong_sem m : ℕ)
    → k.current_tcb ≡ some b
    → os_semaphore_release ping_sem k ≡ done tt k1
    → os_semaphore_acquire pong_sem wait_forever k1 ≡ yielded k2 resume
    → pong_waits ping_sem pong_sem (suc m) k ≡ yielded k2 (pong_waits ping_sem pong_sem m)
unfolding bench_pong_task bind
pong_goes_on k k1 k2 b ping_sem pong_sem m current gives waits =
    ap
      (λ r.
        bind r (λ _. os_semaphore_release ping_sem >> bench_pong_task ping_sem pong_sem (suc m)))
      (resume_lem k b current)
    ∙ rw (gives, waits) refl

module _ (a b ping_sem pong_sem : ℕ) where
  -- Ping runs, and pong waits for it.
  abbrev pub IsInStep : Kernel → Type 0
  IsInStep = Stage a b ping_sem pong_sem a running blocked 0 true

  trip :
      (n m j : ℕ) (k : Kernel)
      → IsInStep k
      → (k1 : Kernel) × IsInStep k1
        × (in_turn
              (suc (suc j))
              a
              (ping_rounds ping_sem pong_sem (suc n))
              (pong_waits ping_sem pong_sem (suc m))
              k
            ≡ in_turn j a (ping_rounds ping_sem pong_sem n) (pong_waits ping_sem pong_sem m) k1)
  unfolding ping_rounds bind
  trip n m j k s0 =
      let (k1, given, s1) = gives_pong a b ping_sem pong_sem k s0 in
      let (k2, to_b, s2) = switches_to_b a b ping_sem pong_sem k1 s1 in
      let (k3, gives, s3) = gives_ping a b ping_sem pong_sem k2 s2 in
      let (k4, waits, s4) = waits_again a b ping_sem pong_sem k3 s3 in
      let (k5, to_a, s5) = switches_to_a a b ping_sem pong_sem k4 s4 in
      let (k6, taken, s6) = takes_ping a b ping_sem pong_sem k5 s5 in
      let onward : M (Unit {0}) =
        os_semaphore_acquire ping_sem wait_forever >>= λ _. ping_rounds ping_sem pong_sem n in
      (
        k6,
        s6,
        in_turn_own (suc j) a _ _ k k1 k2 onward (current_is k a s0.runs) (rw given refl) to_b
            ∙ in_turn_other j a onward _ k2 k4 k5 (pong_waits ping_sem pong_sem m)
                (current_is_other k2 a b s0.pair.two s2.runs)
                (pong_goes_on k2 k3 k4 b ping_sem pong_sem m s2.runs gives waits) to_a
            ∙ in_turn_start j a onward (ping_rounds ping_sem pong_sem n) _ k5 k6
                (current_is k5 a s5.runs) (current_is k6 a s6.runs) (rw taken refl),
      )

  -- Without interrupts in between, with ping running and pong, of the same priority above all other tasks, waiting for its token: whatever `n`
  -- is, the `n` rounds of ping's loop take exactly two switches each, decided by the scheduler, while pong has as many rounds
  -- to go, and leave the two tasks as they were, with no token left over.
  pub ping_rounds-in_turn :
      (n m : ℕ) (k : Kernel)
      → n ≤ m
      → IsInStep k
      → (k' : Kernel) × (in_turn
            (2 * n)
            a
            (ping_rounds ping_sem pong_sem n)
            (pong_waits ping_sem pong_sem m)
            k
          ≡ some k')
        × IsInStep k'
  unfolding ping_rounds in_turn
  ping_rounds-in_turn zero m k enough s = (k, rw (current_is k a s.runs), s)
  ping_rounds-in_turn (suc n) zero k enough s = absurd (omega arith)
  ping_rounds-in_turn (suc n) (suc m) k enough s =
      let (k1, s1, once) = trip n m (2 * n) k s in
      let (k', rest, s') = ping_rounds-in_turn n m k1 (omega arith) s1 in
      let twice : 2 * suc n ≡ suc (suc (2 * n)) = omega arith in
      (
        k',
        ap
              (λ j.
                in_turn j a (ping_rounds ping_sem pong_sem (suc n))
                  (pong_waits ping_sem pong_sem (suc m)) k)
              twice
            ∙ once
            ∙ rest,
        s',
      )
