-- ===== src/Bench/PingPong/Steps.antt =====
-- The steps of a round trip of the two tasks of Bench/microbench.c.
use sentinel_rtos.Base.{ℕ, ◌≡◌, refl, sym, ap, subst, Bool, true, false, arith}
use sentinel_rtos.Kernel.State.{
  Kernel, TaskState, ready, running, blocked, os_success, os_yield, wait_forever,
}
use sentinel_rtos.Kernel.Run.{done, yielded}
use sentinel_rtos.Kernel.WaitQueue.{park}
use sentinel_rtos.Kernel.Blocking.{resume}
use sentinel_rtos.Kernel.Semaphore.{os_semaphore_acquire, os_semaphore_release}
use sentinel_rtos.Kernel.Semaphore.Branches.{
  waiting_for, acquire_waits, acquire_token, release_room,
}
use sentinel_rtos.Kernel.Scheduler.{runnable, canary_intact, dispatch, os_scheduler}
use sentinel_rtos.Kernel.Invariant.{IsValid}
use sentinel_rtos.Kernel.Safety.{Stops}
use sentinel_rtos.Kernel.Safety.Switch.{
  dispatch-IsValid, os_tasks-dispatch, os_tasks-preempt, dispatch-objects,
}
use sentinel_rtos.Kernel.Safety.Tokens.{os_semaphore_acquire-IsValid, os_semaphore_release-IsValid}
use sentinel_rtos.Queue.Polled.{given, taken}
use sentinel_rtos.Kernel.Scheduler.Next.{os_scheduler-next}
use sentinel_rtos.Kernel.Semaphore.Only.{woken, release_to_only}
use sentinel_rtos.Bench.PingPong.Stages.{Stage, Pair-kept, dispatch-Keeps, written-Keeps}

module _ (a b ping_sem pong_sem : ℕ) (k : Kernel) where
  abbrev At : ℕ → TaskState → TaskState → ℕ → Bool → Kernel → Type 0
  At = Stage a b ping_sem pong_sem

  -- Ping gives pong's token away.
  pub gives_pong :
      At a running blocked 0 true k
      → (k1 : Kernel) × (os_semaphore_release pong_sem k ≡ yielded k1 (done tt))
        × At a running ready 0 false k1
  unfolding os_yield
  gives_pong s =
      let stops = release_to_only k pong_sem b s.queue.1 s.queue.2 s.queue.0 in
      let valid : IsValid (os_yield (woken k pong_sem b)) =
        subst (Stops IsValid) stops (os_semaphore_release-IsValid k pong_sem s.pair.valid) in
      let k1 = os_yield (woken k pong_sem b) in
      let keeps =
        written-Keeps a b ping_sem pong_sem k k1.os_tasks k1.semaphores true (λ u e. ground arith)
          (ground arith) (ground arith) (ground arith) (ground (arith, s.pair.sems))
          (ground arith) in
      (
        os_yield (woken k pong_sem b),
        stops,
        record {
          pair = Pair-kept a b ping_sem pong_sem k _ s.pair keeps valid;
          runs = s.runs;
          a_is = ground (arith, s.a_is, s.pair.two);
          b_is = ground arith;
          ping_count = ground (arith, s.ping_count, s.pair.sems);
          queue = ground arith;
        },
      )

  -- The switch to pong.
  pub switches_to_b :
      At a running ready 0 false k
      → (k1 : Kernel) × (os_scheduler k ≡ done tt k1) × At b ready running 0 false k1
  unfolding canary_intact
  switches_to_b s =
      let p = s.pair in
      let can : runnable (k.os_tasks b).state ≡ true = ap runnable s.b_is in
      (
        dispatch k b,
        os_scheduler-next k a b p.valid (ground (arith, s.runs, p.canary_a)) s.runs p.b_in
            (λ e. p.two (sym e)) can (ground (arith, p.equal))
            (λ u lt not_b not_a run. ground (arith, p.equal, p.lower u lt not_a not_b run)),
        record {
          pair =
              Pair-kept a b ping_sem pong_sem k _ p (dispatch-Keeps a b ping_sem pong_sem k b can)
                (dispatch-IsValid k b p.b_in can p.valid);
          runs = (dispatch-objects k b).3;
          a_is =
              ground
                (arith, os_tasks-dispatch k b a, os_tasks-preempt k b a a s.runs, s.a_is, p.two);
          b_is = ground (arith, os_tasks-dispatch k b b);
          ping_count = rw (dispatch-objects k b).2 s.ping_count;
          queue = rw (dispatch-objects k b).2 s.queue;
        },
      )

  -- The switch back.
  pub switches_to_a :
      At b ready blocked 1 true k
      → (k1 : Kernel) × (os_scheduler k ≡ done tt k1) × At a running blocked 1 true k1
  unfolding canary_intact
  switches_to_a s =
      let p = s.pair in
      let can : runnable (k.os_tasks a).state ≡ true = ap runnable s.a_is in
      (
        dispatch k a,
        os_scheduler-next k b a p.valid (ground (arith, s.runs, p.canary_b)) s.runs p.a_in p.two can
            (ground (arith, p.equal)) (λ u lt not_a not_b run. p.lower u lt not_a not_b run),
        record {
          pair =
              Pair-kept a b ping_sem pong_sem k _ p (dispatch-Keeps a b ping_sem pong_sem k a can)
                (dispatch-IsValid k a p.a_in can p.valid);
          runs = (dispatch-objects k a).3;
          a_is = ground (arith, os_tasks-dispatch k a a);
          b_is =
              ground
                (arith, os_tasks-dispatch k a b, os_tasks-preempt k a b b s.runs, s.b_is, p.two);
          ping_count = rw (dispatch-objects k a).2 s.ping_count;
          queue = (
            ground
                (arith, os_tasks-dispatch k a b, os_tasks-preempt k a b b s.runs, s.queue, p.two),
            rw (dispatch-objects k a).2 s.queue.1,
            rw (dispatch-objects k a).2 s.queue.2,
          );
        },
      )

  -- Pong's gift, for which nobody waits.
  pub gives_ping :
      At b ready running 0 false k
      → (k1 : Kernel) × (os_semaphore_release ping_sem k ≡ done tt k1)
        × At b ready running 1 false k1
  gives_ping s =
      let p = s.pair in
      let k1 = given k ping_sem in
      let stops = release_room k ping_sem p.ping_idle (ground (arith, s.ping_count, p.ping_max)) in
      let valid : IsValid k1 =
        subst (Stops IsValid) stops (os_semaphore_release-IsValid k ping_sem p.valid) in
      let keeps =
        written-Keeps a b ping_sem pong_sem k k.os_tasks k1.semaphores k.pend_sv (λ u e. refl) refl
          refl (ground arith) (ground arith) (ground (arith, p.sems)) in
      (
        k1,
        stops,
        record {
          pair = Pair-kept a b ping_sem pong_sem k k1 p keeps valid;
          runs = s.runs;
          a_is = s.a_is;
          b_is = s.b_is;
          ping_count = ground (arith, s.ping_count);
          queue = ground (arith, s.queue, p.sems);
        },
      )

  -- Pong waits for the next token.
  pub waits_again :
      At b ready running 1 false k
      → (k1 : Kernel) × (os_semaphore_acquire pong_sem wait_forever k ≡ yielded k1 resume)
        × At b ready blocked 1 true k1
  unfolding os_yield park
  waits_again s =
      let p = s.pair in
      let k1 = waiting_for k pong_sem b wait_forever in
      let stops =
        acquire_waits k pong_sem b wait_forever p.live s.runs p.pong_none (omega (arith, s.queue))
          (omega arith) in
      let valid : IsValid k1 = subst (Stops IsValid) stops (
        os_semaphore_acquire-IsValid k pong_sem wait_forever b
          (record { is_current = s.runs; is_running = s.b_is }) p.valid) in
      let keeps =
        written-Keeps a b ping_sem pong_sem k k1.os_tasks k1.semaphores true (λ u e. ground arith)
          (ground arith) (ground arith) (ground arith) (ground (arith, p.sems)) (ground arith) in
      (
        k1,
        stops,
        record {
          pair = Pair-kept a b ping_sem pong_sem k k1 p keeps valid;
          runs = s.runs;
          a_is = ground (arith, s.a_is, p.two);
          b_is = ground arith;
          ping_count = ground (arith, s.ping_count, p.sems);
          queue = (ground arith, ground (arith, s.queue), ground (arith, s.queue));
        },
      )

  -- Ping takes its token.
  pub takes_ping :
      At a running blocked 1 true k
      → (k1 : Kernel) × (os_semaphore_acquire ping_sem wait_forever k ≡ done os_success k1)
        × At a running blocked 0 true k1
  takes_ping s =
      let p = s.pair in
      let k1 = taken k ping_sem in
      let stops = acquire_token k ping_sem wait_forever (omega (arith, s.ping_count)) in
      let valid : IsValid k1 = subst (Stops IsValid) stops (
        os_semaphore_acquire-IsValid k ping_sem wait_forever a
          (record { is_current = s.runs; is_running = s.a_is }) p.valid) in
      let keeps =
        written-Keeps a b ping_sem pong_sem k k.os_tasks k1.semaphores k.pend_sv (λ u e. refl) refl
          refl (ground arith) (ground arith) (ground (arith, p.sems)) in
      (
        k1,
        stops,
        record {
          pair = Pair-kept a b ping_sem pong_sem k k1 p keeps valid;
          runs = s.runs;
          a_is = s.a_is;
          b_is = s.b_is;
          ping_count = ground (arith, s.ping_count);
          queue = (s.queue.0, ground (arith, s.queue, p.sems), ground (arith, s.queue, p.sems));
        },
      )
