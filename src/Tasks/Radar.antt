-- ===== src/Tasks/Radar.antt =====
-- A round of `radar_task` of Tasks/tasks.c: the ping, the wait for its echo, and the line that is printed.
use sentinel_rtos.Base.{
  inl, inr, Bool-cases, ℕ, ◌<◌, ◌≡◌, ◌≢◌, refl, ap, ◌∙◌, false, List, [], ◌==◌, if◌then◌else◌,
  arith,
}
use sentinel_rtos.Kernel.State.{
  Kernel, semaphore_queue, os_success, os_enter_critical, os_exit_critical, os_yield, max_tasks,
}
use sentinel_rtos.Kernel.Run.{Run, M, done, yielded, bind, ◌>>◌, ◌>>=◌, pure}
use sentinel_rtos.Kernel.Blocking.{parked_tcb, resume, resume_lem}
use sentinel_rtos.Kernel.Tick.{os_delay}
use sentinel_rtos.Kernel.Semaphore.Branches.{waiting_for, acquire_waits}
use sentinel_rtos.Queue.Polled.{Holds}
use sentinel_rtos.Drivers.Ultrasonic.{
  Sonar, set_word, ultrasonic_no_echo, ultrasonic_trigger, ultrasonic_read_cm, distance,
}
use sentinel_rtos.Tasks.{after_echo, radar_round, radar_period_ms}
use sentinel_rtos.Tasks.Course.{Active, sleeping, delays, sleeping-Holds}
use sentinel_rtos.Tasks.Reports.{
  Report, reported, measured, reported_heard, reported_silent, Returns, echo-Returns,
}

-- What a round does after the wait has returned `r`, and with the distance that it then has.
abbrev hears : Sonar → ℕ → M ℕ
hears sonar r = if r == os_success then distance sonar else pure ultrasonic_no_echo

abbrev after_ping : ℕ → ℕ → List ℕ → List ℕ → ℕ → ℕ → M (ℕ × List ℕ)
after_ping q uart_lock label label2 angle cm = do
  result ←
      if cm == ultrasonic_no_echo
      then pure (angle, [])
      else after_echo q uart_lock label label2 cm angle
  os_delay radar_period_ms
  pure result

abbrev after_wait : Sonar → ℕ → ℕ → List ℕ → List ℕ → ℕ → ℕ → M (ℕ × List ℕ)
after_wait sonar q uart_lock label label2 angle r =
    hears sonar r >>= after_ping q uart_lock label label2 angle

module _ (k : Kernel) (c q uart_lock : ℕ) (label label2 : List ℕ) (angle : ℕ) (sonar : Sonar) where
  -- The end of a round: it reports, and sleeps in state `j`.
  abbrev EndsWith : Run (ℕ × List ℕ) → Report → Type 0
  EndsWith run r =
      (j : Kernel) × (run ≡ yielded (sleeping j c radar_period_ms) (done (r.angle, r.printed)))
      × Holds j q r.left

  closes :
      (part : M (ℕ × List ℕ)) (r : Report)
      → Returns c q (part k) r
      → EndsWith ((do result ← part; os_delay radar_period_ms; pure result) k) r
  unfolding bind
  closes part r returned = (
    returned.after,
    rw (returned.returns, delays returned.after c radar_period_ms returned.active (omega arith))
        refl,
    returned.holds,
  )

  waited-EndsWith :
      (xs : List ℕ) (r : ℕ)
      → Active c k
      → Holds k q xs
      → (k.mutexes uart_lock).lock ≡ 0
      → (k.mutexes uart_lock).waiters.wait_count ≡ 0
      → uart_lock ≢ (k.queues q).lock
      → EndsWith
          (after_wait sonar q uart_lock label label2 angle r k)
          (reported label label2 r (measured sonar k) angle xs)
  unfolding bind distance
  waited-EndsWith xs r active h free none_waits other = elim (Bool-cases (r == os_success)) [
    | inl heard ↦
        let in_reach : (measured sonar k == ultrasonic_no_echo) ≡ false = ground arith in
        let echo = after_echo q uart_lock label label2 (measured sonar k) angle in
        let told =
          echo-Returns k c q uart_lock label label2 (measured sonar k) angle xs active h free
            none_waits other in
        rw (reported_heard label label2 r (measured sonar k) angle xs heard, heard, in_reach)
          (closes echo _ told)
    | inr timed_out ↦
        let told : Returns c q (pure (angle, []) k)
            (record { angle = angle; printed = []; left = xs }) =
          record { after = k; returns = refl; holds = h; active = active } in
        rw (reported_silent label label2 r (measured sonar k) angle xs timed_out, timed_out)
          (closes (pure (angle, [])) _ told)
  ]

-- A round of the radar in the running task `c` that finds no token makes the next edge of the echo a rising one
-- and waits in the queue of the semaphore for 60 ticks at most. Suppose that it is back in a state in which its queue
-- holds `xs`, with nobody else in there, and the lock of the serial port, which is not the queue's, is free. If its wait was
-- a success and there is a message, it prints the line of the oldest one and of the distance that the two edges show
-- by then, keeps that angle, and takes it out; otherwise it prints nothing and leaves angle and queue as they
-- were. Then it sleeps for 100 ms, which ends the round.
pub radar_round-reports :
    (sonar : Sonar) (q uart_lock c angle : ℕ) (label label2 : List ℕ) (xs : List ℕ) (k k2 : Kernel)
    → Active c k
    → (k.semaphores sonar.echo_ready).count ≡ 0
    → (k.semaphores sonar.echo_ready).waiters.wait_count < max_tasks
    → Active c k2
    → Holds k2 q xs
    → (k2.mutexes uart_lock).lock ≡ 0
    → (k2.mutexes uart_lock).waiters.wait_count ≡ 0
    → uart_lock ≢ (k2.queues q).lock
    → let told = reported label label2 (k2.os_tasks c).wait_result (measured sonar k2) angle xs in
      (k1 : Kernel) × (g : Kernel → Run (ℕ × List ℕ)) × (k3 : Kernel) × (radar_round sonar q
          uart_lock label label2 angle k
        ≡ yielded k1 g)
      × (k1.memory sonar.waiting_for_rising ≡ 1)
      × (k1.os_tasks c ≡ parked_tcb (k.os_tasks c) (semaphore_queue sonar.echo_ready) 60)
      × (g k2 ≡ yielded k3 (done (told.angle, told.printed)))
      × ((k3.os_tasks c).sleep_time ≡ 100)
      × Holds k3 q told.left
unfolding radar_round ultrasonic_read_cm ultrasonic_trigger os_enter_critical os_exit_critical bind
    os_yield
radar_round-reports sonar q uart_lock c angle label label2 xs k k2 active none_left room active2 h
      free none_waits other =
    let j = set_word k sonar.waiting_for_rising 1 in
    let waits =
      acquire_waits j sonar.echo_ready c 60 active.live active.current none_left room
        (omega arith) in
    let (last, ends, holds) =
      waited-EndsWith k2 c q uart_lock label label2 angle sonar xs (k2.os_tasks c).wait_result
        active2 h free none_waits other in
    (
      waiting_for j sonar.echo_ready c 60,
      (λ k'. bind (bind (resume k') (hears sonar)) (after_ping q uart_lock label label2 angle)),
      sleeping last c radar_period_ms,
      rw waits refl,
      ground arith,
      ground arith,
      ap (λ run. bind (bind run (hears sonar)) (after_ping q uart_lock label label2 angle))
            (resume_lem k2 c active2.current)
          ∙ ends,
      ground arith,
      sleeping-Holds last c radar_period_ms q _ holds,
    )
