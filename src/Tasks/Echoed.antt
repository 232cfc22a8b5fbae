-- ===== src/Tasks/Echoed.antt =====
-- The radar of Tasks/tasks.c from its ping to the line that it prints, with the interrupts of the echo and the switch
-- back to it.
use sentinel_rtos.Base.{
  ℕ, ◌+◌, ◌*◌, ◌/◌, ◌%◌, ◌<◌, ◌≤◌, ◌≡◌, ◌≢◌, ◌⊎◌, refl, ap, subst, ◌∙◌, true, some, List, ◌∷◌,
  arith,
}
use sentinel_rtos.Kernel.State.{
  Kernel, semaphore_queue, os_success, os_yield, max_tasks, u32_mod, stack_canary,
}
use sentinel_rtos.Kernel.Run.{Run, done, yielded, straight_on}
use sentinel_rtos.Kernel.Scheduler.{runnable, canary_intact, dispatch, os_scheduler}
use sentinel_rtos.Kernel.Scheduler.Next.{os_scheduler-next}
use sentinel_rtos.Kernel.Semaphore.Only.{woken, release_to_only}
use sentinel_rtos.Kernel.Invariant.{IsValid}
use sentinel_rtos.Kernel.Safety.{Stops}
use sentinel_rtos.Kernel.Safety.Tokens.{os_semaphore_release-IsValid}
use sentinel_rtos.Kernel.Safety.Switch.{dispatch-objects, dispatch-rest, os_tasks-dispatch}
use sentinel_rtos.Queue.Polled.{Holds}
use sentinel_rtos.Queue.Kept.{Leaves, Leaves-Holds}
use sentinel_rtos.Drivers.Ultrasonic.{Sonar, set_word, tim2_irq_handler}
use sentinel_rtos.Drivers.Ultrasonic.Echo.{IsLaidOut, risen, fallen, rises}
use sentinel_rtos.Tasks.{radar_round}
use sentinel_rtos.Tasks.Course.{Active}
use sentinel_rtos.Tasks.Reports.{Report, line, reported, measured}
use sentinel_rtos.Tasks.Radar.{radar_round-reports}

-- Task `c` alone waits for an echo whose rising edge is due, while `d` runs; no other task has the priority of `c`.
pub record Listens (s : Sonar) (c d : ℕ) (k : Kernel) : Type 0 where
  pub valid : IsValid k
  pub live : k.kernel_running ≡ true
  pub runs : k.current_tcb ≡ some d
  pub two : c ≢ d
  pub in_table : c < k.task_count
  pub queued : (k.os_tasks c).wait_queue ≡ some (semaphore_queue s.echo_ready)
  pub one_waits : (k.semaphores s.echo_ready).waiters.wait_count ≡ 1
  pub only : (k.semaphores s.echo_ready).waiters.slots 0 ≡ c
  pub rising : k.memory s.waiting_for_rising ≢ 0
  pub outranks : (k.os_tasks d).current_priority ≤ (k.os_tasks c).current_priority
  pub lower :
      (u : ℕ)
      → u < k.task_count
      → u ≢ c
      → u ≢ d
      → runnable (k.os_tasks u).state ≡ true
      → (k.os_tasks u).current_priority < (k.os_tasks c).current_priority
  pub canary : k.memory (k.os_tasks d).stack_base ≡ stack_canary

-- Word `a` is neither in the buffer of queue `q` nor the canary of task `d`.
pub record IsElsewhere (k : Kernel) (q d a : ℕ) : Type 0 where
  pub from_buffer :
      (a < (k.queues q).buffer) ⊎ ((k.queues q).buffer + 4 * (k.queues q).capacity ≤ a)
  pub from_canary : a ≢ (k.os_tasks d).stack_base

-- The sensor's variables and semaphore are apart from the queue's.
pub record IsApart (s : Sonar) (k : Kernel) (q d : ℕ) : Type 0 where
  pub start_at : IsElsewhere k q d s.time_start
  pub end_at : IsElsewhere k q d s.time_end
  pub flag_at : IsElsewhere k q d s.waiting_for_rising
  pub not_empty_slots : s.echo_ready ≢ (k.queues q).empty_slots
  pub not_filled_slots : s.echo_ready ≢ (k.queues q).filled_slots

set_word-IsValid : (k : Kernel) (a v : ℕ) → IsValid k → IsValid (set_word k a v)
set_word-IsValid k a v h = record {
  few = h.few;
  current_in = h.current_in;
  agree = h.agree;
  tcbs = h.tcbs;
  mutexes = h.mutexes;
  semaphores = h.semaphores;
}

module _ (s : Sonar) (c d q a b : ℕ) (k : Kernel) where
  -- The state after both edges.
  abbrev edges : Kernel
  edges = fallen s (risen s k a) b

  abbrev heard : Kernel
  heard = os_yield (woken edges s.echo_ready c)

  hears :
      Listens s c d k → (tim2_irq_handler s true b (risen s k a) ≡ done tt heard) × IsValid heard
  unfolding tim2_irq_handler straight_on os_yield
  hears l =
      let stops = release_to_only edges s.echo_ready c l.one_waits l.only l.queued in
      let v = set_word-IsValid _ s.waiting_for_rising 1 (
        set_word-IsValid (risen s k a) s.time_end b (
          set_word-IsValid _ s.waiting_for_rising 0 (set_word-IsValid k s.time_start a l.valid))) in
      (
        rw (stops) (ground arith),
        subst (Stops IsValid) stops (os_semaphore_release-IsValid edges s.echo_ready v),
      )

  wakes_first : Listens s c d k → IsApart s k q d → os_scheduler heard ≡ done tt (dispatch heard c)
  unfolding os_yield canary_intact
  wakes_first l apart =
      os_scheduler-next heard d c (hears l).1
        (ground (arith, l.runs, l.canary, apart.start_at, apart.end_at, apart.flag_at, l.two))
        l.runs l.in_table l.two (ground arith) (ground (arith, l.outranks, l.two))
        (λ u lt not_c not_d run. ground (arith, l.lower u lt not_c not_d))

  heard-Leaves : IsApart s k q d → Leaves k (dispatch heard c) q
  unfolding os_yield
  heard-Leaves apart =
      let objects = dispatch-objects heard c in
      let others = dispatch-rest heard c in
      record {
        same_queue = ap (λ f. f q) others.2;
        same_lock = rw objects.1 (refl, refl);
        same_empty = rw objects.2 (ground (arith, apart.not_empty_slots));
        same_filled = rw objects.2 (ground (arith, apart.not_filled_slots));
        same_words = λ w from to. rw others.0 (
            ground (
              arith, apart.start_at.from_buffer, apart.end_at.from_buffer,
              apart.flag_at.from_buffer,
            ));
      }

  heard-Active : Listens s c d k → Active c (dispatch heard c)
  unfolding os_yield
  heard-Active l = record {
    live = (dispatch-rest heard c).1 ∙ l.live;
    current = (dispatch-objects heard c).3;
  }

  heard_success : ((dispatch heard c).os_tasks c).wait_result ≡ os_success
  unfolding os_yield
  heard_success = ground (arith, os_tasks-dispatch heard c c)

  heard_width :
      (w : ℕ)
      → IsLaidOut s
      → a < u32_mod
      → w < u32_mod
      → b ≡ (a + w) % u32_mod
      → measured s (dispatch heard c) ≡ w / 58
  unfolding os_yield
  heard_width w apart ha hw at =
      let ended : heard.memory s.time_end ≡ b = ground (arith, apart.end_flag) in
      let began : heard.memory s.time_start ≡ a = ground (arith, apart.start_flag, apart.ends) in
      rw (dispatch-rest heard c).0 (omega (arith, ended, began))

-- A round of the radar in the running task `c` that finds no token waits. If an echo comes while task `d` runs, which nobody
-- else waits for, `w` microseconds long, also across the wrap of the counter, then both handlers
-- return, the scheduler goes straight back to `c`, which has the highest priority, and the round prints the line of
-- the oldest message of its queue with the distance `w / 58`, takes that message out, and sleeps. The variables
-- of the sensor, the queue's buffer and the canary of `d` are apart, nobody is in the queue, and the lock of the serial port
-- is free and not the queue's.
pub radar_round-measures :
    (sonar : Sonar) (q uart_lock c d angle a w x : ℕ) (label label2 : List ℕ) (xs : List ℕ)
    (k j : Kernel)
    → Active c k
    → (k.semaphores sonar.echo_ready).count ≡ 0
    → (k.semaphores sonar.echo_ready).waiters.wait_count < max_tasks
    → Listens sonar c d j
    → IsLaidOut sonar
    → IsApart sonar j q d
    → Holds j q (x ∷ xs)
    → (j.mutexes uart_lock).lock ≡ 0
    → (j.mutexes uart_lock).waiters.wait_count ≡ 0
    → uart_lock ≢ (j.queues q).lock
    → a < u32_mod
    → w < u32_mod
    → (k1 : Kernel) × (rest : Kernel → Run (ℕ × List ℕ)) × (j1 : Kernel) × (j2 : Kernel)
      × (j3 : Kernel) × (j4 : Kernel) × (radar_round sonar q uart_lock label label2 angle k
          ≡ yielded k1 rest)
      × (tim2_irq_handler sonar true a j ≡ done tt j1)
      × (tim2_irq_handler sonar true ((a + w) % u32_mod) j1 ≡ done tt j2)
      × (os_scheduler j2 ≡ done tt j3)
      × (rest j3 ≡ yielded j4 (done (x, line label label2 x (w / 58))))
      × Holds j4 q xs
unfolding reported os_yield
radar_round-measures sonar q uart_lock c d angle a w x label label2 xs k j active none_left room l
      laid apart h free none_waits other ha hw =
    let b = (a + w) % u32_mod in
    let j2 = heard sonar c d q a b j in
    let j3 = dispatch j2 c in
    let kept = heard-Leaves sonar c d q a b j apart in
    let objects = dispatch-objects j2 c in
    let (k1, rest, j4, stops, due, parked, goes_on, sleeps, remains) =
      radar_round-reports sonar q uart_lock c angle label label2 (x ∷ xs) k j3 active none_left room
        (heard-Active sonar c d q a b j l) (Leaves-Holds j j3 q (x ∷ xs) kept h)
        (ap (λ f. (f uart_lock).lock) objects.1 ∙ free)
        (ap (λ f. (f uart_lock).waiters.wait_count) objects.1 ∙ none_waits)
        (λ e. other (e ∙ ap (λ f. (f q).lock) (dispatch-rest j2 c).2)) in
    let telling : reported label label2 (j3.os_tasks c).wait_result (measured sonar j3) angle
          (x ∷ xs)
        ≡ (record { angle = x; printed = line label label2 x (w / 58); left = xs }) =
      ap (λ r. reported label label2 r (measured sonar j3) angle (x ∷ xs))
        (heard_success sonar c d q a b j)
      ∙ ap (λ m. reported label label2 os_success m angle (x ∷ xs))
          (heard_width sonar c d q a b j w laid ha hw refl) in
    (
      k1,
      rest,
      risen sonar j a,
      j2,
      j3,
      j4,
      stops,
      rises sonar j a l.rising,
      (hears sonar c d q a b j l).0,
      wakes_first sonar c d q a b j l apart,
      goes_on ∙ ap (λ (r : Report). yielded j4 (done (r.angle, r.printed))) telling,
      subst (λ (r : Report). Holds j4 q r.left) telling remains,
    )
