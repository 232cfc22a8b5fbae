-- ===== src/Tasks/Reports.antt =====
-- What `radar_task` of Tasks/tasks.c reports once it has an echo.
use sentinel_rtos.Base.{
  ℕ, ◌+◌, ◌-◌, ◌/◌, ◌%◌, ◌≡◌, ◌≢◌, refl, ap, ◌∙◌, true, false, some, List, [], ◌∷◌, ◌++◌, ◌==◌,
  if◌then◌else◌,
}
use sentinel_rtos.Kernel.State.{Kernel, Mutex, MessageQueue, os_success, u32_mod}
use sentinel_rtos.Kernel.Run.{Run, done, bind, pure}
use sentinel_rtos.Queue.Polled.{Holds}
use sentinel_rtos.Queue.Received.{
  received, received-mutexes, received-Holds, received-Touches, takes_oldest, receive_nothing,
  queue_of_received,
}
use sentinel_rtos.Drivers.Uart.{characters}
use sentinel_rtos.Drivers.Ultrasonic.{Sonar, us_per_cm}
use sentinel_rtos.Tasks.{log_line, show_angle, after_echo}
use sentinel_rtos.Tasks.Printing.{printed, printed-Active, prints_first, printed-Holds}
use sentinel_rtos.Tasks.Course.{Active}

-- The line for an angle and a distance in centimetres.
abbrev pub line : List ℕ → List ℕ → ℕ → ℕ → List ℕ
line label label2 angle cm =
    label ++ characters angle ++ (label2 ++ characters cm) ++ (13 ∷ 10 ∷ [])

-- What a round reports after its wait has ended with `r`: the angle that it then has and what it prints,
-- and what it leaves of the messages.
pub record Report : Type 0 where
  pub angle : ℕ
  pub printed : List ℕ
  pub left : List ℕ

unfoldable pub reported : List ℕ → List ℕ → ℕ → ℕ → ℕ → List ℕ → Report
reported label label2 r cm angle [] = record { angle = angle; printed = []; left = [] }
reported label label2 r cm angle (x ∷ xs) =
    if r == os_success
    then record { angle = x; printed = line label label2 x cm; left = xs }
    else record { angle = angle; printed = []; left = x ∷ xs }

module _ (label label2 : List ℕ) (r cm angle : ℕ) where
  pub reported_heard :
      (xs : List ℕ)
      → (r == os_success) ≡ true
      → reported label label2 r cm angle xs ≡ reported label label2 os_success cm angle xs
  unfolding reported
  reported_heard [] heard = refl
  reported_heard (x ∷ xs) heard = rw heard

  pub reported_silent :
      (xs : List ℕ)
      → (r == os_success) ≡ false
      → reported label label2 r cm angle xs ≡ record { angle = angle; printed = []; left = xs }
  unfolding reported
  reported_silent [] timed_out = refl
  reported_silent (x ∷ xs) timed_out = rw timed_out

-- `(time_end - time_start) / US_PER_CM`.
abbrev pub measured : Sonar → Kernel → ℕ
measured s k = (k.memory s.time_end + u32_mod - k.memory s.time_start) % u32_mod / us_per_cm

-- Where a part of a round returns: what it reports, with the messages that are left.
pub record Returns (c q : ℕ) (run : Run (ℕ × List ℕ)) (r : Report) : Type 0 where
  pub after : Kernel
  pub returns : run ≡ done (r.angle, r.printed) after
  pub holds : Holds after q r.left
  pub active : Active c after

received-Active : (k : Kernel) (q c : ℕ) → Active c k → Active c (received k q)
received-Active k q c active =
    let touched = received-Touches k q in
    record {
      live = touched.same_running ∙ active.live;
      current = touched.same_current ∙ active.current;
    }

logs :
    (k : Kernel) (uart_lock : ℕ) (label label2 : List ℕ) (angle cm : ℕ)
    → (k.mutexes uart_lock).lock ≡ 0
    → (k.mutexes uart_lock).waiters.wait_count ≡ 0
    → log_line uart_lock label angle (some (label2, cm)) k
      ≡ done (line label label2 angle cm) (printed k uart_lock)
unfolding log_line
logs k uart_lock label label2 angle cm =
    prints_first k uart_lock (pure (line label label2 angle cm))

module _ (k : Kernel) (c q uart_lock : ℕ) (label label2 : List ℕ) (cm angle : ℕ) where
  pub echo-Returns :
      (xs : List ℕ)
      → Active c k
      → Holds k q xs
      → (k.mutexes uart_lock).lock ≡ 0
      → (k.mutexes uart_lock).waiters.wait_count ≡ 0
      → uart_lock ≢ (k.queues q).lock
      → Returns c q
          (after_echo q uart_lock label label2 cm angle k)
          (reported label label2 os_success cm angle xs)
  unfolding after_echo show_angle reported bind
  echo-Returns [] active h free none_waits other =
      let poll = receive_nothing k q h in
      record {
        after = poll.after;
        returns = rw poll.returns refl;
        holds = poll.holds;
        active = record {
          live = poll.touched.same_running ∙ active.live;
          current = poll.touched.same_current ∙ active.current;
        };
      }
  echo-Returns (x ∷ xs) active h free none_waits other =
      let j = received k q in
      let same = received-mutexes k q uart_lock other in
      record {
        after = printed j uart_lock;
        returns =
            rw
              (
                takes_oldest k q 0 x xs h,
                logs j uart_lock label label2 x cm (ap (λ (m : Mutex). m.lock) same ∙ free)
                    (ap (λ (m : Mutex). m.waiters.wait_count) same ∙ none_waits),
              )
              refl;
        holds =
            printed-Holds j uart_lock q xs
              (λ e. other (e ∙ ap (λ (y : MessageQueue). y.lock) (queue_of_received k q)))
              (received-Holds k q x xs h);
        active = printed-Active j c uart_lock (received-Active k q c active);
      }
