-- ===== src/Tasks/Rounds.antt =====
-- A round of `sweep_task` of Tasks/tasks.c with the queue, the delay and the servo that it uses.
use sentinel_rtos.Base.{ℕ, ◌≡◌, refl, ◌∙◌, true, some, List, arith}
use sentinel_rtos.Kernel.State.{Kernel}
use sentinel_rtos.Kernel.Run.{done, yielded, bind}
use sentinel_rtos.Queue.Fifo.{push}
use sentinel_rtos.Queue.Polled.{Holds}
use sentinel_rtos.Queue.Sent.{send_polled}
use sentinel_rtos.Drivers.Servo.{Pwm, servo_set_angle}
use sentinel_rtos.Tasks.{Sweep, sweep_next, sweep_period_ms, sweep_round}
use sentinel_rtos.Tasks.Course.{Active, sleeping, delays, sleeping-Holds}

-- The message stands in the queue in state `j`, in which the run then sleeps.
pub record Enqueued (k : Kernel) (q c : ℕ) (xs : List ℕ) (s : Sweep) (p : Pwm) : Type 0 where
  pub sent : Kernel
  pub stops :
      sweep_round q s p k
      ≡ yielded (sleeping sent c sweep_period_ms) (done (sweep_next s, servo_set_angle s.angle p))
  pub holds : Holds sent q (push (k.queues q).capacity xs s.angle)

pub enqueues :
    (k : Kernel) (q c : ℕ) (xs : List ℕ) (s : Sweep) (p : Pwm)
    → Active c k
    → Holds k q xs
    → Enqueued k q c xs s p
unfolding sweep_round bind
enqueues k q c xs s p runs h =
    let poll = send_polled k q s.angle xs h in
    let still : Active c poll.after = record {
      live = poll.touched.same_running ∙ runs.live;
      current = poll.touched.same_current ∙ runs.current;
    } in
    record {
      sent = poll.after;
      stops = rw (poll.returns, delays poll.after c sweep_period_ms still (omega arith)) refl;
      holds = poll.holds;
    }

-- A round of the sweep in the running task `c`, on its queue with `xs` in it and nobody else there, never waits for a slot: it stops
-- only at its delay, with the angle behind the messages of the queue, of which the oldest is gone if the queue was
-- full; and when the task runs again the round ends with the servo at the angle and the next step of the sweep.
pub sweep_round-enqueues :
    (k : Kernel) (q c : ℕ) (xs : List ℕ) (s : Sweep) (p : Pwm)
    → k.kernel_running ≡ true
    → k.current_tcb ≡ some c
    → Holds k q xs
    → (k' : Kernel) × (sweep_round q s p k
        ≡ yielded k' (done (sweep_next s, servo_set_angle s.angle p)))
      × Holds k' q (push (k.queues q).capacity xs s.angle)
sweep_round-enqueues k q c xs s p live cur h =
    let round = enqueues k q c xs s p (record { live = live; current = cur }) h in
    (
      sleeping round.sent c sweep_period_ms,
      round.stops,
      sleeping-Holds round.sent c sweep_period_ms q _ round.holds,
    )
