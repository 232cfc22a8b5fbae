-- ===== src/Tasks/Sweeping.antt =====
-- `sweep_task` of Tasks/tasks.c from its start to any round of its loop.
use sentinel_rtos.Base.{ℕ, zero, suc, ◌+◌, ◌%◌, ◌≤◌, ◌≡◌, refl, ap, subst, ◌∙◌, List, arith}
use sentinel_rtos.Kernel.State.{Kernel}
use sentinel_rtos.Kernel.Run.{Run, M, done, bind, bind_assoc, ◌>>◌, ◌>>=◌, pure}
use sentinel_rtos.Kernel.Tick.{os_delay}
use sentinel_rtos.Queue.Polled.{Holds}
use sentinel_rtos.Drivers.Servo.{Pwm, servo_set_angle, pwm_set_pulse_us}
use sentinel_rtos.Tasks.{
  Sweep, sweep_start, sweep_next, sweep_period_ms, sweep_rounds, sweep_task, home,
}
use sentinel_rtos.Tasks.Course.{
  Course, naps, ends, course, nap_times, Active, course-sleeping, course-os_delay,
}
use sentinel_rtos.Tasks.Printing.{printed, printed-Active, prints_first}
use sentinel_rtos.Tasks.Rounds.{enqueues}
use sentinel_rtos.Tasks.Wave.{swept, wave, swept-wave}
use sentinel_rtos.Tasks.Homing.{with_left, turns, home-ends}

-- Task `c` runs, and nobody is in queue `q`.
pub record IsAlone (c q : ℕ) (k : Kernel) : Type 0 where
  pub runs : Active c k
  pub messages : List ℕ
  pub holds : Holds k q messages

-- Two timers that only the compare value tells apart.
abbrev SameServo : Pwm → Pwm → Type 0
SameServo p p' = (a : ℕ) → servo_set_angle a p' ≡ servo_set_angle a p

servo_moved : (p : Pwm) (b : ℕ) → SameServo p (servo_set_angle b p)
unfolding servo_set_angle pwm_set_pulse_us
servo_moved p b a = ground arith

module _ (c q : ℕ) {A : Type 0} where
  sweeps_once :
      (n : ℕ) (s : Sweep) (p : Pwm) (k : Kernel) (back : ℕ → Kernel) (f : Sweep × Pwm → M A)
      → IsAlone c q k
      → course c back (bind (sweep_rounds q (suc n) s p k) f)
        ≡ naps sweep_period_ms (
            course c
              (λ i. back (suc i))
              (bind (sweep_rounds q n (sweep_next s) (servo_set_angle s.angle p) (back 0)) f))
  unfolding sweep_rounds bind
  sweeps_once n s p k back f alone =
      let round = enqueues k q c alone.messages s p alone.runs alone.holds in
      rw round.stops (course-sleeping round.sent c sweep_period_ms back _)

  sweeps :
      (n m last : ℕ) (p : Pwm) (k : Kernel) (back : ℕ → Kernel) (f : Sweep × Pwm → M A) (result : A)
      → m + n ≡ last
      → IsAlone c q k
      → ((i : ℕ) → IsAlone c q (back i))
      → ((k' : Kernel)
          → f (swept (suc last), servo_set_angle (swept last).angle p) k' ≡ done result k')
      → course c back (bind (sweep_rounds q (suc n) (swept m) p k) f)
        ≡ nap_times (suc n) sweep_period_ms (ends result)
  unfolding sweep_rounds bind swept course
  sweeps zero m last p k back f result at alone backs finish =
      let here : last ≡ m = omega arith in
      sweeps_once 0 (swept m) p k back f alone
      ∙ ap (λ r. naps sweep_period_ms (course c (λ i. back (suc i)) r))
          (subst
            (λ l.
              f (swept (suc l), servo_set_angle (swept l).angle p) (back 0) ≡ done result (back 0))
            here (finish (back 0)))
  sweeps (suc n) m last p k back f result at alone backs finish =
      let moved = servo_set_angle (swept m).angle p in
      sweeps_once (suc n) (swept m) p k back f alone
      ∙ ap (naps sweep_period_ms) (
          sweeps n (suc m) last moved (back 0) (λ i. back (suc i)) f result (omega arith) (backs 0)
            (λ i. backs (suc i))
            (λ k'.
              ap (λ p'. f (swept (suc last), p') k')
                (servo_moved p (swept m).angle (swept last).angle)
              ∙ finish k'))

  homes :
      (j : ℕ) (p : Pwm) (k : Kernel) (back : ℕ → Kernel) (f : Pwm → M A) (rest : Course A)
      → j ≤ 100
      → Active c k
      → ((i : ℕ) → IsAlone c q (back i))
      → ((p' : Pwm) (k' : Kernel) (back' : ℕ → Kernel)
          → SameServo p p'
          → Active c k'
          → ((i : ℕ) → IsAlone c q (back' i))
          → course c back' (f p' k') ≡ rest)
      → course c back (bind (home j (with_left j) p k) f) ≡ nap_times j 50 rest
  unfolding home bind
  homes zero p k back f rest small runs backs then_rest = then_rest p k back (λ a. refl) runs backs
  homes (suc j) p k back f rest small runs backs then_rest =
      let moved = servo_set_angle (with_left (suc j)) p in
      let onward = bind_assoc (os_delay 50 k) (λ _. home j (with_left j) moved) f in
      ap (λ m. course c back (bind (m k) f)) (turns j j p (omega arith))
      ∙ ap (course c back) onward
      ∙ course-os_delay k c 50 back (home j (with_left j) moved >>= f) runs (omega arith)
      ∙ ap (naps 50) (
          homes j moved (back 0) (λ i. back (suc i)) f rest (omega arith) (backs 0).runs
            (λ i. backs (suc i))
            (λ p' k' back' same.
              then_rest p' k' back' (λ a. same a ∙ servo_moved p (with_left (suc j)) a)))

-- Where the lock of the serial port is free when the running task `c` starts `sweep_task`, and where `c`
-- always finds nobody in its queue when it is back from a stop, whatever messages are there: it never waits for
-- another task. It naps 19 times for 50 ms, once for 500 ms, and then for 20 ms in each of the first n + 1 rounds;
-- it has printed its text, the servo is at the angle of round n of the triangle wave, and its variables are those
-- of the next round.
pub sweep_task-paces :
    (c q uart_lock fuel n : ℕ) (text : List ℕ) (p : Pwm) (k : Kernel) (back : ℕ → Kernel)
    → 19 ≤ fuel
    → Active c k
    → (k.mutexes uart_lock).lock ≡ 0
    → (k.mutexes uart_lock).waiters.wait_count ≡ 0
    → ((i : ℕ) → IsAlone c q (back i))
    → course c back (sweep_task uart_lock q text fuel (suc n) p k)
      ≡ nap_times 19 50 (
          naps 500 (
            nap_times
              (suc n)
              20
              (ends (text, wave (suc n % 72), servo_set_angle (wave (n % 72)).angle p))))
unfolding sweep_task swept
sweep_task-paces c q uart_lock fuel n text p k back enough runs free none_waits backs =
    let result : List ℕ × Sweep × Pwm =
      (text, wave (suc n % 72), servo_set_angle (wave (n % 72)).angle p) in
    let rest = naps 500 (nap_times (suc n) 20 (ends result)) in
    let last : Sweep × Pwm → M (List ℕ × Sweep × Pwm) = λ r. pure (text, r.0, r.1) in
    let sweeping = λ (p1 : Pwm). sweep_rounds q (suc n) sweep_start p1 >>= last in
    ap (course c back) (
      prints_first k uart_lock (home fuel 90 p >>= λ p1. os_delay 500 >> sweeping p1) free
        none_waits)
    ∙ ap (λ m. course c back (bind (m (printed k uart_lock)) (λ p1. os_delay 500 >> sweeping p1)))
        (home-ends fuel p enough)
    ∙ homes c q 19 p (printed k uart_lock) back (λ p1. os_delay 500 >> sweeping p1) rest
        (omega arith) (printed-Active k c uart_lock runs) backs
        (λ p' k' back' same runs' backs'.
          course-os_delay k' c 500 back' (sweeping p') runs' (omega arith)
          ∙ ap (naps 500) (
              sweeps c q n 0 n p' (back' 0) (λ i. back' (suc i)) last result (omega arith)
                (backs' 0) (λ i. backs' (suc i))
                (λ k1.
                  let told : Sweep → Pwm → Run (List ℕ × Sweep × Pwm) =
                    λ w p2. done (text, w, p2) k1 in
                  ap (λ w. told w (servo_set_angle (swept n).angle p')) (swept-wave (suc n))
                  ∙ ap (λ (w : Sweep). told (wave (suc n % 72)) (servo_set_angle w.angle p'))
                      (swept-wave n)
                  ∙ ap (told (wave (suc n % 72))) (same (wave (n % 72)).angle))))
