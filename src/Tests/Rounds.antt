-- ===== src/Tests/Rounds.antt =====
-- The theorems on the application's tasks, on a queue of two slots.
use sentinel_rtos.Base.{ℕ, suc, ◌%◌, ◌≡◌, refl, true, some, arith, List, [], ◌∷◌, update}
use sentinel_rtos.Kernel.State.{Kernel, semaphore_queue}
use sentinel_rtos.Kernel.Mutex.{os_mutex_init}
use sentinel_rtos.Kernel.Semaphore.{os_semaphore_init}
use sentinel_rtos.Kernel.Run.{Run, done, yielded}
use sentinel_rtos.Kernel.Blocking.{parked_tcb}
use sentinel_rtos.Queue.{os_queue_init}
use sentinel_rtos.Queue.Polled.{Holds}
use sentinel_rtos.Queue.Refines.{init-Holds}
use sentinel_rtos.Drivers.Servo.{Pwm, servo_set_angle}
use sentinel_rtos.Drivers.Ultrasonic.{Sonar}
use sentinel_rtos.Tasks.{sweep_task, radar_round}
use sentinel_rtos.Tasks.Course.{Active, course, nap_times, naps, ends}
use sentinel_rtos.Tasks.Wave.{wave}
use sentinel_rtos.Tasks.Sweeping.{IsAlone, sweep_task-paces}
use sentinel_rtos.Tasks.Reports.{reported, measured}
use sentinel_rtos.Tasks.Radar.{radar_round-reports}
use sentinel_rtos.Tests.Messages.{storage}

-- The queue of a running task.
abbrev live_storage : Kernel
live_storage = record storage { kernel_running = true; current_tcb = some 0 }

live : Kernel
live = os_queue_init 0 0x2000_2000 2 live_storage

live-Holds : Holds live 0 []
unfolding live
live-Holds = init-Holds live_storage 0 0x2000_2000 2 (omega arith) (omega arith) (omega arith)

live_running : live.kernel_running ≡ true
unfolding live os_queue_init os_semaphore_init os_mutex_init
live_running = refl

live_current : live.current_tcb ≡ some 0
unfolding live os_queue_init os_semaphore_init os_mutex_init
live_current = refl

abbrev servo_timer : Pwm
servo_timer = record { pwm_period_us = 20000; psc = 15; arr = 19999; ccr1 = 1500 }

live-Active : Active 0 live
live-Active = record { live = live_running; current = live_current }

live-IsAlone : IsAlone 0 0 live
live-IsAlone = record { runs = live-Active; messages = []; holds = live-Holds }

live_unlocked : (live.mutexes 1).lock ≡ 0
unfolding live os_queue_init os_semaphore_init os_mutex_init
live_unlocked = refl

live_no_waiters : (live.mutexes 1).waiters.wait_count ≡ 0
unfolding live os_queue_init os_semaphore_init os_mutex_init
live_no_waiters = refl

sweep_task-paces_example :
    course 0 (λ i. live) (sweep_task 1 0 (91 ∷ []) 20 (suc 39) servo_timer live)
    ≡ nap_times 19 50 (
        naps 500 (
          nap_times (suc 39) 20 (
            ends
              (91 ∷ [], wave (suc 39 % 72), servo_set_angle (wave (39 % 72)).angle servo_timer))))
sweep_task-paces_example =
    sweep_task-paces 0 0 1 20 39 (91 ∷ []) servo_timer live (λ i. live) (omega arith) live-Active
      live_unlocked live_no_waiters (λ i. live-IsAlone)

-- The same queue with one angle in it.
abbrev holding_one : Kernel
holding_one = record live_storage {
  queues = λ q. record {
    buffer = 0x2000_2000;
    capacity = 2;
    head = 1;
    tail = 0;
    lock = 0;
    empty_slots = 1;
    filled_slots = 2;
  };
  semaphores = λ s. record (live_storage.semaphores s) { count = 1; max_count = 2 };
  memory = update live_storage.memory 0x2000_2000 40;
}

holding_one-Holds : Holds holding_one 0 (40 ∷ [])
holding_one-Holds = record {
  has_room = omega arith;
  fits = omega arith;
  tail_in = omega arith;
  at_most = omega arith;
  head_at = refl;
  contents = refl;
  filled = refl;
  filled_max = refl;
  empty = refl;
  empty_max = refl;
  quiet = record {
    unlocked = refl;
    no_lock_waiters = refl;
    no_senders = refl;
    no_receivers = refl;
    apart = omega arith;
  };
}

abbrev ranger : Sonar
ranger = record {
  time_start = 0x2000_3000;
  time_end = 0x2000_3004;
  waiting_for_rising = 0x2000_3008;
  echo_ready = 7;
}

radar_round-reports_example :
    let told = reported (65 ∷ []) (66 ∷ []) 0 (measured ranger holding_one) 5 (40 ∷ []) in
    (k1 : Kernel) × (g : Kernel → Run (ℕ × List ℕ)) × (k3 : Kernel) × (radar_round ranger 0 1
        (65 ∷ [])
        (66 ∷ [])
        5
        live_storage
      ≡ yielded k1 g)
    × (k1.memory 0x2000_3008 ≡ 1)
    × (k1.os_tasks 0 ≡ parked_tcb (live_storage.os_tasks 0) (semaphore_queue 7) 60)
    × (g holding_one ≡ yielded k3 (done (told.angle, told.printed)))
    × ((k3.os_tasks 0).sleep_time ≡ 100)
    × Holds k3 0 told.left
radar_round-reports_example =
    radar_round-reports ranger 0 1 0 5 (65 ∷ []) (66 ∷ []) (40 ∷ []) live_storage holding_one
      (record { live = refl; current = refl }) refl (omega arith)
      (record { live = refl; current = refl }) holding_one-Holds refl refl (omega arith)
