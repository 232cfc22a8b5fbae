-- ===== src/Tests/Echoing.antt =====
-- The theorem on the whole measurement, in a state in which task 1 listens while task 0 runs.
use sentinel_rtos.Base.{
  ℕ, ◌+◌, ◌/◌, ◌%◌, ◌≡◌, refl, inr, true, some, List, [], ◌∷◌, ◌==◌, ◌||◌, ◌≤◌, if◌then◌else◌,
  arith,
}
use sentinel_rtos.Base.Occurs.{occurs}
use sentinel_rtos.Kernel.State.{Kernel, mutex_queue, semaphore_queue, stack_canary, u32_mod}
use sentinel_rtos.Kernel.Run.{Run, done, yielded}
use sentinel_rtos.Kernel.WaitQueue.{waiting}
use sentinel_rtos.Kernel.Scheduler.{os_scheduler}
use sentinel_rtos.Kernel.Invariant.{QueuesAgree, places, SemaphoreIsValid}
use sentinel_rtos.Queue.Polled.{Holds}
use sentinel_rtos.Drivers.Ultrasonic.{Sonar, tim2_irq_handler}
use sentinel_rtos.Tasks.{radar_round}
use sentinel_rtos.Tasks.Reports.{line}
use sentinel_rtos.Tasks.Echoed.{Listens, IsElsewhere, radar_round-measures}
use sentinel_rtos.Tests.Bouncing.{bouncing, bouncing_tcbs, bouncing_mutexes}

abbrev radar_sonar : Sonar
radar_sonar = record {
  time_start = 0x2000_3000;
  time_end = 0x2000_3004;
  waiting_for_rising = 0x2000_3008;
  echo_ready = 1;
}

-- Queue 0 holds one angle, and semaphores 2 and 3 are its own.
abbrev listening : Kernel
listening = record bouncing {
  semaphores = λ s.
      if s == 2 || s == 3
      then record (bouncing.semaphores s) { count = 1; max_count = 2 }
      else bouncing.semaphores s;
  queues = λ q. record {
    buffer = 0x2000_2000;
    capacity = 2;
    head = 1;
    tail = 0;
    lock = 0;
    empty_slots = 2;
    filled_slots = 3;
  };
  memory = λ a. if a == 0x2000_2000 then 40 else stack_canary;
}

listening-agree : QueuesAgree listening
unfolding waiting occurs places
listening-agree (mutex_queue m) t = ground arith
listening-agree (semaphore_queue s) t = ground arith

listening_semaphores : (s : ℕ) → SemaphoreIsValid (listening.semaphores s)
listening_semaphores s = record {
  bounded = ground arith;
  no_idle_token = ground arith;
  room = ground arith;
}

listening-Listens : Listens radar_sonar 1 0 listening
listening-Listens = record {
  valid = record {
    few = omega arith;
    current_in = omega arith;
    agree = listening-agree;
    tcbs = bouncing_tcbs;
    mutexes = bouncing_mutexes;
    semaphores = listening_semaphores;
  };
  live = refl;
  runs = refl;
  two = omega arith;
  in_table = omega arith;
  queued = refl;
  one_waits = refl;
  only = refl;
  rising = omega arith;
  outranks = omega arith;
  lower = λ u lt not_c not_d run. ground arith;
  canary = refl;
}

listening-Holds : Holds listening 0 (40 ∷ [])
listening-Holds = record {
  has_room = omega arith;
  fits = omega arith;
  tail_in = omega arith;
  at_most = omega arith;
  head_at = refl;
  contents = refl;
  filled = refl;
  filled_max = refl;
  empty = refl;
  empty_max = refl;
  quiet = record {
    unlocked = refl;
    no_lock_waiters = refl;
    no_senders = refl;
    no_receivers = refl;
    apart = omega arith;
  };
}

above : (a : ℕ) → 0x2000_3000 ≤ a → IsElsewhere listening 0 0 a
above a h = record { from_buffer = inr (omega arith); from_canary = omega arith }

radar_round-measures_example :
    (k1 : Kernel) × (rest : Kernel → Run (ℕ × List ℕ)) × (j1 : Kernel) × (j2 : Kernel)
    × (j3 : Kernel) × (j4 : Kernel) × (radar_round radar_sonar 0 1
          (65 ∷ [])
          (66 ∷ [])
          0
          (record bouncing { current_tcb = some 1 })
        ≡ yielded k1 rest)
    × (tim2_irq_handler radar_sonar true 0xffff_ff00 listening ≡ done tt j1)
    × (tim2_irq_handler radar_sonar true ((0xffff_ff00 + 1160) % u32_mod) j1 ≡ done tt j2)
    × (os_scheduler j2 ≡ done tt j3)
    × (rest j3 ≡ yielded j4 (done (40, line (65 ∷ []) (66 ∷ []) 40 (1160 / 58))))
    × Holds j4 0 []
radar_round-measures_example =
    radar_round-measures radar_sonar 0 1 1 0 0 0xffff_ff00 1160 40 (65 ∷ []) (66 ∷ []) []
      (record bouncing { current_tcb = some 1 }) listening (record { live = refl; current = refl })
      refl (omega arith) listening-Listens
      (record { ends = omega arith; start_flag = omega arith; end_flag = omega arith })
      (record {
        start_at = above 0x2000_3000 (omega arith);
        end_at = above 0x2000_3004 (omega arith);
        flag_at = above 0x2000_3008 (omega arith);
        not_empty_slots = omega arith;
        not_filled_slots = omega arith;
      })
      listening-Holds refl refl (omega arith) (omega arith) (omega arith)
