-- ===== src/Tests/Passing.antt =====
-- The theorem on a sender and a receiver that waits, on a queue of two slots of which task 1 receives.
use sentinel_rtos.Base.{ℕ, ◌≡◌, refl, some, Option, [], ◌==◌, if◌then◌else◌, arith}
use sentinel_rtos.Kernel.State.{Kernel, MessageQueue, semaphore_queue, ready, os_success}
use sentinel_rtos.Kernel.Run.{Run, done, yielded}
use sentinel_rtos.Kernel.Scheduler.{dispatch}
use sentinel_rtos.Queue.{os_queue_send, os_queue_receive}
use sentinel_rtos.Queue.Polled.{Holds}
use sentinel_rtos.Queue.Passing.{Awaits}
use sentinel_rtos.Queue.Rendezvous.{os_queue_receive-gets}
use sentinel_rtos.Tests.Bouncing.{bouncing, tcb_of}

abbrev empty_queue : MessageQueue
empty_queue = record {
  buffer = 0x2000_2000;
  capacity = 2;
  head = 1;
  tail = 1;
  lock = 0;
  empty_slots = 2;
  filled_slots = 3;
}

-- Task 1 runs, and no message is there.
abbrev before_receive : Kernel
before_receive = record bouncing {
  current_tcb = some 1;
  queues = λ q. empty_queue;
  semaphores = λ s.
      if s == 2
      then record (bouncing.semaphores s) { count = 2; max_count = 2 }
      else record { count = 0; max_count = 2; waiters = record { slots = λ i. 0; wait_count = 0 } };
}

-- Task 0 runs, and task 1 waits for a message.
abbrev before_send : Kernel
before_send = record before_receive {
  current_tcb = some 0;
  os_tasks =
      λ t. if t == 1 then record (tcb_of 1) { wait_queue = some (semaphore_queue 3) } else tcb_of t;
  semaphores = λ s.
      if s == 3
      then record { count = 0; max_count = 2; waiters = record { slots = λ i. 1; wait_count = 1 } }
      else before_receive.semaphores s;
}

before_send-Awaits : Awaits before_send 0 1 empty_queue
before_send-Awaits = record {
  is_queue = refl;
  has_room = omega arith;
  fits = omega arith;
  tail_in = omega arith;
  head_at = refl;
  filled = refl;
  filled_max = refl;
  empty = refl;
  empty_max = refl;
  unlocked = refl;
  no_lock_waiters = refl;
  no_senders = refl;
  apart = omega arith;
  one_waits = refl;
  only = refl;
  queued = refl;
}

os_queue_receive-gets_example :
    (k1 : Kernel) × (rest : Kernel → Run (ℕ × Option ℕ)) × (k2 : Kernel) × (k3 : Kernel)
    × (os_queue_receive 0 50 before_receive ≡ yielded k1 rest)
    × ((k1.os_tasks 1).wait_queue ≡ some (semaphore_queue 3))
    × (os_queue_send 0 77 9 before_send ≡ yielded k2 (done os_success))
    × ((k2.os_tasks 1).state ≡ ready)
    × (rest (dispatch k2 1) ≡ done (os_success, some 77) k3)
    × Holds k3 0 []
os_queue_receive-gets_example =
    os_queue_receive-gets before_receive before_send 0 1 77 9 50 refl refl refl (omega arith)
      (omega arith) before_send-Awaits
