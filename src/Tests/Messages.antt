-- ===== src/Tests/Messages.antt =====
-- The theorems on the message queue of Kernel/os_queue.c, on a queue of two slots.
use sentinel_rtos.Base.{ℕ, ◌<◌, arith, List, [], ◌∷◌, length}
use sentinel_rtos.Kernel.State.{Kernel, os_success}
use sentinel_rtos.Kernel.Mutex.{os_mutex_init}
use sentinel_rtos.Kernel.Semaphore.{os_semaphore_init}
use sentinel_rtos.Queue.{os_queue_init, os_queue_send, os_queue_receive}
use sentinel_rtos.Queue.Fifo.{push, pop, Poll, sends, receives, replies}
use sentinel_rtos.Queue.Polled.{Holds, Polled}
use sentinel_rtos.Queue.Sent.{send_polled}
use sentinel_rtos.Queue.Received.{receive_polled}
use sentinel_rtos.Queue.Refines.{poll_all, Returns, init-Holds, init-replies}
use sentinel_rtos.Kernel.System.{reset_state}

-- The storage of queue 0, with semaphores 1 and 2.
abbrev pub storage : Kernel
storage = record reset_state {
  queues = λ q. record {
    buffer = 0;
    capacity = 0;
    head = 0;
    tail = 0;
    lock = 0;
    empty_slots = 1;
    filled_slots = 2;
  };
}

fresh : Kernel
fresh = os_queue_init 0 0x2000_2000 2 storage

fresh-Holds : Holds fresh 0 []
unfolding fresh
fresh-Holds = init-Holds storage 0 0x2000_2000 2 (omega arith) (omega arith) (omega arith)

abbrev one_sent :
    Polled fresh 0 (os_queue_send 0 7 0 fresh) os_success (push (fresh.queues 0).capacity [] 7)
one_sent = send_polled fresh 0 7 [] fresh-Holds

send_polled_example :
    Polled one_sent.after 0
      (os_queue_send 0 8 0 one_sent.after)
      os_success
      (push (one_sent.after.queues 0).capacity (push (fresh.queues 0).capacity [] 7) 8)
send_polled_example =
    send_polled one_sent.after 0 8 (push (fresh.queues 0).capacity [] 7) one_sent.holds

receive_polled_example :
    Polled one_sent.after 0
      (os_queue_receive 0 0 one_sent.after)
      (pop (push (fresh.queues 0).capacity [] 7)).0
      (pop (push (fresh.queues 0).capacity [] 7)).1
receive_polled_example =
    receive_polled one_sent.after 0 (push (fresh.queues 0).capacity [] 7) one_sent.holds

fresh_room : length {A = ℕ} [] < (fresh.queues 0).capacity
unfolding fresh os_queue_init os_semaphore_init os_mutex_init
fresh_room = omega arith

-- Three messages through two slots.
abbrev polls : List Poll
polls = sends 1 ∷ sends 2 ∷ sends 3 ∷ receives ∷ receives ∷ receives ∷ []

init-replies_example :
    Returns storage (poll_all 0 polls (os_queue_init 0 0x2000_2000 2 storage)) (replies 2 [] polls)
init-replies_example =
    init-replies 0 polls storage 0x2000_2000 2 (omega arith) (omega arith) (omega arith)
