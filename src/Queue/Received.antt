-- ===== src/Queue/Received.antt =====
-- `os_queue_receive` of Kernel/os_queue.c where nobody else is in the queue: the mutex is
-- free and no task waits.
use sentinel_rtos.Base.{
  ℕ, ◌+◌, ◌%◌, ◌<◌, ◌≡◌, ◌≢◌, refl, sym, ap, ◌∙◌, none, some, inl, List, [], ◌∷◌, length, arith,
}
use sentinel_rtos.Kernel.State.{Kernel, MessageQueue, os_success, os_timeout, wait_forever, u32_mod}
use sentinel_rtos.Kernel.Run.{done, bind}
use sentinel_rtos.Kernel.Mutex.{drop_donation}
use sentinel_rtos.Kernel.Mutex.Branches
use sentinel_rtos.Kernel.Semaphore.Branches as SemaphoreBranches
use sentinel_rtos.Queue.{
  fetch, finish_receive, receive_with, os_queue_receive, set_queue, next_slot, slot_address,
}
use sentinel_rtos.Queue.Fifo.{pop, rest}
use sentinel_rtos.Queue.Polled.{
  Holds, taken, given, locked, unlocked, Polled, Touches, Touches-nothing,
}
use sentinel_rtos.Queue.Ring.{ring, round_next, ring-rest, next_in_range}

-- The state after the read of the oldest message.
abbrev pub skipped : Kernel → ℕ → Kernel
skipped k q =
    set_queue k q (record (k.queues q) { tail = next_slot (k.queues q) (k.queues q).tail })

pub finish_receive_alone :
    (k : Kernel) (x : MessageQueue) (q : ℕ)
    → (k.mutexes x.lock).waiters.wait_count ≡ 0
    → (k.semaphores x.empty_slots).waiters.wait_count ≡ 0
    → (k.semaphores x.empty_slots).count < (k.semaphores x.empty_slots).max_count
    → finish_receive x q k
      ≡ done
          (os_success, some (k.memory (slot_address (k.queues q) (k.queues q).tail)))
          (given (unlocked (skipped k q) x.lock) x.empty_slots)
unfolding finish_receive fetch bind
finish_receive_alone k x q free quiet room = rw (
  Branches.release_idle (skipped k q) x.lock free,
  SemaphoreBranches.release_room (unlocked (skipped k q) x.lock) x.empty_slots quiet room,
)

pub received : Kernel → ℕ → Kernel
received k q =
    let x = k.queues q in
    given (unlocked (skipped (locked (taken k x.filled_slots) x.lock) q) x.lock) x.empty_slots

receive_has_message :
    (k : Kernel) (q timeout : ℕ) (xs : List ℕ)
    → Holds k q xs
    → 0 < length xs
    → os_queue_receive q timeout k
      ≡ done
          (os_success, some (k.memory (slot_address (k.queues q) (k.queues q).tail)))
          (received k q)
unfolding os_queue_receive receive_with bind received
receive_has_message k q timeout xs h some_there =
    let x = k.queues q in
    let k1 = taken k x.filled_slots in
    rw (
      SemaphoreBranches.acquire_token k x.filled_slots timeout (omega (arith, h.filled)),
      Branches.acquire_free k1 x.lock wait_forever h.quiet.unlocked,
      finish_receive_alone (locked k1 x.lock) x q (ground (arith, h.quiet.no_lock_waiters))
          (ground (arith, h.quiet.no_senders, h.quiet.apart))
          (ground (arith, h.quiet.apart, h.empty, h.empty_max)),
    )

pub queue_of_received :
    (k : Kernel) (q : ℕ)
    → (received k q).queues q
      ≡ record (k.queues q) { tail = next_slot (k.queues q) (k.queues q).tail }
unfolding received
queue_of_received k q = ground arith

module _ (k : Kernel) (q x : ℕ) (xs : List ℕ) (h : Holds k q (x ∷ xs)) where
  tail_moved :
      next_slot (k.queues q) (k.queues q).tail ≡ ((k.queues q).tail + 1) % (k.queues q).capacity
  tail_moved = next_in_range u32_mod (k.queues q).capacity (k.queues q).tail h.tail_in h.fits

  oldest_first :
      k.memory (slot_address (k.queues q) (k.queues q).tail)
        ∷ ring k.memory
            (k.queues q).buffer
            (k.queues q).capacity
            (((k.queues q).tail + 1) % (k.queues q).capacity)
            (length xs)
      ≡ x ∷ xs
  oldest_first =
      sym (
        ring-rest k.memory (k.queues q).buffer (k.queues q).capacity (k.queues q).tail (length xs)
          h.tail_in)
      ∙ h.contents

  pub received-Holds : Holds (received k q) q xs
  unfolding received
  received-Holds = rw (queue_of_received k q) (record {
    has_room = h.has_room;
    fits = h.fits;
    tail_in = omega (arith, tail_moved, h.has_room);
    at_most = omega (arith, h.at_most);
    head_at =
        h.head_at
        ∙ sym (
            rw tail_moved (
              round_next (k.queues q).capacity (k.queues q).tail (length xs)
              ∙ ap (λ n. ((k.queues q).tail + n) % (k.queues q).capacity) (omega arith)));
    contents = rw tail_moved (ap rest oldest_first);
    filled = ground (arith, h.filled, h.quiet.apart);
    filled_max = ground (arith, h.filled_max, h.quiet.apart);
    empty = ground (arith, h.empty, h.quiet.apart);
    empty_max = ground (arith, h.empty_max, h.quiet.apart);
    quiet = record {
      unlocked = ground arith;
      no_lock_waiters = ground (arith, h.quiet.no_lock_waiters);
      no_senders = ground (arith, h.quiet.no_senders, h.quiet.apart);
      no_receivers = ground (arith, h.quiet.no_receivers, h.quiet.apart);
      apart = h.quiet.apart;
    };
  })

primask-received : (k : Kernel) (q : ℕ) → (received k q).primask ≡ k.primask
unfolding received
primask-received k q = refl

-- A receive that finds a message does not block, whatever its timeout: it returns the oldest.
pub received-Touches :
    (k : Kernel) (q : ℕ) → Touches k (received k q) (k.queues q).buffer (k.queues q).capacity
unfolding received drop_donation
received-Touches k q = record {
  same_count = ground arith;
  same_current = ground arith;
  same_running = ground arith;
  same_slots = λ r. (ground arith, ground arith);
  tasks = λ t. ground arith;
  words = λ a. inl refl;
}

pub received-mutexes :
    (k : Kernel) (q m : ℕ) → m ≢ (k.queues q).lock → (received k q).mutexes m ≡ k.mutexes m
unfolding received
received-mutexes k q m other = ground arith

pub takes_oldest :
    (k : Kernel) (q timeout x : ℕ) (xs : List ℕ)
    → Holds k q (x ∷ xs)
    → os_queue_receive q timeout k ≡ done (os_success, some x) (received k q)
takes_oldest k q timeout x xs h =
    receive_has_message k q timeout (x ∷ xs) h (omega arith)
    ∙ ap (λ y. done (os_success, some y) (received k q)) (ground (arith, oldest_first k q x xs h))

pub receive_oldest :
    (k : Kernel) (q timeout x : ℕ) (xs : List ℕ)
    → Holds k q (x ∷ xs)
    → Polled k q (os_queue_receive q timeout k) (os_success, some x) xs
receive_oldest k q timeout x xs h = record {
  after = received k q;
  returns = takes_oldest k q timeout x xs h;
  holds = received-Holds k q x xs h;
  same_capacity = ap (λ (y : MessageQueue). y.capacity) (queue_of_received k q);
  same_mask = primask-received k q;
  same_buffer = ap (λ (y : MessageQueue). y.buffer) (queue_of_received k q);
  touched = received-Touches k q;
}

pub receive_nothing :
    (k : Kernel) (q : ℕ) → Holds k q [] → Polled k q (os_queue_receive q 0 k) (os_timeout, none) []
unfolding os_queue_receive bind
receive_nothing k q h = record {
  after = k;
  returns =
      rw (SemaphoreBranches.acquire_poll k (k.queues q).filled_slots (omega (arith, h.filled)));
  holds = h;
  same_capacity = refl;
  same_mask = refl;
  same_buffer = refl;
  touched = Touches-nothing k (k.queues q).buffer (k.queues q).capacity;
}

-- A receive with a timeout of 0 from a queue that holds `xs`, with nobody else in it, returns the
-- oldest message and takes it out, or OS_TIMEOUT from an empty queue. The capacity, the buffer and PRIMASK stay. Of the
-- task table, the running task and the memory nothing changes but words of the queue's buffer and
-- priorities, which fall back to their base.
pub receive_polled :
    (k : Kernel) (q : ℕ) (xs : List ℕ)
    → Holds k q xs
    → Polled k q (os_queue_receive q 0 k) (pop xs).0 (pop xs).1
unfolding pop
receive_polled k q [] h = receive_nothing k q h
receive_polled k q (x ∷ xs) h = receive_oldest k q 0 x xs h
