-- ===== src/Queue/Passing.antt =====
-- The states of a queue of Kernel/os_queue.c in which a message passes to a task that waits for one.
use native.Mathlib.Nat.{mod-lt, mod-eq_of_lt}
use sentinel_rtos.Base.{ℕ, ◌+◌, ◌%◌, ◌<◌, ◌≡◌, ◌≢◌, refl, sym, ap, ◌∙◌, some, [], arith}
use sentinel_rtos.Kernel.State.{
  Kernel, MessageQueue, semaphore_queue, os_success, wait_forever, u32_mod,
}
use sentinel_rtos.Kernel.Run.{done, bind}
use sentinel_rtos.Kernel.Scheduler.{dispatch}
use sentinel_rtos.Kernel.Mutex.Branches
use sentinel_rtos.Kernel.Safety.Switch.{dispatch-objects, dispatch-rest}
use sentinel_rtos.Queue.{receive_with, next_slot, slot_address}
use sentinel_rtos.Queue.Polled.{Holds, IsQuiet, given, locked, unlocked}
use sentinel_rtos.Queue.Received.{skipped, finish_receive_alone}

-- The queue is empty, and task `c` alone waits for a message.
pub record Awaits (k : Kernel) (q c : ℕ) (x : MessageQueue) : Type 0 where
  pub is_queue : k.queues q ≡ x
  pub has_room : 0 < x.capacity
  pub fits : x.capacity < u32_mod
  pub tail_in : x.tail < x.capacity
  pub head_at : x.head ≡ x.tail
  pub filled : (k.semaphores x.filled_slots).count ≡ 0
  pub filled_max : (k.semaphores x.filled_slots).max_count ≡ x.capacity
  pub empty : (k.semaphores x.empty_slots).count ≡ x.capacity
  pub empty_max : (k.semaphores x.empty_slots).max_count ≡ x.capacity
  pub unlocked : (k.mutexes x.lock).lock ≡ 0
  pub no_lock_waiters : (k.mutexes x.lock).waiters.wait_count ≡ 0
  pub no_senders : (k.semaphores x.empty_slots).waiters.wait_count ≡ 0
  pub apart : x.empty_slots ≢ x.filled_slots
  pub one_waits : (k.semaphores x.filled_slots).waiters.wait_count ≡ 1
  pub only : (k.semaphores x.filled_slots).waiters.slots 0 ≡ c
  pub queued : (k.os_tasks c).wait_queue ≡ some (semaphore_queue x.filled_slots)

-- A message is stored whose token went straight to the receiver.
pub record Passed (k : Kernel) (q : ℕ) (x : MessageQueue) (message : ℕ) : Type 0 where
  pub is_queue : k.queues q ≡ record x { head = next_slot x x.head }
  pub has_room : 0 < x.capacity
  pub fits : x.capacity < u32_mod
  pub tail_in : x.tail < x.capacity
  pub head_at : x.head ≡ x.tail
  pub stored : k.memory (slot_address x x.tail) ≡ message
  pub filled : (k.semaphores x.filled_slots).count ≡ 0
  pub filled_max : (k.semaphores x.filled_slots).max_count ≡ x.capacity
  pub empty : (k.semaphores x.empty_slots).count + 1 ≡ x.capacity
  pub empty_max : (k.semaphores x.empty_slots).max_count ≡ x.capacity
  pub quiet : IsQuiet k x

module _ (k : Kernel) (q : ℕ) (x : MessageQueue) (message : ℕ) where
  pub dispatch-Passed : (c : ℕ) → Passed k q x message → Passed (dispatch k c) q x message
  dispatch-Passed c p =
      let objects = dispatch-objects k c in
      let others = dispatch-rest k c in
      record {
        is_queue = ap (λ f. f q) others.2 ∙ p.is_queue;
        has_room = p.has_room;
        fits = p.fits;
        tail_in = p.tail_in;
        head_at = p.head_at;
        stored = ap (λ m. m (slot_address x x.tail)) others.0 ∙ p.stored;
        filled = rw objects.2 p.filled;
        filled_max = rw objects.2 p.filled_max;
        empty = rw objects.2 p.empty;
        empty_max = rw objects.2 p.empty_max;
        quiet = record {
          unlocked = rw objects.1 p.quiet.unlocked;
          no_lock_waiters = rw objects.1 p.quiet.no_lock_waiters;
          no_senders = rw objects.2 p.quiet.no_senders;
          no_receivers = rw objects.2 p.quiet.no_receivers;
          apart = p.quiet.apart;
        };
      }

  -- The state after the receiver has fetched the message.
  abbrev pub fetched : Kernel
  fetched = given (unlocked (skipped (locked k x.lock) q) x.lock) x.empty_slots

  pub fetches : Passed k q x message → receive_with x q k ≡ done (os_success, some message) fetched
  unfolding receive_with bind
  fetches p =
      rw
        (
          Branches.acquire_free k x.lock wait_forever p.quiet.unlocked,
          finish_receive_alone (locked k x.lock) x q (ground (arith, p.quiet.no_lock_waiters))
              p.quiet.no_senders (omega (arith, p.empty, p.empty_max)),
        )
        (ap (λ y. done (os_success, some y) fetched)
          (ap (λ (y : MessageQueue). k.memory (slot_address y y.tail)) p.is_queue ∙ p.stored))

  queue_of_fetched :
      Passed k q x message
      → fetched.queues q ≡ record x { head = next_slot x x.head; tail = next_slot x x.tail }
  queue_of_fetched p = ground (arith, p.is_queue)

  pub fetched-Holds : Passed k q x message → Holds fetched q []
  fetched-Holds p =
      let below : next_slot x x.tail < x.capacity = mod-lt ((x.tail + 1) % u32_mod) p.has_room in
      rw (queue_of_fetched p) (record {
        has_room = p.has_room;
        fits = p.fits;
        tail_in = below;
        at_most = omega arith;
        head_at =
            ap (next_slot x) p.head_at
            ∙ sym (ap (λ i. i % x.capacity) (omega arith) ∙ mod-eq_of_lt below);
        contents = refl;
        filled = ground (arith, p.filled, p.quiet.apart);
        filled_max = ground (arith, p.filled_max, p.quiet.apart);
        empty = ground (arith, p.empty);
        empty_max = ground (arith, p.empty_max);
        quiet = record {
          unlocked = ground arith;
          no_lock_waiters = ground (arith, p.quiet.no_lock_waiters);
          no_senders = ground (arith, p.quiet.no_senders);
          no_receivers = ground (arith, p.quiet.no_receivers, p.quiet.apart);
          apart = p.quiet.apart;
        };
      })
