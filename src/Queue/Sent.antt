-- ===== src/Queue/Sent.antt =====
-- `os_queue_send` of Kernel/os_queue.c where nobody else is in the queue: the mutex is
-- free and no task waits.
use native.Mathlib.Nat.{mod-lt}
use sentinel_rtos.Base.{
  ℕ, ◌+◌, ◌%◌, ◌<◌, ◌≡◌, refl, sym, ap, subst, ◌∙◌, inl, inr, List, [], ◌∷◌, ◌++◌, ltb, update,
  length, length-append, arith, Bool-cases,
}
use sentinel_rtos.Kernel.State.{Kernel, MessageQueue, os_success, u32_mod}
use sentinel_rtos.Kernel.Mutex.{drop_donation}
use sentinel_rtos.Queue.{os_queue_send, next_slot, slot_address}
use sentinel_rtos.Queue.Fifo.{push, rest}
use sentinel_rtos.Queue.Polled.{Holds, Polled, Touches}
use sentinel_rtos.Queue.Ring.{
  ring, ring-append, ring-rest, next_behind, next_in_range, full_round, last_of_full,
}
use sentinel_rtos.Queue.Sending.{sent, overwritten, send_has_slot, send_has_none}

queue_of_sent :
    (k : Kernel) (q message : ℕ)
    → (sent k q message).queues q
      ≡ record (k.queues q) { head = next_slot (k.queues q) (k.queues q).head }
unfolding sent
queue_of_sent k q message = ground arith

length-snoc : (xs : List ℕ) (message : ℕ) → length (xs ++ (message ∷ [])) ≡ length xs + 1
length-snoc xs message = length-append xs (message ∷ [])

sent-Holds :
    (k : Kernel) (q message : ℕ) (xs : List ℕ)
    → Holds k q xs
    → length xs < (k.queues q).capacity
    → Holds (sent k q message) q (xs ++ (message ∷ []))
unfolding sent
sent-Holds k q message xs h lt = rw (queue_of_sent k q message) (record {
  has_room = h.has_room;
  fits = h.fits;
  tail_in = h.tail_in;
  at_most = omega (arith, length-snoc xs message);
  head_at =
      rw (length-snoc xs message, h.head_at)
        (next_behind u32_mod (k.queues q).capacity (k.queues q).tail (length xs) h.has_room h.fits);
  contents =
      rw (length-snoc xs message, h.head_at)
        (ring-append k.memory (k.queues q).buffer (k.queues q).capacity (k.queues q).tail
            (length xs) message h.tail_in lt
          ∙ ap (λ ys. ys ++ (message ∷ [])) h.contents);
  filled = ground (arith, h.filled, h.quiet.apart, length-snoc xs message);
  filled_max = ground (arith, h.filled_max, h.quiet.apart);
  empty = ground (arith, h.empty, h.quiet.apart, length-snoc xs message);
  empty_max = ground (arith, h.empty_max, h.quiet.apart);
  quiet = record {
    unlocked = ground arith;
    no_lock_waiters = ground (arith, h.quiet.no_lock_waiters);
    no_senders = ground (arith, h.quiet.no_senders, h.quiet.apart);
    no_receivers = ground (arith, h.quiet.no_receivers, h.quiet.apart);
    apart = h.quiet.apart;
  };
})

queue_of_overwritten :
    (k : Kernel) (q message : ℕ)
    → (overwritten k q message).queues q ≡ record (k.queues q) {
      head = next_slot (k.queues q) (k.queues q).head;
      tail = next_slot (k.queues q) (k.queues q).tail;
    }
unfolding overwritten
queue_of_overwritten k q message = ground arith

module _ (k : Kernel) (q message x : ℕ) (xs : List ℕ) (h : Holds k q (x ∷ xs))
    (full : length xs + 1 ≡ (k.queues q).capacity) where
  tail_moved :
      next_slot (k.queues q) (k.queues q).tail ≡ ((k.queues q).tail + 1) % (k.queues q).capacity
  tail_moved = next_in_range u32_mod (k.queues q).capacity (k.queues q).tail h.tail_in h.fits

  head_is_tail : (k.queues q).head ≡ (k.queues q).tail
  head_is_tail =
      h.head_at
      ∙ ap (λ n. ((k.queues q).tail + n) % (k.queues q).capacity) (omega arith)
      ∙ full_round (k.queues q).capacity (k.queues q).tail h.tail_in

  overwritten-contents :
      ring
        (update k.memory (slot_address (k.queues q) (k.queues q).head) message)
        (k.queues q).buffer
        (k.queues q).capacity
        (((k.queues q).tail + 1) % (k.queues q).capacity)
        (length xs + 1)
      ≡ xs ++ (message ∷ [])
  overwritten-contents =
      rw
        (head_is_tail
          ∙ sym (last_of_full (k.queues q).capacity (k.queues q).tail (length xs) h.tail_in full))
        (ring-append k.memory (k.queues q).buffer (k.queues q).capacity
            (((k.queues q).tail + 1) % (k.queues q).capacity) (length xs) message (omega arith)
            (omega arith)
          ∙ ap (λ ys. ys ++ (message ∷ []))
              (ap rest (
                sym (
                  ring-rest k.memory (k.queues q).buffer (k.queues q).capacity (k.queues q).tail
                    (length xs) h.tail_in)
                ∙ h.contents)))

  overwritten-Holds : Holds (overwritten k q message) q (xs ++ (message ∷ []))
  unfolding overwritten
  overwritten-Holds = rw (queue_of_overwritten k q message) (record {
    has_room = h.has_room;
    fits = h.fits;
    tail_in = omega (arith, tail_moved, h.has_room);
    at_most = omega (arith, length-snoc xs message);
    head_at =
        ap (next_slot (k.queues q)) head_is_tail
        ∙ tail_moved
        ∙ sym (
            rw (length-snoc xs message, full, tail_moved)
              (full_round (k.queues q).capacity (((k.queues q).tail + 1) % (k.queues q).capacity)
                (omega arith)));
    contents = rw (length-snoc xs message, tail_moved) overwritten-contents;
    filled = ground (arith, h.filled, h.quiet.apart, length-snoc xs message);
    filled_max = h.filled_max;
    empty = ground (arith, h.empty, h.quiet.apart, length-snoc xs message);
    empty_max = h.empty_max;
    quiet = record {
      unlocked = ground arith;
      no_lock_waiters = ground (arith, h.quiet.no_lock_waiters);
      no_senders = h.quiet.no_senders;
      no_receivers = h.quiet.no_receivers;
      apart = h.quiet.apart;
    };
  })

module _ (k : Kernel) (q message : ℕ) where
  primask-sent : (sent k q message).primask ≡ k.primask
  unfolding sent
  primask-sent = refl

  primask-overwritten : (overwritten k q message).primask ≡ k.primask
  unfolding overwritten
  primask-overwritten = refl

head_in :
    (k : Kernel) (q : ℕ) (xs : List ℕ) → Holds k q xs → (k.queues q).head < (k.queues q).capacity
head_in k q xs h =
    subst (λ i. i < (k.queues q).capacity) (sym h.head_at)
      (mod-lt ((k.queues q).tail + length xs) h.has_room)

sent-Touches :
    (k : Kernel) (q message : ℕ) (xs : List ℕ)
    → Holds k q xs
    → Touches k (sent k q message) (k.queues q).buffer (k.queues q).capacity
unfolding sent drop_donation
sent-Touches k q message xs h = record {
  same_count = ground arith;
  same_current = ground arith;
  same_running = ground arith;
  same_slots = λ r. (ground arith, ground arith);
  tasks = λ t. ground arith;
  words = λ a. ground (arith, head_in k q xs h);
}

overwritten-Touches :
    (k : Kernel) (q message : ℕ) (xs : List ℕ)
    → Holds k q xs
    → Touches k (overwritten k q message) (k.queues q).buffer (k.queues q).capacity
unfolding overwritten drop_donation
overwritten-Touches k q message xs h = record {
  same_count = ground arith;
  same_current = ground arith;
  same_running = ground arith;
  same_slots = λ r. (ground arith, ground arith);
  tasks = λ t. ground arith;
  words = λ a. ground (arith, head_in k q xs h);
}

send_full :
    (k : Kernel) (q message : ℕ) (xs : List ℕ)
    → Holds k q xs
    → length xs ≡ (k.queues q).capacity
    → Polled k q (os_queue_send q message 0 k) os_success (rest xs ++ (message ∷ []))
send_full k q message [] h full = absurd (omega (arith, h.has_room))
send_full k q message (x ∷ xs) h full = record {
  after = overwritten k q message;
  returns = send_has_none k q message (x ∷ xs) h full;
  holds = overwritten-Holds k q message x xs h (omega arith);
  same_capacity = ap (λ (y : MessageQueue). y.capacity) (queue_of_overwritten k q message);
  same_mask = primask-overwritten k q message;
  same_buffer = ap (λ (y : MessageQueue). y.buffer) (queue_of_overwritten k q message);
  touched = overwritten-Touches k q message (x ∷ xs) h;
}

-- A send with any timeout to a queue that holds `xs`, with nobody else in it and a free slot,
-- returns OS_SUCCESS at once and appends its message. The capacity, the buffer and PRIMASK stay. Of the
-- task table, the running task and the memory nothing changes but words of the queue's buffer and
-- priorities, which fall back to their base.
pub send_with_room :
    (k : Kernel) (q message timeout : ℕ) (xs : List ℕ)
    → Holds k q xs
    → length xs < (k.queues q).capacity
    → Polled k q (os_queue_send q message timeout k) os_success (xs ++ (message ∷ []))
send_with_room k q message timeout xs h lt = record {
  after = sent k q message;
  returns = send_has_slot k q message timeout xs h lt;
  holds = sent-Holds k q message xs h lt;
  same_capacity = ap (λ (x : MessageQueue). x.capacity) (queue_of_sent k q message);
  same_mask = primask-sent k q message;
  same_buffer = ap (λ (x : MessageQueue). x.buffer) (queue_of_sent k q message);
  touched = sent-Touches k q message xs h;
}

-- A send with a timeout of 0 to a queue that holds `xs`, with nobody else in it, returns OS_SUCCESS
-- at once. It appends its message behind the others where there is room, and drops the oldest for
-- it where there is none. The capacity, the buffer and PRIMASK stay. Of the
-- task table, the running task and the memory nothing changes but words of the queue's buffer and
-- priorities, which fall back to their base.
pub send_polled :
    (k : Kernel) (q message : ℕ) (xs : List ℕ)
    → Holds k q xs
    → Polled k q (os_queue_send q message 0 k) os_success (push (k.queues q).capacity xs message)
unfolding push
send_polled k q message xs h = elim (Bool-cases (ltb (length xs) (k.queues q).capacity)) [
  | inl lt ↦ rw lt (send_with_room k q message 0 xs h (ground arith))
  | inr ge ↦ rw ge (send_full k q message xs h (ground (arith, h.at_most)))
]
