-- ===== src/Queue/Kept.antt =====
-- Steps that leave a queue of Kernel/os_queue.c alone.
use sentinel_rtos.Base.{ℕ, ◌+◌, ◌*◌, ◌%◌, ◌<◌, ◌≤◌, ◌≡◌, ◌∙◌, List, length, elements-ext, arith}
use sentinel_rtos.Kernel.State.{Kernel, Semaphore}
use sentinel_rtos.Queue.Polled.{Holds, HoldsAt}
use sentinel_rtos.Queue.Ring.{ring}

-- The count and the waiters of a semaphore.
abbrev pub SameTokens : Semaphore → Semaphore → Type 0
SameTokens x y =
    (y.count ≡ x.count)
    × (y.max_count ≡ x.max_count)
    × (y.waiters.wait_count ≡ x.waiters.wait_count)

-- The queue, its three objects and its buffer are as they were.
pub record Leaves (k k' : Kernel) (q : ℕ) : Type 0 where
  pub same_queue : k'.queues q ≡ k.queues q
  pub same_lock :
      ((k'.mutexes (k.queues q).lock).lock ≡ (k.mutexes (k.queues q).lock).lock)
      × ((k'.mutexes (k.queues q).lock).waiters.wait_count
          ≡ (k.mutexes (k.queues q).lock).waiters.wait_count)
  pub same_empty :
      SameTokens (k.semaphores (k.queues q).empty_slots) (k'.semaphores (k.queues q).empty_slots)
  pub same_filled :
      SameTokens (k.semaphores (k.queues q).filled_slots) (k'.semaphores (k.queues q).filled_slots)
  pub same_words :
      (a : ℕ)
      → (k.queues q).buffer ≤ a
      → a < (k.queues q).buffer + 4 * (k.queues q).capacity
      → k'.memory a ≡ k.memory a

ring-ext :
    (m m' : ℕ → ℕ) (buffer capacity tail n : ℕ)
    → 0 < capacity
    → ((a : ℕ) → buffer ≤ a → a < buffer + 4 * capacity → m' a ≡ m a)
    → ring m' buffer capacity tail n ≡ ring m buffer capacity tail n
ring-ext m m' buffer capacity tail n some_room same =
    elements-ext (λ i. m' (buffer + 4 * ((tail + i) % capacity)))
      (λ i. m (buffer + 4 * ((tail + i) % capacity))) 0 0 n
      (λ i lt. same (buffer + 4 * ((tail + (0 + i)) % capacity)) (omega arith) (omega arith))

-- Then it holds the messages that it held.
pub Leaves-Holds :
    (k k' : Kernel) (q : ℕ) (xs : List ℕ) → Leaves k k' q → Holds k q xs → Holds k' q xs
Leaves-Holds k k' q xs same h = rw same.same_queue at_queue
  where
    at_queue : HoldsAt k' (k.queues q) xs
    at_queue = record {
      has_room = h.has_room;
      fits = h.fits;
      tail_in = h.tail_in;
      at_most = h.at_most;
      head_at = h.head_at;
      contents =
          ring-ext k.memory k'.memory (k.queues q).buffer (k.queues q).capacity (k.queues q).tail
            (length xs) h.has_room same.same_words
          ∙ h.contents;
      filled = same.same_filled.0 ∙ h.filled;
      filled_max = same.same_filled.1 ∙ h.filled_max;
      empty = ground (arith, same.same_empty.0, h.empty);
      empty_max = same.same_empty.1 ∙ h.empty_max;
      quiet = record {
        unlocked = same.same_lock.0 ∙ h.quiet.unlocked;
        no_lock_waiters = same.same_lock.1 ∙ h.quiet.no_lock_waiters;
        no_senders = same.same_empty.2 ∙ h.quiet.no_senders;
        no_receivers = same.same_filled.2 ∙ h.quiet.no_receivers;
        apart = h.quiet.apart;
      };
    }
