-- ===== src/Queue/Polled.antt =====
-- `os_queue_send` and `os_queue_receive` of Kernel/os_queue.c where nobody else is in the queue: the
-- mutex is free and no task waits.
use mathlib.Core.Path.{subst₂}
use sentinel_rtos.Base.{
  ℕ, ◌+◌, ◌-◌, ◌*◌, ◌%◌, ◌<◌, ◌≤◌, ◌≡◌, ◌≢◌, ◌⊎◌, refl, ◌∙◌, inl, arith, none, List, update, length,
}
use sentinel_rtos.Kernel.State.{Kernel, MessageQueue, set_mutex, set_semaphore, u32_mod}
use sentinel_rtos.Kernel.Run.{Run, M, done, bind}
use sentinel_rtos.Kernel.Mutex.{drop_donation}
use sentinel_rtos.Queue.Ring.{ring}

-- Nobody holds the mutex of queue `x`, and nobody waits for it or for either semaphore.
pub record IsQuiet (k : Kernel) (x : MessageQueue) : Type 0 where
  pub unlocked : (k.mutexes x.lock).lock ≡ 0
  pub no_lock_waiters : (k.mutexes x.lock).waiters.wait_count ≡ 0
  pub no_senders : (k.semaphores x.empty_slots).waiters.wait_count ≡ 0
  pub no_receivers : (k.semaphores x.filled_slots).waiters.wait_count ≡ 0
  pub apart : x.empty_slots ≢ x.filled_slots

-- The queue `x` holds the messages `xs`, oldest first.
pub record HoldsAt (k : Kernel) (x : MessageQueue) (xs : List ℕ) : Type 0 where
  pub has_room : 0 < x.capacity
  pub fits : x.capacity < u32_mod
  pub tail_in : x.tail < x.capacity
  pub at_most : length xs ≤ x.capacity
  pub head_at : x.head ≡ (x.tail + length xs) % x.capacity
  pub contents : ring k.memory x.buffer x.capacity x.tail (length xs) ≡ xs
  pub filled : (k.semaphores x.filled_slots).count ≡ length xs
  pub filled_max : (k.semaphores x.filled_slots).max_count ≡ x.capacity
  pub empty : (k.semaphores x.empty_slots).count + length xs ≡ x.capacity
  pub empty_max : (k.semaphores x.empty_slots).max_count ≡ x.capacity
  pub quiet : IsQuiet k x

abbrev pub Holds : Kernel → ℕ → List ℕ → Type 0
Holds k q xs = HoldsAt k (k.queues q) xs

-- The steps of a poll that meets nobody.
abbrev pub taken : Kernel → ℕ → Kernel
taken k s = set_semaphore k s (record (k.semaphores s) { count = (k.semaphores s).count - 1 })

abbrev pub given : Kernel → ℕ → Kernel
given k s = set_semaphore k s (record (k.semaphores s) { count = (k.semaphores s).count + 1 })

abbrev pub locked : Kernel → ℕ → Kernel
locked k m = set_mutex k m (record (k.mutexes m) { lock = 1; owner = k.current_tcb })

abbrev pub unlocked : Kernel → ℕ → Kernel
unlocked k m = record k {
  os_tasks = (drop_donation k m).os_tasks;
  mutexes = update k.mutexes m (record (k.mutexes m) { lock = 0; owner = none });
}

-- What changes of the task table, the running task, the wiring of the queues and the memory: words of the buffer
-- of `capacity` slots, and priorities that fall back to their base.
pub record Touches (k k' : Kernel) (buffer capacity : ℕ) : Type 0 where
  pub same_count : k'.task_count ≡ k.task_count
  pub same_current : k'.current_tcb ≡ k.current_tcb
  pub same_running : k'.kernel_running ≡ k.kernel_running
  pub same_slots :
      (r : ℕ)
      → ((k'.queues r).empty_slots ≡ (k.queues r).empty_slots)
        × ((k'.queues r).filled_slots ≡ (k.queues r).filled_slots)
  pub tasks :
      (t : ℕ)
      → (k'.os_tasks t ≡ k.os_tasks t)
        ⊎ (k'.os_tasks t
            ≡ record (k.os_tasks t) { current_priority = (k.os_tasks t).base_priority })
  pub words : (a : ℕ) → (k'.memory a ≡ k.memory a) ⊎ ((buffer ≤ a) × (a < buffer + 4 * capacity))

pub Touches-nothing : (k : Kernel) (buffer capacity : ℕ) → Touches k k buffer capacity
Touches-nothing k buffer capacity = record {
  same_count = refl;
  same_current = refl;
  same_running = refl;
  same_slots = λ r. (refl, refl);
  tasks = λ t. inl refl;
  words = λ a. inl refl;
}

pub Touches-trans :
    (k j k' : Kernel) (buffer capacity : ℕ)
    → Touches k j buffer capacity
    → Touches j k' buffer capacity
    → Touches k k' buffer capacity
Touches-trans k j k' buffer capacity g h = record {
  same_count = h.same_count ∙ g.same_count;
  same_current = h.same_current ∙ g.same_current;
  same_running = h.same_running ∙ g.same_running;
  same_slots =
      λ r. ((h.same_slots r).0 ∙ (g.same_slots r).0, (h.same_slots r).1 ∙ (g.same_slots r).1);
  tasks = λ t. ground (arith, g.tasks t, h.tasks t);
  words = λ a. ground (arith, g.words a, h.words a);
}

-- What a poll has done when it stops: it has returned `r`, the queue holds `xs` within the same
-- capacity and the same buffer, and PRIMASK is as it was.
pub record Polled {ℓ} {A : Type ℓ} (k : Kernel) (q : ℕ) (run : Run A) (r : A) (xs : List ℕ)
    : Type ℓ where
  pub after : Kernel
  pub returns : run ≡ done r after
  pub holds : Holds after q xs
  pub same_capacity : (after.queues q).capacity ≡ (k.queues q).capacity
  pub same_mask : after.primask ≡ k.primask
  pub same_buffer : (after.queues q).buffer ≡ (k.queues q).buffer
  pub touched : Touches k after (k.queues q).buffer (k.queues q).capacity

-- A run that goes on after a poll, as seen from the state before.
pub after_poll :
    {A B : Type 0} (k : Kernel) (q : ℕ) (run : Run A) (r : A) (xs : List ℕ)
    (p : Polled k q run r xs) (f : A → M B) (b : B) (ys : List ℕ)
    → Polled p.after q (f r p.after) b ys
    → Polled k q (bind run f) b ys
unfolding bind
after_poll k q run r xs p f b ys rest = record {
  after = rest.after;
  returns = rw p.returns rest.returns;
  holds = rest.holds;
  same_capacity = rest.same_capacity ∙ p.same_capacity;
  same_mask = rest.same_mask ∙ p.same_mask;
  same_buffer = rest.same_buffer ∙ p.same_buffer;
  touched =
      Touches-trans k p.after rest.after (k.queues q).buffer (k.queues q).capacity p.touched
        (subst₂ (Touches p.after rest.after) p.same_buffer p.same_capacity rest.touched);
}

-- A return without effect.
pub stays :
    {A : Type 0} (k : Kernel) (q : ℕ) (a : A) (xs : List ℕ)
    → Holds k q xs
    → Polled k q (done a k) a xs
stays k q a xs h = record {
  after = k;
  returns = refl;
  holds = h;
  same_capacity = refl;
  same_mask = refl;
  same_buffer = refl;
  touched = Touches-nothing k (k.queues q).buffer (k.queues q).capacity;
}
