-- ===== src/Queue/Refines.antt =====
-- The message queue of Kernel/os_queue.c against the queue of `Fifo`, for clients that poll.
use sentinel_rtos.Base.{ℕ, ◌<◌, ◌≡◌, ◌≢◌, refl, ◌∙◌, ap, none, List, [], ◌∷◌, arith}
use sentinel_rtos.Kernel.State.{Kernel, MessageQueue, u32_mod}
use sentinel_rtos.Kernel.Run.{Run, M, done, bind, ◌>>=◌, pure}
use sentinel_rtos.Kernel.Mutex.{os_mutex_init}
use sentinel_rtos.Kernel.Semaphore.{os_semaphore_init}
use sentinel_rtos.Queue.{os_queue_init, os_queue_send, os_queue_receive}
use sentinel_rtos.Queue.Fifo.{push, pop, Poll, sends, receives, Reply, replies}
use sentinel_rtos.Queue.Polled.{Holds}
use sentinel_rtos.Queue.Sent.{send_polled}
use sentinel_rtos.Queue.Received.{receive_polled}

-- A client that polls the queue in order, and collects what each call returns.
unfoldable pub poll_all : ℕ → List Poll → M (List Reply)
poll_all q [] = pure []
poll_all q (sends message ∷ polls) = do
  code ← os_queue_send q message 0
  others ← poll_all q polls
  pure ((code, none) ∷ others)
poll_all q (receives ∷ polls) = do
  reply ← os_queue_receive q 0
  others ← poll_all q polls
  pure (reply ∷ others)

pub queue_of_init :
    (k : Kernel) (q buffer capacity : ℕ)
    → (os_queue_init q buffer capacity k).queues q
      ≡ record (k.queues q) { buffer = buffer; capacity = capacity; head = 0; tail = 0 }
unfolding os_queue_init os_mutex_init os_semaphore_init
queue_of_init k q buffer capacity = ground arith

pub primask-init :
    (k : Kernel) (q buffer capacity : ℕ) → (os_queue_init q buffer capacity k).primask ≡ k.primask
unfolding os_queue_init os_mutex_init os_semaphore_init
primask-init k q buffer capacity = refl

-- A fresh queue is empty, if its two semaphores are different objects and its capacity is positive
-- and fits in 32 bits.
pub init-Holds :
    (k : Kernel) (q buffer capacity : ℕ)
    → 0 < capacity
    → capacity < u32_mod
    → (k.queues q).empty_slots ≢ (k.queues q).filled_slots
    → Holds (os_queue_init q buffer capacity k) q []
unfolding os_queue_init os_mutex_init os_semaphore_init
init-Holds k q buffer capacity pos small apart = rw (queue_of_init k q buffer capacity) (record {
  has_room = pos;
  fits = small;
  tail_in = pos;
  at_most = omega arith;
  head_at = ground arith;
  contents = refl;
  filled = ground arith;
  filled_max = ground arith;
  empty = ground arith;
  empty_max = ground arith;
  quiet = record {
    unlocked = ground arith;
    no_lock_waiters = ground arith;
    no_senders = ground arith;
    no_receivers = ground arith;
    apart = apart;
  };
})

-- The run returns `r`, with PRIMASK as it was.
abbrev pub Returns {ℓ} : {A : Type ℓ} → Kernel → Run A → A → Type ℓ
Returns k run r = (k' : Kernel) × (run ≡ done r k') × (k'.primask ≡ k.primask)

-- Any sequence of polls, from any state in which queue `q` holds `xs`, returns with the replies of
-- the bounded queue that drops its oldest message when full, and with PRIMASK as it was.
pub poll_all-replies :
    (q : ℕ) (polls : List Poll) (k : Kernel) (xs : List ℕ)
    → Holds k q xs
    → Returns k (poll_all q polls k) (replies (k.queues q).capacity xs polls)
unfolding poll_all replies bind
poll_all-replies q [] k xs h = (k, refl, refl)
poll_all-replies q (sends message ∷ polls) k xs h =
    let p = send_polled k q message xs h in
    let (j, returned, mask) =
      poll_all-replies q polls p.after (push (k.queues q).capacity xs message) p.holds in
    (j, rw (p.returns, returned, p.same_capacity), mask ∙ p.same_mask)
poll_all-replies q (receives ∷ polls) k xs h =
    let p = receive_polled k q xs h in
    let (j, returned, mask) = poll_all-replies q polls p.after (pop xs).1 p.holds in
    (j, rw (p.returns, returned, p.same_capacity), mask ∙ p.same_mask)

-- From `os_queue_init` on, with a positive capacity below 2^32 and two different semaphores, any
-- sequence of polls by one client returns, with the replies of the empty queue of `Fifo` and with
-- PRIMASK as it was.
pub init-replies :
    (q : ℕ) (polls : List Poll) (k : Kernel) (buffer capacity : ℕ)
    → 0 < capacity
    → capacity < u32_mod
    → (k.queues q).empty_slots ≢ (k.queues q).filled_slots
    → Returns k (poll_all q polls (os_queue_init q buffer capacity k)) (replies capacity [] polls)
init-replies q polls k buffer capacity pos small apart =
    let k' = os_queue_init q buffer capacity k in
    let (j, returned, mask) =
      poll_all-replies q polls k' [] (init-Holds k q buffer capacity pos small apart) in
    (
      j,
      returned
          ∙ ap (λ (x : MessageQueue). done (replies x.capacity [] polls) j)
              (queue_of_init k q buffer capacity),
      mask ∙ primask-init k q buffer capacity,
    )
