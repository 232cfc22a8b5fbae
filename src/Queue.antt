-- ===== src/Queue.antt =====
-- The message queue of Kernel/os_queue.c.
pub mod Fifo
pub mod Ring
pub mod Polled
pub mod Kept
pub mod Sending
pub mod Sent
pub mod Received
pub mod Refines
pub mod Passing
pub mod Rendezvous
use sentinel_rtos.Base.{
  ℕ, ◌+◌, ◌*◌, ◌%◌, Bool, true, false, not, Option, none, some, ◌==◌, if◌then◌else◌, update,
}
use sentinel_rtos.Kernel.State.{
  Kernel, MessageQueue, os_success, os_timeout, os_fail, wait_forever, u32_mod,
}
use sentinel_rtos.Kernel.Run.{Run, M, done, bind, pure, ◌>>=◌, ◌>>◌}
use sentinel_rtos.Kernel.Mutex.{os_mutex_init, os_mutex_acquire, os_mutex_release}
use sentinel_rtos.Kernel.Semaphore.{os_semaphore_init, os_semaphore_acquire, os_semaphore_release}

abbrev pub set_queue : Kernel → ℕ → MessageQueue → Kernel
set_queue k q x = record k { queues = update k.queues q x }

-- The struct at `q` embeds the mutex and the two semaphores: its numbers for them stay.
unfoldable pub os_queue_init : ℕ → ℕ → ℕ → Kernel → Kernel
os_queue_init q buffer_array capacity k =
    let x : MessageQueue = record (k.queues q) {
      buffer = buffer_array;
      capacity = capacity;
      head = 0;
      tail = 0;
    } in
    os_semaphore_init x.filled_slots 0 capacity
      (os_semaphore_init x.empty_slots capacity capacity (os_mutex_init x.lock (set_queue k q x)))

-- The address of slot `i`.
abbrev pub slot_address : MessageQueue → ℕ → ℕ
slot_address x i = x.buffer + 4 * i

-- `(i + 1) % q->capacity` on `uint32_t`.
abbrev pub next_slot : MessageQueue → ℕ → ℕ
next_slot x i = (i + 1) % u32_mod % x.capacity

-- The part of `os_queue_send` under the mutex.
unfoldable pub store : ℕ → ℕ → Bool → Kernel → Kernel
store q message had_slot k =
    let x = k.queues q in
    set_queue (record k { memory = update k.memory (slot_address x x.head) message }) q
      (record x {
        head = next_slot x x.head;
        tail = if had_slot then x.tail else next_slot x x.tail;
      })

-- `if (had_slot) os_semaphore_release(s);`
abbrev pub release_if : Bool → ℕ → M (Unit {0})
release_if b s k = if b then os_semaphore_release s k else done tt k

abbrev pub write : ℕ → ℕ → Bool → M (Unit {0})
write q message had_slot k = done tt (store q message had_slot k)

-- The way out of `os_queue_send` when the mutex could not be had.
unfoldable pub abandon_send : MessageQueue → Bool → M ℕ
abandon_send x had_slot = do release_if had_slot x.empty_slots; pure os_fail

-- The rest of `os_queue_send` with the mutex held.
unfoldable pub finish_send : MessageQueue → ℕ → ℕ → Bool → M ℕ
finish_send x q message had_slot = do
  write q message had_slot
  os_mutex_release x.lock
  release_if had_slot x.filled_slots
  pure os_success

-- `os_queue_send` from the return of the first acquire on.
unfoldable pub send_with : MessageQueue → ℕ → ℕ → Bool → M ℕ
send_with x q message had_slot = do
  r ← os_mutex_acquire x.lock wait_forever
  if r == os_success then finish_send x q message had_slot else abandon_send x had_slot

unfoldable pub os_queue_send : ℕ → ℕ → ℕ → M ℕ
os_queue_send q message timeout k =
    let x = k.queues q in
    bind (os_semaphore_acquire x.empty_slots timeout k)
      (λ r. send_with x q message (r == os_success))

-- What `os_queue_receive` reads under the mutex, and the state after it.
unfoldable pub fetch : ℕ → M ℕ
fetch q k =
    let x = k.queues q in
    done (k.memory (slot_address x x.tail)) (set_queue k q (record x { tail = next_slot x x.tail }))

-- The way out of `os_queue_receive` when the mutex could not be had.
unfoldable pub abandon_receive : MessageQueue → M (ℕ × Option ℕ)
abandon_receive x = do os_semaphore_release x.filled_slots; pure (os_fail, none)

-- The rest of `os_queue_receive` with the mutex held. The option is what goes through `buffer`.
unfoldable pub finish_receive : MessageQueue → ℕ → M (ℕ × Option ℕ)
finish_receive x q = do
  message ← fetch q
  os_mutex_release x.lock
  os_semaphore_release x.empty_slots
  pure (os_success, some message)

-- `os_queue_receive` with a token taken.
unfoldable pub receive_with : MessageQueue → ℕ → M (ℕ × Option ℕ)
receive_with x q = do
  r ← os_mutex_acquire x.lock wait_forever
  if r == os_success then finish_receive x q else abandon_receive x

unfoldable pub os_queue_receive : ℕ → ℕ → M (ℕ × Option ℕ)
os_queue_receive q timeout k =
    let x = k.queues q in
    bind (os_semaphore_acquire x.filled_slots timeout k)
      (λ r. if r == os_success then receive_with x q else pure (os_timeout, none))
