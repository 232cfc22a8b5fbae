-- ===== src/Queue/Sending.antt =====
-- The steps of `os_queue_send` of Kernel/os_queue.c where nobody else is in the queue.
use sentinel_rtos.Base.{ℕ, ◌<◌, ◌≡◌, true, false, List, length, arith}
use sentinel_rtos.Kernel.State.{Kernel, MessageQueue, os_success, wait_forever}
use sentinel_rtos.Kernel.Run.{done, bind}
use sentinel_rtos.Kernel.Mutex.Branches
use sentinel_rtos.Kernel.Semaphore.Branches as SemaphoreBranches
use sentinel_rtos.Queue.{store, finish_send, send_with, os_queue_send}
use sentinel_rtos.Queue.Polled.{Holds, taken, given, locked, unlocked}

finish_send_with_slot :
    (k : Kernel) (x : MessageQueue) (q message : ℕ)
    → ((store q message true k).mutexes x.lock).waiters.wait_count ≡ 0
    → ((store q message true k).semaphores x.filled_slots).waiters.wait_count ≡ 0
    → ((store q message true k).semaphores x.filled_slots).count
      < ((store q message true k).semaphores x.filled_slots).max_count
    → finish_send x q message true k
      ≡ done os_success (given (unlocked (store q message true k) x.lock) x.filled_slots)
unfolding finish_send bind
finish_send_with_slot k x q message free quiet room = rw (
  Branches.release_idle (store q message true k) x.lock free,
  SemaphoreBranches.release_room (unlocked (store q message true k) x.lock) x.filled_slots quiet
      room,
)

finish_send_without :
    (k : Kernel) (x : MessageQueue) (q message : ℕ)
    → ((store q message false k).mutexes x.lock).waiters.wait_count ≡ 0
    → finish_send x q message false k ≡ done os_success (unlocked (store q message false k) x.lock)
unfolding finish_send bind
finish_send_without k x q message free =
    rw (Branches.release_idle (store q message false k) x.lock free)

-- The state after a send that had a slot, and after one that had none.
unfoldable pub sent : Kernel → ℕ → ℕ → Kernel
unfolding store
sent k q message =
    let x = k.queues q in
    given (unlocked (store q message true (locked (taken k x.empty_slots) x.lock)) x.lock)
      x.filled_slots

unfoldable pub overwritten : Kernel → ℕ → ℕ → Kernel
unfolding store
overwritten k q message =
    let x = k.queues q in unlocked (store q message false (locked k x.lock)) x.lock

pub send_has_slot :
    (k : Kernel) (q message timeout : ℕ) (xs : List ℕ)
    → Holds k q xs
    → length xs < (k.queues q).capacity
    → os_queue_send q message timeout k ≡ done os_success (sent k q message)
unfolding os_queue_send send_with bind sent
send_has_slot k q message timeout xs h lt =
    let x = k.queues q in
    let k1 = taken k x.empty_slots in
    rw (
      SemaphoreBranches.acquire_token k x.empty_slots timeout (omega (arith, h.empty)),
      Branches.acquire_free k1 x.lock wait_forever h.quiet.unlocked,
      finish_send_with_slot (locked k1 x.lock) x q message (ground (arith, h.quiet.no_lock_waiters))
          (ground (arith, h.quiet.no_receivers, h.quiet.apart))
          (ground (arith, h.quiet.apart, h.filled, h.filled_max)),
    )

pub send_has_none :
    (k : Kernel) (q message : ℕ) (xs : List ℕ)
    → Holds k q xs
    → length xs ≡ (k.queues q).capacity
    → os_queue_send q message 0 k ≡ done os_success (overwritten k q message)
unfolding os_queue_send send_with bind overwritten
send_has_none k q message xs h e =
    let x = k.queues q in
    rw (
      SemaphoreBranches.acquire_poll k x.empty_slots (omega (arith, h.empty)),
      Branches.acquire_free k x.lock wait_forever h.quiet.unlocked,
      finish_send_without (locked k x.lock) x q message (ground (arith, h.quiet.no_lock_waiters)),
    )
