-- ===== src/Queue/Rendezvous.antt =====
-- A sender and a receiver that waits, on a queue of Kernel/os_queue.c that is empty.
use sentinel_rtos.Base.{
  ℕ, ◌<◌, ◌≡◌, ◌≢◌, refl, ap, subst, ◌∙◌, true, none, some, Option, [], ◌==◌, if◌then◌else◌, arith,
}
use sentinel_rtos.Kernel.State.{
  Kernel, MessageQueue, semaphore_queue, ready, os_success, os_timeout, os_yield, wait_forever,
  max_tasks,
}
use sentinel_rtos.Kernel.Run.{Run, M, done, yielded, bind, pure}
use sentinel_rtos.Kernel.Blocking.{resume, resume_lem}
use sentinel_rtos.Kernel.Scheduler.{dispatch}
use sentinel_rtos.Kernel.Mutex.{drop_donation}
use sentinel_rtos.Kernel.Mutex.Branches
use sentinel_rtos.Kernel.Semaphore.Branches as SemaphoreBranches
use sentinel_rtos.Kernel.Semaphore.Only.{woken, release_to_only}
use sentinel_rtos.Kernel.Safety.Switch.{dispatch-objects, os_tasks-dispatch}
use sentinel_rtos.Queue.{
  store, finish_send, send_with, os_queue_send, receive_with, os_queue_receive,
}
use sentinel_rtos.Queue.Polled.{Holds, taken, locked, unlocked}
use sentinel_rtos.Queue.Passing.{Awaits, Passed, dispatch-Passed, fetched, fetches, fetched-Holds}

-- The state in which a sender has stored its message, and that in which it has woken the receiver.
abbrev with_message : Kernel → ℕ → MessageQueue → ℕ → Kernel
with_message k q x message =
    unlocked (store q message true (locked (taken k x.empty_slots) x.lock)) x.lock

abbrev pub passed : Kernel → ℕ → ℕ → MessageQueue → ℕ → Kernel
passed k q c x message = os_yield (woken (with_message k q x message) x.filled_slots c)

module _ (k : Kernel) (q c message timeout : ℕ) where
  passes_on :
      Awaits k q c (k.queues q)
      → os_queue_send q message timeout k
        ≡ yielded (passed k q c (k.queues q) message) (done os_success)
  unfolding os_queue_send send_with finish_send bind store drop_donation
  passes_on w =
      let x = k.queues q in
      let k1 = taken k x.empty_slots in
      let k2 = store q message true (locked k1 x.lock) in
      let wakes =
        release_to_only (with_message k q x message) x.filled_slots c
          (ground (arith, w.one_waits, w.apart)) (ground (arith, w.only, w.apart))
          (ground (arith, w.queued)) in
      rw
        (
          SemaphoreBranches.acquire_token k x.empty_slots timeout
              (omega (arith, w.empty, w.has_room)),
          Branches.acquire_free k1 x.lock wait_forever w.unlocked,
          Branches.release_idle k2 x.lock (ground (arith, w.no_lock_waiters)),
          wakes,
        )
        refl

  passes :
      (x : MessageQueue)
      → Awaits k q c x
      → os_queue_send q message timeout k ≡ yielded (passed k q c x message) (done os_success)
  passes x w =
      subst
        (λ y.
          Awaits k q c y
          → os_queue_send q message timeout k ≡ yielded (passed k q c y message) (done os_success))
        w.is_queue passes_on w

module _ (k : Kernel) (q c : ℕ) (x : MessageQueue) (message : ℕ) where
  passed-Passed : Awaits k q c x → Passed (passed k q c x message) q x message
  unfolding os_yield store
  passed-Passed w = record {
    is_queue = ground (arith, w.is_queue);
    has_room = w.has_room;
    fits = w.fits;
    tail_in = w.tail_in;
    head_at = w.head_at;
    stored = ground (arith, w.is_queue, w.head_at);
    filled = ground (arith, w.filled, w.apart);
    filled_max = ground (arith, w.filled_max, w.apart);
    empty = ground (arith, w.empty, w.has_room, w.apart);
    empty_max = ground (arith, w.empty_max, w.apart);
    quiet = record {
      unlocked = ground arith;
      no_lock_waiters = ground (arith, w.no_lock_waiters);
      no_senders = ground (arith, w.no_senders, w.apart);
      no_receivers = ground (arith, w.apart);
      apart = w.apart;
    };
  }

-- A receiver `c` with a timeout that finds no token waits in the queue of the filled slots. When a task sends a message while `c` alone
-- waits there, the queue is empty and wired as it was, and nobody holds its mutex or waits for it or for a slot: the send, with any
-- timeout, stores the message, makes `c` READY and stops at its switch, to return OS_SUCCESS; and once `c` is dispatched its call
-- returns OS_SUCCESS with that message, and leaves the queue empty.
pub os_queue_receive-gets :
    (k0 k : Kernel) (q c message timeout wait : ℕ)
    → k0.kernel_running ≡ true
    → k0.current_tcb ≡ some c
    → (k0.semaphores (k0.queues q).filled_slots).count ≡ 0
    → (k0.semaphores (k0.queues q).filled_slots).waiters.wait_count < max_tasks
    → wait ≢ 0
    → Awaits k q c (k0.queues q)
    → (k1 : Kernel) × (rest : Kernel → Run (ℕ × Option ℕ)) × (k2 : Kernel) × (k3 : Kernel)
      × (os_queue_receive q wait k0 ≡ yielded k1 rest)
      × ((k1.os_tasks c).wait_queue ≡ some (semaphore_queue (k0.queues q).filled_slots))
      × (os_queue_send q message timeout k ≡ yielded k2 (done os_success))
      × ((k2.os_tasks c).state ≡ ready)
      × (rest (dispatch k2 c) ≡ done (os_success, some message) k3)
      × Holds k3 q []
unfolding os_queue_receive bind os_yield
os_queue_receive-gets k0 k q c message timeout wait live current none_left room some_time w =
    let x = k0.queues q in
    let k2 = passed k q c x message in
    let j = dispatch k2 c in
    let p = dispatch-Passed k2 q x message c (passed-Passed k q c x message w) in
    let waits =
      SemaphoreBranches.acquire_waits k0 x.filled_slots c wait live current none_left room
        some_time in
    let success : (j.os_tasks c).wait_result ≡ os_success =
      ground (arith, os_tasks-dispatch k2 c c) in
    let after : ℕ → M (ℕ × Option ℕ) =
      λ r. if r == os_success then receive_with x q else pure (os_timeout, none) in
    (
      SemaphoreBranches.waiting_for k0 x.filled_slots c wait,
      (λ k'. bind (resume k') after),
      k2,
      fetched j q x message,
      rw waits refl,
      ground arith,
      passes k q c message timeout x w,
      ground arith,
      ap (λ run. bind run after) (resume_lem j c (dispatch-objects k2 c).3)
          ∙ ap (λ r. after r j) success
          ∙ fetches j q x message p,
      fetched-Holds j q x message p,
    )
