-- ===== src/Kernel/Mutex/Inheritance.antt =====
-- A contended `os_mutex_acquire` of Kernel/os_kernel.c: the caller lends its priority and waits.
use Prim.Native.Nat.{max}
use sentinel_rtos.Base.{
  ℕ, ◌<◌, ◌≡◌, ◌≢◌, refl, ap, ◌∙◌, ◌||◌, not, true, false, Bool, some, [], ◌∷◌, ◌++◌, ◌==◌, leb,
  if◌then◌else◌, same_pointer, arith,
}
use sentinel_rtos.Kernel.State.{
  Kernel, Tcb, Mutex, WaitRef, mutex_queue, blocked, os_enter_critical, os_exit_critical, os_yield,
  wait_forever, max_waiting_tasks,
}
use sentinel_rtos.Kernel.WaitQueue.{waiting}
use sentinel_rtos.Kernel.Run.{yielded}
use sentinel_rtos.Kernel.Blocking.{parked_tcb, block_current, resume}
use sentinel_rtos.Kernel.Mutex.{donate, wait_on, contend, os_mutex_acquire}
use sentinel_rtos.Kernel.Invariant.{waiters_of}
use sentinel_rtos.Kernel.Invariant.Queues.{
  os_tasks-block_current, waiters_of-block_current, same_ref_refl,
}
use sentinel_rtos.Kernel.Invariant.Frame.{SameObjects, block_current-SameObjects}

contend_lem :
    (k : Kernel) (m timeout primask c o : ℕ)
    → k.current_tcb ≡ some c
    → (k.mutexes m).owner ≡ some o
    → contend m timeout primask k
      ≡ wait_on (mutex_queue m) max_waiting_tasks timeout primask c (donate k c o)
unfolding contend
contend_lem k m timeout primask c o e h = ground arith

wait_on_parks :
    (k : Kernel) (r : WaitRef) (limit timeout primask c : ℕ)
    → (block_current k c r limit timeout).0 ≡ true
    → wait_on r limit timeout primask c k
      ≡ yielded (os_yield (os_exit_critical primask (block_current k c r limit timeout).1)) resume
unfolding wait_on
wait_on_parks k r limit timeout primask c e = rw (e, wait_on)

module _ (k : Kernel) (m timeout c o : ℕ) where
  -- Task `c` of a running kernel asks for a mutex that another task holds, with room in its queue, and
  -- does not poll.
  pub record MustWait : Type 0 where
    pub launched : k.kernel_running ≡ true
    pub caller : k.current_tcb ≡ some c
    pub held : (k.mutexes m).lock ≢ 0
    pub holder : (k.mutexes m).owner ≡ some o
    pub other : o ≢ c
    pub waits : timeout ≢ 0
    pub room : (k.mutexes m).waiters.wait_count < max_waiting_tasks

  -- The kernel that `block_current` gets, and the one that it returns.
  unfoldable pub lent : Kernel
  lent = donate (record k { primask = 1 }) c o

  abbrev blocks : Bool × Kernel
  blocks = block_current lent c (mutex_queue m) max_waiting_tasks timeout

  lent-mutexes : lent.mutexes ≡ k.mutexes
  unfolding lent donate
  lent-mutexes = ground arith

  -- The state at the switch.
  unfoldable pub waiting_state : Kernel
  unfolding lent
  waiting_state = os_yield (os_exit_critical k.primask blocks.1)

  blocks_lem : MustWait → blocks.0 ≡ true
  unfolding block_current
  blocks_lem w = ground (arith, w.room, lent-mutexes)

  stops : MustWait → os_mutex_acquire m timeout k ≡ yielded waiting_state resume
  unfolding os_mutex_acquire os_enter_critical waiting_state
  stops w =
      rw (locked, foreign, blocking)
        (contend_lem (record k { primask = 1 }) m timeout k.primask c o w.caller w.holder
          ∙ wait_on_parks lent (mutex_queue m) max_waiting_tasks timeout k.primask c (blocks_lem w))
    where
      locked : ((k.mutexes m).lock == 0) ≡ false
      locked = ground (arith, w.held)

      foreign : same_pointer (k.mutexes m).owner k.current_tcb ≡ false
      foreign = ground (arith, w.holder, w.caller, w.other)

      blocking : (timeout == 0 || not k.kernel_running) ≡ false
      blocking = ground (arith, w.waits, w.launched)

  parts : SameObjects lent blocks.1
  parts = block_current-SameObjects lent c (mutex_queue m) max_waiting_tasks timeout

  lent-task_count : lent.task_count ≡ k.task_count
  unfolding lent donate
  lent-task_count = ground arith

  lent_priority :
      (lent.os_tasks o).current_priority
      ≡ max (k.os_tasks o).current_priority (k.os_tasks c).current_priority
  unfolding lent donate
  lent_priority = ground arith

  lent_other : (t : ℕ) → t ≢ o → lent.os_tasks t ≡ k.os_tasks t
  unfolding lent donate
  lent_other t ne = ground arith

  lent_queue : waiters_of lent (mutex_queue m) ≡ waiters_of k (mutex_queue m)
  lent_queue = ap (λ (f : ℕ → Mutex). waiting (f m).waiters) lent-mutexes

-- A task of the running kernel that asks for a mutex which another task holds, finds room in its
-- queue and does not poll, stops at a switch: it is BLOCKED behind the other waiters with its
-- deadline, none for WAIT_FOREVER; the owner keeps the mutex, with the higher of the two
-- priorities; and PRIMASK is as it was.
pub os_mutex_acquire_waits :
    (k : Kernel) (m timeout c o : ℕ)
    → MustWait k m timeout c o
    → (k' : Kernel) × (os_mutex_acquire m timeout k ≡ yielded k' resume)
      × ((k'.os_tasks c).state ≡ blocked)
      × ((k'.os_tasks c).sleep_time ≡ (if timeout == wait_forever then 0 else timeout))
      × (waiters_of k' (mutex_queue m) ≡ waiters_of k (mutex_queue m) ++ (c ∷ []))
      × ((k'.os_tasks o).current_priority
          ≡ max (k.os_tasks o).current_priority (k.os_tasks c).current_priority)
      × ((k'.mutexes m).owner ≡ some o)
      × ((k'.mutexes m).lock ≡ (k.mutexes m).lock)
      × (k'.primask ≡ k.primask)
unfolding waiting_state os_exit_critical os_yield
os_mutex_acquire_waits k m timeout c o w =
    let parked =
      os_tasks-block_current (lent k m timeout c o) c (mutex_queue m) max_waiting_tasks timeout in
    let room : leb max_waiting_tasks ((lent k m timeout c o).mutexes m).waiters.wait_count ≡ false =
      ground (arith, w.room, lent-mutexes k m timeout c o) in
    (
      waiting_state k m timeout c o,
      stops k m timeout c o w,
      ground (arith, parked c, room),
      ground (arith, parked c, room),
      ground (
        arith,
        waiters_of-block_current (lent k m timeout c o) c (mutex_queue m) max_waiting_tasks timeout
            (mutex_queue m),
        room,
        same_ref_refl (mutex_queue m),
        lent_queue k m timeout c o,
      ),
      ground (arith, parked o, w.other, lent_priority k m timeout c o),
      (parts k m timeout c o).owners m
          ∙ ap (λ (f : ℕ → Mutex). (f m).owner) (lent-mutexes k m timeout c o)
          ∙ w.holder,
      (parts k m timeout c o).locks m
          ∙ ap (λ (f : ℕ → Mutex). (f m).lock) (lent-mutexes k m timeout c o),
      refl,
    )

-- The call stops in `waiting_state`, with the caller parked.
pub parked_in_waiting_state :
    (k : Kernel) (m timeout c o : ℕ)
    → MustWait k m timeout c o
    → (t : Tcb) × (os_mutex_acquire m timeout k ≡ yielded (waiting_state k m timeout c o) resume)
      × ((waiting_state k m timeout c o).os_tasks c ≡ parked_tcb t (mutex_queue m) timeout)
      × ((waiting_state k m timeout c o).task_count ≡ k.task_count)
unfolding waiting_state os_exit_critical os_yield
parked_in_waiting_state k m timeout c o w =
    let parked =
      os_tasks-block_current (lent k m timeout c o) c (mutex_queue m) max_waiting_tasks timeout in
    let room : leb max_waiting_tasks ((lent k m timeout c o).mutexes m).waiters.wait_count ≡ false =
      ground (arith, w.room, lent-mutexes k m timeout c o) in
    (
      (lent k m timeout c o).os_tasks c,
      stops k m timeout c o w,
      ground (arith, parked c, room),
      (parts k m timeout c o).count ∙ lent-task_count k m timeout c o,
    )
