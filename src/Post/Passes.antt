-- ===== src/Post/Passes.antt =====
-- The whole self-test of Kernel/os_tests.c.
use mathlib.Core.Path.{subst₂}
use sentinel_rtos.Base.{arith, ℕ, ◌≡◌, ◌≢◌, refl, ap, inl, ◌∙◌}
use sentinel_rtos.Kernel.State.{Kernel, MessageQueue}
use sentinel_rtos.Kernel.Run.{done, bind}
use sentinel_rtos.Kernel.Mutex.{os_mutex_init}
use sentinel_rtos.Kernel.Semaphore.{os_semaphore_init}
use sentinel_rtos.Queue.Polled.{taken, given, locked, unlocked, Touches, Touches-trans}
use sentinel_rtos.Queue.Refines.{queue_of_init, primask-init}
use sentinel_rtos.Queue.{os_queue_init}
use sentinel_rtos.Post.{os_run_post}
use sentinel_rtos.Post.Objects.{
  test_mutex_basic_lem, test_semaphore_basic_lem, test_mutex-Touches, test_semaphore-Touches,
}
use sentinel_rtos.Post.Messages.{test_queue_basic_lem}

pub init-Touches :
    (k : Kernel) (q buffer capacity : ℕ)
    → Touches k (os_queue_init q buffer capacity k) buffer capacity
unfolding os_queue_init os_mutex_init os_semaphore_init
init-Touches k q buffer capacity = record {
  same_count = refl;
  same_current = refl;
  same_running = refl;
  same_slots = λ r. (ground arith, ground arith);
  tasks = λ t. inl refl;
  words = λ a. inl refl;
}

-- The self-test passes. From any state of the kernel, running or not, if its queue's two semaphores
-- are different objects, it returns without a switch, with PRIMASK as it was. Of the task table, the running task and the
-- memory it changes nothing but words of its queue's buffer of 4 and priorities, which fall back to
-- their base.
pub os_run_post-passes :
    (k : Kernel) (m s q buffer : ℕ)
    → (k.queues q).empty_slots ≢ (k.queues q).filled_slots
    → (k' : Kernel) × (os_run_post m s q buffer k ≡ done tt k')
      × (k'.primask ≡ k.primask)
      × Touches k k' buffer 4
unfolding os_run_post bind os_mutex_init os_semaphore_init
os_run_post-passes k m s q buffer apart =
    let k1 = unlocked (locked (os_mutex_init m k) m) m in
    let empty = taken (taken (os_semaphore_init s 2 2 k1) s) s in
    let k2 = given (given empty s) s in
    let k3 = os_queue_init q buffer 4 k2 in
    let p = test_queue_basic_lem k2 q buffer apart in
    let fresh : k3.queues q
        ≡ record (k2.queues q) { buffer = buffer; capacity = 4; head = 0; tail = 0 } =
      queue_of_init k2 q buffer 4 in
    let polled : Touches k3 p.after buffer 4 =
      subst₂ (Touches k3 p.after) (ap (λ (x : MessageQueue). x.buffer) fresh)
        (ap (λ (x : MessageQueue). x.capacity) fresh) p.touched in
    (
      p.after,
      rw (test_mutex_basic_lem k m, test_semaphore_basic_lem k1 s, p.returns) refl,
      p.same_mask ∙ primask-init k2 q buffer 4,
      Touches-trans k k1 p.after buffer 4 (test_mutex-Touches k m buffer 4) (
          Touches-trans k1 k2 p.after buffer 4 (test_semaphore-Touches k1 s buffer 4)
            (Touches-trans k2 k3 p.after buffer 4 (init-Touches k2 q buffer 4) polled)),
    )
