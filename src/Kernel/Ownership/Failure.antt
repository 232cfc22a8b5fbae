-- ===== src/Kernel/Ownership/Failure.antt =====
-- When the acquires of Kernel/os_kernel.c return OS_FAIL.
use sentinel_rtos.Base.{ℕ, ◌<◌, ◌≡◌, ◌≢◌, ap, true, false, some, leb, arith}
use sentinel_rtos.Kernel.State.{Kernel, mutex_queue, semaphore_queue, max_tasks}
use sentinel_rtos.Kernel.Mutex.Inheritance.{MustWait}
use sentinel_rtos.Kernel.Invariant.{IsValid, places}
use sentinel_rtos.Kernel.Invariant.Queues.{same_ref_refl}
use sentinel_rtos.Kernel.Safety.{Runs}
use sentinel_rtos.Kernel.System.{Reach}
use sentinel_rtos.Kernel.System.Reachable.{Reach-IsValid}
use sentinel_rtos.Kernel.Ownership.{OwnersApart}
use sentinel_rtos.Kernel.Ownership.Room.{queue_room, mutex_room}
use sentinel_rtos.Kernel.Ownership.Reached.{Reach-OwnersApart}

-- A running task that asks for a mutex of another task, and may wait, finds room.
pub must_wait :
    (k : Kernel) (m timeout c o : ℕ)
    → IsValid k
    → OwnersApart k
    → Runs k c
    → k.kernel_running ≡ true
    → (k.mutexes m).lock ≢ 0
    → (k.mutexes m).owner ≡ some o
    → o ≢ c
    → timeout ≢ 0
    → MustWait k m timeout c o
must_wait k m timeout c o v apart run live held own other waits = record {
  launched = live;
  caller = run.is_current;
  held = held;
  holder = own;
  other = other;
  waits = waits;
  room = omega (arith, mutex_room k c v run m o apart own other, v.few);
}

pub semaphore_room :
    (k : Kernel) (s c : ℕ)
    → IsValid k
    → Runs k c
    → leb max_tasks (k.semaphores s).waiters.wait_count ≡ false
semaphore_room k s c v run = ground (arith, queue_room k c v run (semaphore_queue s), v.few)

-- In every reachable state, a mutex that has an owner has its lock set, its owner is a task of the table, and
-- that task does not wait for it.
pub Reach-owner :
    {k : Kernel} (m o : ℕ)
    → Reach k
    → (k.mutexes m).owner ≡ some o
    → ((k.mutexes m).lock ≡ 1)
      × (o < k.task_count)
      × ((k.os_tasks o).wait_queue ≢ some (mutex_queue m))
unfolding places
Reach-owner {k} m o r own =
    let v = Reach-IsValid r in
    (
      ground (arith, v.mutexes m),
      ground (arith, v.mutexes m),
      λ waits. ground (
        arith,
        Reach-OwnersApart r m o own,
        ap (λ q. places q (mutex_queue m)) waits,
        same_ref_refl (mutex_queue m),
      ),
    )
