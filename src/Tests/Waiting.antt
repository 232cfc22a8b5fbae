-- ===== src/Tests/Waiting.antt =====
-- The theorems on the wait queues, the mutex and the semaphore of Kernel/os_kernel.c, on small
-- systems.
use Prim.Native.Nat.{max}
use sentinel_rtos.Base.{ℕ, ◌≡◌, refl, arith, none, some, [], ◌∷◌, ◌++◌, ◌==◌, if◌then◌else◌}
use sentinel_rtos.Base.Occurs.{erase}
use sentinel_rtos.Kernel.State.{
  Kernel, WaitQueue, ready, blocked, mutex_queue, semaphore_queue, os_success, wait_forever,
}
use sentinel_rtos.Kernel.WaitQueue.Choice.{IsFirstHighest}
use sentinel_rtos.Kernel.Run.{done, yielded}
use sentinel_rtos.Kernel.Blocking.{resume}
use sentinel_rtos.Kernel.Mutex.{os_mutex_acquire, os_mutex_release}
use sentinel_rtos.Kernel.Mutex.Inheritance.{MustWait, os_mutex_acquire_waits}
use sentinel_rtos.Kernel.Mutex.Handoff.{os_mutex_release_hands_over}
use sentinel_rtos.Kernel.Semaphore.{os_semaphore_release}
use sentinel_rtos.Kernel.Semaphore.Handoff.{os_semaphore_release_hands_over}
use sentinel_rtos.Kernel.Invariant.{waiters_of}
use sentinel_rtos.Tests.{four, four-IsValid}

abbrev three_wait : WaitQueue
three_wait = record { slots = λ i. i; wait_count = 4 }

-- Task 3 runs in place of task 0.
abbrev other_runs : Kernel
other_runs = record four { current_tcb = some 3 }

other_must_wait : MustWait other_runs 0 10 3 0
other_must_wait = record {
  launched = refl;
  caller = refl;
  held = omega arith;
  holder = refl;
  other = omega arith;
  waits = omega arith;
  room = omega arith;
}

os_mutex_acquire_waits_example :
    (k' : Kernel) × (os_mutex_acquire 0 10 other_runs ≡ yielded k' resume)
    × ((k'.os_tasks 3).state ≡ blocked)
    × ((k'.os_tasks 3).sleep_time ≡ (if 10 == wait_forever then 0 else 10))
    × (waiters_of k' (mutex_queue 0) ≡ waiters_of other_runs (mutex_queue 0) ++ (3 ∷ []))
    × ((k'.os_tasks 0).current_priority
        ≡ max (other_runs.os_tasks 0).current_priority (other_runs.os_tasks 3).current_priority)
    × ((k'.mutexes 0).owner ≡ some 0)
    × ((k'.mutexes 0).lock ≡ (other_runs.mutexes 0).lock)
    × (k'.primask ≡ other_runs.primask)
os_mutex_acquire_waits_example = os_mutex_acquire_waits other_runs 0 10 3 0 other_must_wait

os_mutex_release_hands_over_example :
    (k' : Kernel) × (next : ℕ) × (os_mutex_release 0 four ≡ yielded k' (done tt))
    × IsFirstHighest k'.os_tasks (waiters_of four (mutex_queue 0)) next
    × ((k'.mutexes 0).owner ≡ some next)
    × ((k'.mutexes 0).lock ≡ (four.mutexes 0).lock)
    × ((k'.os_tasks next).state ≡ ready)
    × ((k'.os_tasks next).wait_result ≡ os_success)
    × ((k'.os_tasks next).wait_queue ≡ none)
    × (waiters_of k' (mutex_queue 0) ≡ erase next (waiters_of four (mutex_queue 0)))
    × ((k'.os_tasks 0).current_priority ≡ (four.os_tasks 0).base_priority)
    × (k'.primask ≡ four.primask)
os_mutex_release_hands_over_example =
    os_mutex_release_hands_over four 0 0 four-IsValid refl (omega arith)

os_semaphore_release_hands_over_example :
    (k' : Kernel) × (next : ℕ) × (os_semaphore_release 0 four ≡ yielded k' (done tt))
    × IsFirstHighest four.os_tasks (waiters_of four (semaphore_queue 0)) next
    × ((k'.os_tasks next).state ≡ ready)
    × ((k'.os_tasks next).wait_result ≡ os_success)
    × ((k'.os_tasks next).wait_queue ≡ none)
    × (waiters_of k' (semaphore_queue 0) ≡ erase next (waiters_of four (semaphore_queue 0)))
    × ((k'.semaphores 0).count ≡ (four.semaphores 0).count)
    × (k'.primask ≡ four.primask)
os_semaphore_release_hands_over_example =
    os_semaphore_release_hands_over four 0 four-IsValid (omega arith)
