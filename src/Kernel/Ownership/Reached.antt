-- ===== src/Kernel/Ownership/Reached.antt =====
-- In the system of Kernel/os_kernel.c no task waits for its own mutex, so blocking calls find room.
use sentinel_rtos.Base.{◌≡◌, sym, subst, inl, inr, true, ◌==◌, arith, Bool-cases, Option-cases}
use sentinel_rtos.Base.Occurs.{occurs}
use sentinel_rtos.Kernel.State.{Kernel, mutex_queue}
use sentinel_rtos.Kernel.WaitQueue.{waiting}
use sentinel_rtos.Kernel.Run.{done}
use sentinel_rtos.Kernel.Scheduler.{choose, switch, os_scheduler, os_stack_overflow_hook}
use sentinel_rtos.Kernel.Boot.{FirstTask, os_kernel_launch, start_first_task}
use sentinel_rtos.Kernel.Invariant.{IsValid}
use sentinel_rtos.Kernel.System.{
  Step, tick, switches, acquires, releases, takes, gives, sleeps, Reach, launched, next,
}
use sentinel_rtos.Kernel.System.Booting.{IsIdle, Boots-IsIdle}
use sentinel_rtos.Kernel.System.Reachable.{reached-Stops, bind-done, Reach-IsValid}
use sentinel_rtos.Kernel.Ownership.{OwnersApart}
use sentinel_rtos.Kernel.Ownership.Calls.{
  os_mutex_acquire-OwnersApart, os_mutex_release-OwnersApart, os_semaphore_acquire-OwnersApart,
  os_semaphore_release-OwnersApart, os_delay-OwnersApart, sys_tick_handler-OwnersApart,
  dispatch-OwnersApart,
}

idle-OwnersApart : (k : Kernel) → IsIdle k → OwnersApart k
unfolding waiting occurs
idle-OwnersApart k h m o e = ground (arith, h.valid.agree (mutex_queue m) o, h.no_mutex_waiters m)

switch-OwnersApart : (k : Kernel) → OwnersApart k → OwnersApart (switch k)
unfolding switch
switch-OwnersApart k apart = elim (Option-cases (choose k)) [
  | inl stay ↦ rw (stay, switch) apart
  | inr (b, go) ↦ rw (go, switch) (dispatch-OwnersApart k b apart)
]

os_scheduler_done-OwnersApart :
    (k k' : Kernel) → os_scheduler k ≡ done tt k' → OwnersApart k → OwnersApart k'
unfolding os_scheduler os_stack_overflow_hook
os_scheduler_done-OwnersApart k k' e apart = elim (Bool-cases (k.task_count == 0)) [
  | inl none_yet ↦ let same : k ≡ k' = ground arith in subst OwnersApart same apart
  | inr some_tasks ↦
      let same : switch k ≡ k' = ground arith in subst OwnersApart same (switch-OwnersApart k apart)
]

launch-OwnersApart :
    (k k' : Kernel) {f : FirstTask}
    → OwnersApart k
    → os_kernel_launch k ≡ done f k'
    → OwnersApart k'
unfolding os_kernel_launch start_first_task
launch-OwnersApart k k' apart e =
    let (a, j, returned, started) = bind-done (os_scheduler k) (λ _. start_first_task) e in
    let same : record j { kernel_running = true; primask = 0 } ≡ k' = ground arith in
    subst OwnersApart same (os_scheduler_done-OwnersApart k j returned apart)

Step-OwnersApart : {k k' : Kernel} → Step k k' → IsValid k → OwnersApart k → OwnersApart k'
Step-OwnersApart {k} (tick e) v apart =
    subst OwnersApart (sym e) (sys_tick_handler-OwnersApart k apart)
Step-OwnersApart {k} (switches e) v apart = os_scheduler_done-OwnersApart k _ e apart
Step-OwnersApart {k} (acquires m timeout c run e) v apart =
    reached-Stops OwnersApart _ e (os_mutex_acquire-OwnersApart k m timeout c run v apart)
Step-OwnersApart {k} (releases m e) v apart =
    reached-Stops OwnersApart _ e (os_mutex_release-OwnersApart k m apart)
Step-OwnersApart {k} (takes s timeout c run e) v apart =
    reached-Stops OwnersApart _ e (os_semaphore_acquire-OwnersApart k s timeout c run apart)
Step-OwnersApart {k} (gives s e) v apart =
    reached-Stops OwnersApart _ e (os_semaphore_release-OwnersApart k s apart)
Step-OwnersApart {k} (sleeps ms c run e) v apart =
    reached-Stops OwnersApart _ e (os_delay-OwnersApart k ms c run apart)

-- In every reachable state no task waits for a mutex that it owns.
pub Reach-OwnersApart : {k : Kernel} → Reach k → OwnersApart k
Reach-OwnersApart (launched {k} {k'} b e) =
    launch-OwnersApart k k' (idle-OwnersApart k (Boots-IsIdle b)) e
Reach-OwnersApart (next r s) = Step-OwnersApart s (Reach-IsValid r) (Reach-OwnersApart r)
