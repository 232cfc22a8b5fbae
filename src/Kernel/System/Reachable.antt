-- ===== src/Kernel/System/Reachable.antt =====
-- The states that the kernel of Kernel/os_kernel.c reaches.
use sentinel_rtos.Base.{
  ◌≡◌, refl, sym, subst, true, some, some-injective, inl, inr, Bool-cases, arith,
}
use sentinel_rtos.Kernel.State.{Kernel}
use sentinel_rtos.Kernel.Run.{Run, M, done, yielded, fault, halted, bind, reached}
use sentinel_rtos.Kernel.Boot.{FirstTask, os_kernel_launch, start_first_task}
use sentinel_rtos.Kernel.Scheduler.{canary_intact, os_scheduler, os_stack_overflow_hook}
use sentinel_rtos.Kernel.Invariant.{IsValid}
use sentinel_rtos.Kernel.Invariant.Writes.{IsValid-registers}
use sentinel_rtos.Kernel.Safety.{Stops}
use sentinel_rtos.Kernel.Safety.Locks.{os_mutex_acquire-IsValid, os_mutex_release-IsValid}
use sentinel_rtos.Kernel.Safety.Tokens.{os_semaphore_acquire-IsValid, os_semaphore_release-IsValid}
use sentinel_rtos.Kernel.Safety.Time.{os_delay-IsValid, sys_tick_handler-IsValid}
use sentinel_rtos.Kernel.Safety.Switch.{os_scheduler-IsValid}
use sentinel_rtos.Kernel.System.{
  Step, tick, switches, acquires, releases, takes, gives, sleeps, Reach, launched, next,
}
use sentinel_rtos.Kernel.System.Booting.{Boots-IsIdle}

-- What holds where a call stops holds in the state that it reaches.
pub reached-Stops {ℓ} :
    {A : Type ℓ} (P : Kernel → Type 0) (r : Run A) {k : Kernel}
    → reached r ≡ some k
    → Stops P r
    → P k
unfolding reached
reached-Stops P (done a j) e h = subst P (some-injective _ _ e) h
reached-Stops P (yielded j g) e h = subst P (some-injective _ _ e) h
reached-Stops P fault e h = absurd h
reached-Stops P (halted j) e h = absurd h

-- A call that has returned was followed by the rest of the code from its result.
pub bind-done {ℓ κ} :
    {A : Type ℓ} {B : Type κ} (r : Run A) (f : A → M B) {b : B} {k : Kernel}
    → bind r f ≡ done b k
    → (a : A) × (j : Kernel) × (r ≡ done a j) × (f a j ≡ done b k)
unfolding bind
bind-done (done a j) f h = (a, j, refl, h)
bind-done (yielded j g) f h = cc
bind-done fault f h = cc
bind-done (halted j) f h = cc

os_scheduler_done-IsValid : (k k' : Kernel) → os_scheduler k ≡ done tt k' → IsValid k → IsValid k'
unfolding os_scheduler os_stack_overflow_hook
os_scheduler_done-IsValid k k' e v = elim (Bool-cases (canary_intact k)) [
  | inl intact ↦ subst (Stops IsValid) e (os_scheduler-IsValid k intact v)
  | inr broken ↦ let same : k ≡ k' = ground arith in subst IsValid same v
]

started-IsValid :
    (j k : Kernel) {f : FirstTask} → start_first_task j ≡ done f k → IsValid j → IsValid k
unfolding start_first_task
started-IsValid j k e v =
    let same : record j { kernel_running = true; primask = 0 } ≡ k = ground arith in
    subst IsValid same (IsValid-registers j j.os_ticks 0 true j.pend_sv j.memory v)

launch-IsValid :
    (k k' : Kernel) {f : FirstTask} → IsValid k → os_kernel_launch k ≡ done f k' → IsValid k'
unfolding os_kernel_launch
launch-IsValid k k' v e =
    let (a, j, returned, started) = bind-done (os_scheduler k) (λ _. start_first_task) e in
    started-IsValid j k' started (os_scheduler_done-IsValid k j returned v)

-- Every event keeps the state well formed.
pub Step-IsValid : {k k' : Kernel} → Step k k' → IsValid k → IsValid k'
Step-IsValid {k} (tick e) v = subst IsValid (sym e) (sys_tick_handler-IsValid k v)
Step-IsValid {k} (switches e) v = os_scheduler_done-IsValid k _ e v
Step-IsValid {k} (acquires m timeout c run e) v =
    reached-Stops IsValid _ e (os_mutex_acquire-IsValid k m timeout c run v)
Step-IsValid {k} (releases m e) v = reached-Stops IsValid _ e (os_mutex_release-IsValid k m v)
Step-IsValid {k} (takes s timeout c run e) v =
    reached-Stops IsValid _ e (os_semaphore_acquire-IsValid k s timeout c run v)
Step-IsValid {k} (gives s e) v = reached-Stops IsValid _ e (os_semaphore_release-IsValid k s v)
Step-IsValid {k} (sleeps ms c run e) v = reached-Stops IsValid _ e (os_delay-IsValid k ms c run v)

-- Every state of a system that was booted by `os_kernel_init`, task creations and initialisations of mutexes and of
-- semaphores (with at most their maximum of tokens) and launched is well formed, whatever ticks, switches and calls of
-- mutexes, semaphores and `os_delay` follow in whatever order.
pub Reach-IsValid : {k : Kernel} → Reach k → IsValid k
Reach-IsValid (launched {k} {k'} b e) = launch-IsValid k k' (Boots-IsIdle b).valid e
Reach-IsValid (next r s) = Step-IsValid s (Reach-IsValid r)
