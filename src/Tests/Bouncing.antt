-- ===== src/Tests/Bouncing.antt =====
-- The theorems on the context switch benchmark and its numbers, on three tasks: ping runs, pong waits for it, and
-- the idle task is ready.
use sentinel_rtos.Base.{ℕ, ◌*◌, ◌≡◌, refl, true, some, ◌==◌, if◌then◌else◌, update, arith}
use sentinel_rtos.Base.Occurs.{occurs}
use sentinel_rtos.Kernel.State.{
  Kernel, Tcb, mutex_queue, semaphore_queue, running, blocked, stack_canary,
}
use sentinel_rtos.Kernel.WaitQueue.{waiting}
use sentinel_rtos.Kernel.Invariant.{
  QueuesAgree, places, TcbIsValid, MutexIsValid, SemaphoreIsValid, IsValid,
}
use sentinel_rtos.Kernel.System.{reset_state}
use sentinel_rtos.Bench.PingPong.{ping_rounds, in_turn}
use sentinel_rtos.Bench.PingPong.RoundTrip.{pong_waits, IsInStep, ping_rounds-in_turn}

abbrev pub tcb_of : ℕ → Tcb
tcb_of t =
    let fresh = record (reset_state.os_tasks t) { base_priority = 2; current_priority = 2 } in
    if t == 0
    then record fresh { state = running }
    else if t == 1
    then record fresh { state = blocked; wait_queue = some (semaphore_queue 1) }
    else reset_state.os_tasks t

abbrev pub bouncing : Kernel
bouncing = record reset_state {
  os_tasks = tcb_of;
  task_count = 3;
  current_tcb = some 0;
  kernel_running = true;
  semaphores =
      update (update reset_state.semaphores 0 (record (reset_state.semaphores 0) { max_count = 1 }))
        1
        (record { count = 0; max_count = 1; waiters = record { slots = λ i. 1; wait_count = 1 } });
  memory = λ a. stack_canary;
}

bouncing-agree : QueuesAgree bouncing
unfolding waiting occurs places
bouncing-agree (mutex_queue m) t = ground arith
bouncing-agree (semaphore_queue s) t = ground arith

pub bouncing_tcbs : (t : ℕ) → TcbIsValid 3 (some 0) t (tcb_of t)
bouncing_tcbs t = record {
  waiter = ground arith;
  sleeper = ground arith;
  wakeable = ground arith;
  on_cpu = ground arith;
  at_least_base = ground arith;
}

pub bouncing_mutexes : (m : ℕ) → MutexIsValid 3 (bouncing.mutexes m)
bouncing_mutexes m = record {
  binary = omega arith;
  free = λ h. (refl, refl);
  held = λ h. absurd (omega arith);
  owner_in = tt;
  room = omega arith;
}

bouncing_semaphores : (s : ℕ) → SemaphoreIsValid (bouncing.semaphores s)
bouncing_semaphores s = record {
  bounded = ground arith;
  no_idle_token = ground arith;
  room = ground arith;
}

bouncing-IsValid : IsValid bouncing
bouncing-IsValid = record {
  few = omega arith;
  current_in = omega arith;
  agree = bouncing-agree;
  tcbs = bouncing_tcbs;
  mutexes = bouncing_mutexes;
  semaphores = bouncing_semaphores;
}

bouncing-IsInStep : IsInStep 0 1 0 1 bouncing
bouncing-IsInStep = record {
  pair = record {
    valid = bouncing-IsValid;
    live = refl;
    a_in = omega arith;
    b_in = omega arith;
    two = omega arith;
    equal = refl;
    lower = λ u lt not_a not_b run. ground arith;
    canary_a = refl;
    canary_b = refl;
    sems = omega arith;
    ping_max = refl;
    ping_idle = refl;
    pong_none = refl;
  };
  runs = refl;
  a_is = refl;
  b_is = refl;
  ping_count = refl;
  queue = (refl, refl, refl);
}

ping_rounds-in_turn_example :
    (k' : Kernel) × (in_turn (2 * 100) 0 (ping_rounds 0 1 100) (pong_waits 0 1 100) bouncing
      ≡ some k')
    × IsInStep 0 1 0 1 k'
ping_rounds-in_turn_example =
    ping_rounds-in_turn 0 1 0 1 100 100 bouncing (omega arith) bouncing-IsInStep
