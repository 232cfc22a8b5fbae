-- ===== src/Bench/PingPong.antt =====
-- The two tasks of the context switch benchmark of Bench/microbench.c, and how they run in turn.
pub mod Stages
pub mod Steps
pub mod RoundTrip
use sentinel_rtos.Base.{
  ℕ, zero, suc, ◌+◌, ◌/◌, Bool, false, Option, none, some, List, ◌++◌, ◌==◌, if◌then◌else◌,
}
use sentinel_rtos.Kernel.State.{Kernel, wait_forever}
use sentinel_rtos.Kernel.Run.{Run, M, done, yielded, fault, halted, ◌>>=◌, ◌>>◌, pure}
use sentinel_rtos.Kernel.Scheduler.{os_scheduler}
use sentinel_rtos.Kernel.Semaphore.{os_semaphore_acquire, os_semaphore_release}
use sentinel_rtos.Kernel.Tick.{os_delay}
use sentinel_rtos.Bench.{bench_iterations, average}

-- The measured loop, with `n` rounds left.
unfoldable pub ping_rounds : ℕ → ℕ → ℕ → M (Unit {0})
ping_rounds ping_sem pong_sem zero = pure tt
ping_rounds ping_sem pong_sem (suc n) = do
  os_semaphore_release pong_sem
  _ ← os_semaphore_acquire ping_sem wait_forever
  ping_rounds ping_sem pong_sem n

-- `n` rounds of the loop that ends the task.
unfoldable pub rest_rounds : ℕ → M (Unit {0})
rest_rounds zero = pure tt
rest_rounds (suc n) = do os_delay 1000; rest_rounds n

-- `bench_ping_task` up to the `n`-th round of its last loop, where `lines` prints the numbers of the two
-- lines and the counter shows `start` and `now`.
unfoldable pub bench_ping_task : ℕ → ℕ → (ℕ → ℕ → List ℕ) → ℕ → ℕ → ℕ → M (List ℕ)
bench_ping_task ping_sem pong_sem lines start now n = do
  os_delay 100
  ping_rounds ping_sem pong_sem bench_iterations
  let round_trip : ℕ = average start now
  rest_rounds n
  pure (lines round_trip (round_trip / 2))

-- The first `n` rounds of `bench_pong_task`.
unfoldable pub bench_pong_task : ℕ → ℕ → ℕ → M (Unit {0})
bench_pong_task ping_sem pong_sem zero = pure tt
bench_pong_task ping_sem pong_sem (suc n) = do
  _ ← os_semaphore_acquire pong_sem wait_forever
  os_semaphore_release ping_sem
  bench_pong_task ping_sem pong_sem n

-- What the scheduler leaves.
unfoldable pub rescheduled : Kernel → Option Kernel
rescheduled k = elim (os_scheduler k) [
  | done u k' ↦ some k'
  | yielded k' g ↦ none
  | fault ↦ none
  | halted k' ↦ none
]

unfoldable pub is_current : Kernel → ℕ → Bool
is_current k a = elim k.current_tcb [ none ↦ false | some c ↦ c == a ]

-- Task `a` goes on with `f`, another task with `g`; the one to which `current_tcb` points runs up to its next
-- switch, where the scheduler decides. The result is the state in which `a` returns, after exactly `n`
-- switches.
unfoldable pub in_turn :
    ℕ → ℕ → (Kernel → Run (Unit {0})) → (Kernel → Run (Unit {0})) → Kernel → Option Kernel
in_turn zero a f g k = elim (f k) [
  | done u k' ↦ if is_current k a then some k' else none
  | yielded k' h ↦ none
  | fault ↦ none
  | halted k' ↦ none
]
in_turn (suc n) a f g k = elim (if is_current k a then f k else g k) [
  | yielded k1 h ↦ elim (rescheduled k1) [
    | some k2 ↦ if is_current k a then in_turn n a h g k2 else in_turn n a f h k2
    | none ↦ none
  ]
  | done u k' ↦ none
  | fault ↦ none
  | halted k' ↦ none
]
