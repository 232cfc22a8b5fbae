-- ===== src/Post.antt =====
-- The power-on self-test of Kernel/os_tests.c. The local objects of the tests are numbered by
-- parameters; what is printed is left out. `fail` spins.
pub mod Objects
pub mod Messages
pub mod Passes
use sentinel_rtos.Base.{
  ℕ, zero, suc, ◌+◌, Bool, true, not, ◌&&◌, ◌||◌, Option, none, some, ◌==◌, if◌then◌else◌,
  same_pointer,
}
use sentinel_rtos.Kernel.State.{Kernel, os_success, os_timeout}
use sentinel_rtos.Kernel.Run.{M, done, halted, bind, ◌>>=◌, ◌>>◌, pure}
use sentinel_rtos.Kernel.Mutex.{os_mutex_init, os_mutex_acquire, os_mutex_release}
use sentinel_rtos.Kernel.Semaphore.{os_semaphore_init, os_semaphore_acquire, os_semaphore_release}
use sentinel_rtos.Queue.{os_queue_init, os_queue_send, os_queue_receive}

unfoldable pub fail : M (Unit {0})
fail k = halted k

-- `if (bad) fail(...);`
unfoldable pub fail_if : Bool → M (Unit {0})
fail_if bad k = if bad then fail k else done tt k

-- A read of the state.
abbrev pub look {ℓ} : {A : Type ℓ} → (Kernel → A) → M A
look f k = done (f k) k

-- `os_X_init(&x, ...);`
abbrev pub run : (Kernel → Kernel) → M (Unit {0})
run f k = done tt (f k)

unfoldable pub test_mutex_basic : ℕ → M (Unit {0})
test_mutex_basic m = do
  run (os_mutex_init m)
  first ← os_mutex_acquire m 0
  fail_if (not (first == os_success))
  lock ← look (λ k. (k.mutexes m).lock)
  fail_if (not (lock == 1))
  second ← os_mutex_acquire m 0
  fail_if (second == os_success)
  os_mutex_release m
  x ← look (λ k. k.mutexes m)
  fail_if (not (x.lock == 0) || not (same_pointer x.owner none))

-- A take of the semaphore with the check of its result and of the count that it leaves.
unfoldable pub take_to : ℕ → ℕ → M (Unit {0})
take_to s count = do
  r ← os_semaphore_acquire s 0
  left ← look (λ k. (k.semaphores s).count)
  fail_if (not (r == os_success) || not (left == count))

-- The check of the count.
unfoldable pub count_is : ℕ → ℕ → M (Unit {0})
count_is s count = do left ← look (λ k. (k.semaphores s).count); fail_if (not (left == count))

unfoldable pub test_semaphore_basic : ℕ → M (Unit {0})
test_semaphore_basic s = do
  run (os_semaphore_init s 2 2)
  take_to s 1
  take_to s 0
  r ← os_semaphore_acquire s 0
  fail_if (not (r == os_timeout))
  os_semaphore_release s
  count_is s 1
  os_semaphore_release s
  os_semaphore_release s
  count_is s 2

-- `for (i = ...) os_queue_send(&q, i, 0);` from `i` on, with `n` rounds left.
unfoldable pub send_from : ℕ → ℕ → ℕ → M (Unit {0})
send_from q i zero = pure tt
send_from q i (suc n) = do _ ← os_queue_send q i 0; send_from q (i + 1) n

-- `if (os_queue_receive(&q, &out, 0) != OS_SUCCESS || out != x) fail(...);`. The call
-- writes `out` only when it returns a message; the result is `out` afterwards.
unfoldable pub expect : ℕ → ℕ → ℕ → M ℕ
expect q out x = do
  (code, message) ← os_queue_receive q 0
  let now : ℕ = elim message [ none ↦ out | some y ↦ y ]
  fail_if (not (code == os_success) || not (now == x))
  pure now

-- The loop that expects the numbers from `i` on, with `n` rounds left.
unfoldable pub expect_from : ℕ → ℕ → ℕ → ℕ → M ℕ
expect_from q out i zero = pure out
expect_from q out i (suc n) = do now ← expect q out i; expect_from q now (i + 1) n

-- `test_queue_basic` from the receive that should time out on.
unfoldable pub underflow_and_overflow : ℕ → ℕ → M (Unit {0})
underflow_and_overflow q out = do
  (code, message) ← os_queue_receive q 0
  let now : ℕ = elim message [ none ↦ out | some y ↦ y ]
  fail_if (not (code == os_timeout))
  send_from q 1 6
  _ ← expect q now 3
  pure tt

unfoldable pub test_queue_basic : ℕ → ℕ → M (Unit {0})
test_queue_basic q buffer = do
  run (os_queue_init q buffer 4)
  _ ← os_queue_send q 0xdeadbeef 0
  out ← expect q 0 0xdeadbeef
  send_from q 1 4
  last ← expect_from q out 1 4
  underflow_and_overflow q last

unfoldable pub os_run_post : ℕ → ℕ → ℕ → ℕ → M (Unit {0})
os_run_post m s q buffer = do test_mutex_basic m; test_semaphore_basic s; test_queue_basic q buffer
