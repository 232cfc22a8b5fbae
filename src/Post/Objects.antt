-- ===== src/Post/Objects.antt =====
-- The mutex test and the semaphore test of Kernel/os_tests.c.
use sentinel_rtos.Base.{inl, refl, ℕ, ◌+◌, ◌≡◌, ◌∙◌, arith}
use sentinel_rtos.Kernel.State.{Kernel}
use sentinel_rtos.Kernel.Run.{done, bind, ◌>>◌}
use sentinel_rtos.Kernel.Mutex.{os_mutex_init, drop_donation}
use sentinel_rtos.Kernel.Mutex.Branches
use sentinel_rtos.Kernel.Semaphore.{os_semaphore_init, os_semaphore_release}
use sentinel_rtos.Kernel.Semaphore.Branches as SemaphoreBranches
use sentinel_rtos.Queue.Polled.{taken, given, locked, unlocked, Touches}
use sentinel_rtos.Post.{fail_if, count_is, take_to, test_mutex_basic, test_semaphore_basic}

module _ (k : Kernel) where
  fresh_mutex :
      (m : ℕ)
      → (((os_mutex_init m k).mutexes m).lock ≡ 0)
        × (((os_mutex_init m k).mutexes m).waiters.wait_count ≡ 0)
  unfolding os_mutex_init
  fresh_mutex m = (ground arith, ground arith)

  -- The mutex test passes, and leaves its mutex free.
  pub test_mutex_basic_lem :
      (m : ℕ) → test_mutex_basic m k ≡ done tt (unlocked (locked (os_mutex_init m k) m) m)
  unfolding test_mutex_basic fail_if bind
  test_mutex_basic_lem m =
      let k1 = os_mutex_init m k in
      ground (
        arith,
        Branches.acquire_free k1 m 0 (fresh_mutex m).0,
        Branches.acquire_own (locked k1 m) m 0 (ground arith) (ground arith),
        Branches.release_idle (locked k1 m) m (ground (arith, fresh_mutex m)),
      )

  take_to_lem : (s n : ℕ) → (k.semaphores s).count ≡ n + 1 → take_to s n k ≡ done tt (taken k s)
  unfolding take_to fail_if bind
  take_to_lem s n e = rw (SemaphoreBranches.acquire_token k s 0 (omega (arith, e))) (ground arith)

  count_is_lem : (s n : ℕ) → (k.semaphores s).count ≡ n → count_is s n k ≡ done tt k
  unfolding count_is fail_if bind
  count_is_lem s n e = ground arith

  release_full :
      (s : ℕ)
      → (k.semaphores s).waiters.wait_count ≡ 0
      → (k.semaphores s).count ≡ 2
      → (k.semaphores s).max_count ≡ 2
      → os_semaphore_release s k ≡ done tt k
  release_full s quiet at_max max = SemaphoreBranches.release_idle k s quiet ∙ ground arith

  past_the_maximum :
      (s : ℕ)
      → (k.semaphores s).waiters.wait_count ≡ 0
      → (k.semaphores s).count ≡ 2
      → (k.semaphores s).max_count ≡ 2
      → (os_semaphore_release s >> count_is s 2) k ≡ done tt k
  unfolding bind
  past_the_maximum s quiet at_max max =
      rw (release_full s quiet at_max max) (count_is_lem s 2 at_max)

-- The semaphore test passes, and leaves its semaphore at the maximum.
pub test_semaphore_basic_lem :
    (k : Kernel) (s : ℕ)
    → let k1 = os_semaphore_init s 2 2 k in
      let empty = taken (taken k1 s) s in
      test_semaphore_basic s k ≡ done tt (given (given empty s) s)
unfolding test_semaphore_basic fail_if bind os_semaphore_init
test_semaphore_basic_lem k s =
    let k1 = os_semaphore_init s 2 2 k in
    let k2 = taken k1 s in
    let k3 = taken k2 s in
    let k4 = given k3 s in
    let k5 = given k4 s in
    rw
      (
        take_to_lem k1 s 1 (ground arith),
        take_to_lem k2 s 0 (ground arith),
        SemaphoreBranches.acquire_poll k3 s (ground arith),
        SemaphoreBranches.release_room k3 s (ground arith) (ground arith),
        count_is_lem k4 s 1 (ground arith),
        SemaphoreBranches.release_room k4 s (ground arith) (ground arith),
      )
      (past_the_maximum k5 s (ground arith) (ground arith) (ground arith))

-- Neither test touches anything but its object.
pub test_mutex-Touches :
    (k : Kernel) (m buffer capacity : ℕ)
    → Touches k (unlocked (locked (os_mutex_init m k) m) m) buffer capacity
unfolding os_mutex_init drop_donation
test_mutex-Touches k m buffer capacity = record {
  same_count = refl;
  same_current = refl;
  same_running = refl;
  same_slots = λ r. (refl, refl);
  tasks = λ t. ground arith;
  words = λ a. inl refl;
}

pub test_semaphore-Touches :
    (k : Kernel) (s buffer capacity : ℕ)
    → let empty = taken (taken (os_semaphore_init s 2 2 k) s) s in
      Touches k (given (given empty s) s) buffer capacity
unfolding os_semaphore_init
test_semaphore-Touches k s buffer capacity = record {
  same_count = refl;
  same_current = refl;
  same_running = refl;
  same_slots = λ r. (refl, refl);
  tasks = λ t. inl refl;
  words = λ a. inl refl;
}
