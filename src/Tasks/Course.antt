-- ===== src/Tasks/Course.antt =====
-- What a task of Tasks/tasks.c does from stop to stop, whatever the other tasks do in between.
use sentinel_rtos.Base.{refl, ℕ, zero, suc, ◌<◌, ◌≡◌, true, none, some, List, arith}
use sentinel_rtos.Kernel.State.{Kernel, os_enter_critical, os_exit_critical, os_yield, set_task}
use sentinel_rtos.Kernel.Run.{Run, M, done, yielded, fault, halted, bind, ◌>>◌, pure}
use sentinel_rtos.Kernel.Tick.{sleeping_tcb, os_delay}
use sentinel_rtos.Queue.Polled.{Holds}
use sentinel_rtos.Queue.Kept.{Leaves-Holds}

-- It naps for a number of ticks, waits in a queue, goes wrong, or ends with a result.
pub data Course {ℓ} (A : Type ℓ) : Type ℓ where
  naps : ℕ → Course A → Course A
  waits : Course A → Course A
  wrong : Course A
  ends : A → Course A

-- The course of a run of task `c` that finds the kernel as `back i` when it is back from stop `i`.
unfoldable pub course {ℓ} : {A : Type ℓ} → ℕ → (ℕ → Kernel) → Run A → Course A
course c back (done a k) = ends a
course c back (yielded k g) =
    let later = course c (λ i. back (suc i)) (g (back 0)) in
    elim (k.os_tasks c).wait_queue [
      | none ↦ naps (k.os_tasks c).sleep_time later
      | some r ↦ waits later
    ]
course c back fault = wrong
course c back (halted k) = wrong

-- A number of naps of `ms` ticks.
abbrev pub nap_times {ℓ} : {A : Type ℓ} → ℕ → ℕ → Course A → Course A
nap_times zero ms rest = rest
nap_times (suc n) ms rest = naps ms (nap_times n ms rest)

-- Task `c` runs.
pub record Active (c : ℕ) (k : Kernel) : Type 0 where
  pub live : k.kernel_running ≡ true
  pub current : k.current_tcb ≡ some c

-- The state in which task `c` sleeps.
abbrev pub sleeping : Kernel → ℕ → ℕ → Kernel
sleeping k c ms = os_yield (set_task k c (sleeping_tcb (k.os_tasks c) ms))

pub delays :
    (k : Kernel) (c ms : ℕ)
    → Active c k
    → 0 < ms
    → os_delay ms k ≡ yielded (sleeping k c ms) (done tt)
unfolding os_delay os_enter_critical os_exit_critical os_yield
delays k c ms runs some_time = ground (arith, runs.live, runs.current)

pub course-sleeping {ℓ} :
    {A : Type ℓ} (k : Kernel) (c ms : ℕ) (back : ℕ → Kernel) (g : Kernel → Run A)
    → course c back (yielded (sleeping k c ms) g)
      ≡ naps ms (course c (λ i. back (suc i)) (g (back 0)))
unfolding course os_yield
course-sleeping k c ms back g = ground arith

-- A delay, and what comes after it.
pub course-os_delay {ℓ} :
    {A : Type ℓ} (k : Kernel) (c ms : ℕ) (back : ℕ → Kernel) (rest : M A)
    → Active c k
    → 0 < ms
    → course c back ((os_delay ms >> rest) k)
      ≡ naps ms (course c (λ i. back (suc i)) (rest (back 0)))
unfolding bind
course-os_delay k c ms back rest runs some_time =
    rw (delays k c ms runs some_time) (course-sleeping k c ms back (λ k'. (pure tt >> rest) k'))

pub sleeping-Holds :
    (k : Kernel) (c ms q : ℕ) (xs : List ℕ) → Holds k q xs → Holds (sleeping k c ms) q xs
unfolding os_yield
sleeping-Holds k c ms q xs h =
    Leaves-Holds k (sleeping k c ms) q xs
      (record {
        same_queue = refl;
        same_lock = (refl, refl);
        same_empty = (refl, refl, refl);
        same_filled = (refl, refl, refl);
        same_words = λ a from to. refl;
      })
      h
