-- ===== src/Tasks/Printing.antt =====
-- What the tasks of Tasks/tasks.c print under the free lock of the serial port.
use sentinel_rtos.Base.{ℕ, ◌≡◌, ◌≢◌, refl, List, arith}
use sentinel_rtos.Kernel.State.{Kernel, wait_forever}
use sentinel_rtos.Kernel.Run.{M, bind, ◌>>◌, ◌>>=◌}
use sentinel_rtos.Kernel.Mutex.{os_mutex_acquire, os_mutex_release}
use sentinel_rtos.Kernel.Mutex.Branches.{acquire_free, release_idle}
use sentinel_rtos.Queue.Polled.{Holds, locked, unlocked}
use sentinel_rtos.Queue.Kept.{Leaves-Holds}
use sentinel_rtos.Tasks.Course.{Active}

-- The state after the release of lock `m`.
abbrev pub printed : Kernel → ℕ → Kernel
printed k m = unlocked (locked k m) m

pub printed-Active : (k : Kernel) (c m : ℕ) → Active c k → Active c (printed k m)
printed-Active k c m active = record { live = active.live; current = active.current }

pub prints_first {ℓ} :
    {A : Type ℓ} (k : Kernel) (m : ℕ) (rest : M A)
    → (k.mutexes m).lock ≡ 0
    → (k.mutexes m).waiters.wait_count ≡ 0
    → (do _ ← os_mutex_acquire m wait_forever; os_mutex_release m; rest) k ≡ rest (printed k m)
unfolding bind
prints_first k m rest free none_waits =
    rw (acquire_free k m wait_forever free, release_idle (locked k m) m (ground arith)) refl

pub printed-Holds :
    (k : Kernel) (m q : ℕ) (xs : List ℕ)
    → m ≢ (k.queues q).lock
    → Holds k q xs
    → Holds (printed k m) q xs
printed-Holds k m q xs other h =
    Leaves-Holds k (printed k m) q xs
      (record {
        same_queue = refl;
        same_lock = (ground arith, ground arith);
        same_empty = (refl, refl, refl);
        same_filled = (refl, refl, refl);
        same_words = λ a from to. refl;
      })
      h
