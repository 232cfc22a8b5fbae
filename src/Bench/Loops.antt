-- ===== src/Bench/Loops.antt =====
-- The loops of Bench/microbench.c on an uncontested kernel.
use mathlib.Core.Path.{subst₂}
use sentinel_rtos.Base.{ℕ, zero, suc, ◌+◌, ◌<◌, ◌≡◌, ◌≢◌, refl, ap, subst, inl, [], ◌∷◌, arith}
use sentinel_rtos.Kernel.State.{Kernel, MessageQueue}
use sentinel_rtos.Kernel.Run.{Run, done, bind}
use sentinel_rtos.Kernel.Mutex.{os_mutex_init, drop_donation}
use sentinel_rtos.Kernel.Mutex.Branches
use sentinel_rtos.Kernel.Semaphore.{os_semaphore_init}
use sentinel_rtos.Kernel.Semaphore.Branches as SemaphoreBranches
use sentinel_rtos.Queue.{os_queue_init}
use sentinel_rtos.Queue.Fifo.{push, pop}
use sentinel_rtos.Queue.Polled.{
  taken, given, locked, unlocked, Touches, Touches-nothing, Touches-trans, Polled, Holds,
  after_poll, stays,
}
use sentinel_rtos.Queue.Sent.{send_polled}
use sentinel_rtos.Queue.Received.{receive_polled}
use sentinel_rtos.Queue.Refines.{init-Holds, queue_of_init}
use sentinel_rtos.Post.Passes.{init-Touches}
use sentinel_rtos.Bench.{
  mutex_rounds, bench_mutex_overhead, semaphore_rounds, bench_semaphore_overhead, queue_rounds,
  bench_queue_roundtrip, bench_iterations, bench_scheduler_decision, microbench_run_all,
}

-- What a benchmark leaves behind.
abbrev pub Leaves : Kernel → Run (Unit {0}) → ℕ → ℕ → Type 0
Leaves k run buffer capacity = (k' : Kernel) × (run ≡ done tt k') × Touches k k' buffer capacity

mutex_round-Touches :
    (k : Kernel) (m buffer capacity : ℕ) → Touches k (unlocked (locked k m) m) buffer capacity
unfolding drop_donation
mutex_round-Touches k m buffer capacity = record {
  same_count = refl;
  same_current = refl;
  same_running = refl;
  same_slots = λ r. (refl, refl);
  tasks = λ t. ground arith;
  words = λ a. inl refl;
}

mutex_rounds-Touches :
    (n : ℕ) (k : Kernel) (m buffer capacity : ℕ)
    → (k.mutexes m).lock ≡ 0
    → (k.mutexes m).waiters.wait_count ≡ 0
    → Leaves k (mutex_rounds m n k) buffer capacity
unfolding mutex_rounds bind
mutex_rounds-Touches zero k m buffer capacity free quiet =
    (k, refl, Touches-nothing k buffer capacity)
mutex_rounds-Touches (suc n) k m buffer capacity free quiet =
    let k1 = unlocked (locked k m) m in
    let (k', returned, touched) =
      mutex_rounds-Touches n k1 m buffer capacity (ground arith) (ground arith) in
    (
      k',
      rw (Branches.acquire_free k m 0 free, Branches.release_idle (locked k m) m (ground arith))
          returned,
      Touches-trans k k1 k' buffer capacity (mutex_round-Touches k m buffer capacity) touched,
    )

semaphore_rounds-Touches :
    (n : ℕ) (k : Kernel) (s buffer capacity : ℕ)
    → (k.semaphores s).count ≡ 1
    → (k.semaphores s).max_count ≡ 1
    → (k.semaphores s).waiters.wait_count ≡ 0
    → Leaves k (semaphore_rounds s n k) buffer capacity
unfolding semaphore_rounds bind
semaphore_rounds-Touches zero k s buffer capacity one max quiet =
    (k, refl, Touches-nothing k buffer capacity)
semaphore_rounds-Touches (suc n) k s buffer capacity one max quiet =
    let k1 = given (taken k s) s in
    let (k', returned, touched) =
      semaphore_rounds-Touches n k1 s buffer capacity (ground arith) (ground arith)
        (ground arith) in
    (
      k',
      rw
          (
            SemaphoreBranches.acquire_token k s 0 (ground arith),
            SemaphoreBranches.release_room (taken k s) s (ground arith) (ground arith),
          )
          returned,
      Touches-trans k k1 k' buffer capacity
          (record {
            same_count = refl;
            same_current = refl;
            same_running = refl;
            same_slots = λ r. (refl, refl);
            tasks = λ t. inl refl;
            words = λ a. inl refl;
          })
          touched,
    )

-- A message goes in and comes out.
through : (c i : ℕ) → 0 < c → push c [] i ≡ i ∷ []
unfolding push
through c i some_room = ground arith

queue_rounds-Polled :
    (n i : ℕ) (k : Kernel) (q : ℕ) → Holds k q [] → Polled k q (queue_rounds q i n k) tt []
unfolding queue_rounds pop
queue_rounds-Polled zero i k q h = stays k q tt [] h
queue_rounds-Polled (suc n) i k q h =
    let p = send_polled k q i [] h in
    let one : Holds p.after q (i ∷ []) =
      subst (Holds p.after q) (through (k.queues q).capacity i h.has_room) p.holds in
    let r = receive_polled p.after q (i ∷ []) one in
    after_poll k q _ _ _ p _ tt [] (
      after_poll p.after q _ _ _ r (λ _. queue_rounds q (i + 1) n) tt []
        (queue_rounds-Polled n (i + 1) r.after q r.holds))

Leaves-after :
    (k j : Kernel) (run : Run (Unit {0})) (buffer capacity : ℕ)
    → Touches k j buffer capacity
    → Leaves j run buffer capacity
    → Leaves k run buffer capacity
Leaves-after k j run buffer capacity before (k', returned, touched) =
    (k', returned, Touches-trans k j k' buffer capacity before touched)

pub mutex_init-Touches :
    (k : Kernel) (m buffer capacity : ℕ) → Touches k (os_mutex_init m k) buffer capacity
unfolding os_mutex_init
mutex_init-Touches k m buffer capacity = record {
  same_count = refl;
  same_current = refl;
  same_running = refl;
  same_slots = λ r. (refl, refl);
  tasks = λ t. inl refl;
  words = λ a. inl refl;
}

pub semaphore_init-Touches :
    (k : Kernel) (s initial max_count buffer capacity : ℕ)
    → Touches k (os_semaphore_init s initial max_count k) buffer capacity
unfolding os_semaphore_init
semaphore_init-Touches k s initial max_count buffer capacity = record {
  same_count = refl;
  same_current = refl;
  same_running = refl;
  same_slots = λ r. (refl, refl);
  tasks = λ t. inl refl;
  words = λ a. inl refl;
}

bench_mutex_overhead-Touches :
    (k : Kernel) (m buffer capacity : ℕ) → Leaves k (bench_mutex_overhead m k) buffer capacity
unfolding bench_mutex_overhead os_mutex_init
bench_mutex_overhead-Touches k m buffer capacity =
    let k1 = os_mutex_init m k in
    Leaves-after k k1 _ buffer capacity (mutex_init-Touches k m buffer capacity)
      (mutex_rounds-Touches bench_iterations k1 m buffer capacity (ground arith) (ground arith))

bench_semaphore_overhead-Touches :
    (k : Kernel) (s buffer capacity : ℕ) → Leaves k (bench_semaphore_overhead s k) buffer capacity
unfolding bench_semaphore_overhead os_semaphore_init
bench_semaphore_overhead-Touches k s buffer capacity =
    let k1 = os_semaphore_init s 1 1 k in
    Leaves-after k k1 _ buffer capacity (semaphore_init-Touches k s 1 1 buffer capacity) (
      semaphore_rounds-Touches bench_iterations k1 s buffer capacity (ground arith) (ground arith)
        (ground arith))

apart_still :
    (k k' : Kernel) (q buf : ℕ)
    → Touches k k' buf 8
    → (k.queues q).empty_slots ≢ (k.queues q).filled_slots
    → (k'.queues q).empty_slots ≢ (k'.queues q).filled_slots
apart_still k k' q buf t apart same = ground (arith, t.same_slots q)

bench_queue_roundtrip-Touches :
    (k : Kernel) (q buf : ℕ)
    → (k.queues q).empty_slots ≢ (k.queues q).filled_slots
    → Leaves k (bench_queue_roundtrip q buf k) buf 8
unfolding bench_queue_roundtrip
bench_queue_roundtrip-Touches k q buf apart =
    let k1 = os_queue_init q buf 8 k in
    let p =
      queue_rounds-Polled bench_iterations 0 k1 q
        (init-Holds k q buf 8 (omega arith) (omega arith) apart) in
    let fresh : k1.queues q
        ≡ record (k.queues q) { buffer = buf; capacity = 8; head = 0; tail = 0 } =
      queue_of_init k q buf 8 in
    Leaves-after k k1 _ buf 8 (init-Touches k q buf 8) (
      p.after,
      p.returns,
      subst₂ (Touches k1 p.after) (ap (λ (x : MessageQueue). x.buffer) fresh)
          (ap (λ (x : MessageQueue). x.capacity) fresh) p.touched,
    )

-- The three benchmarks before the scheduler's return.
pub before_scheduler :
    (k : Kernel) (m s q buf : ℕ)
    → (k.queues q).empty_slots ≢ (k.queues q).filled_slots
    → (k' : Kernel) × (microbench_run_all m s q buf k ≡ bench_scheduler_decision k')
      × Touches k k' buf 8
unfolding microbench_run_all bind
before_scheduler k m s q buf apart =
    let (k1, first, t1) = bench_mutex_overhead-Touches k m buf 8 in
    let (k2, second, t2) = bench_semaphore_overhead-Touches k1 s buf 8 in
    let t : Touches k k2 buf 8 = Touches-trans k k1 k2 buf 8 t1 t2 in
    let (k3, third, t3) = bench_queue_roundtrip-Touches k2 q buf (apart_still k k2 q buf t apart) in
    (k3, rw (first, second, third) refl, Touches-trans k k2 k3 buf 8 t t3)
