-- ===== src/Post/Messages.antt =====
-- The queue test of Kernel/os_tests.c.
use sentinel_rtos.Base.{
  ℕ, zero, suc, ◌+◌, ◌≡◌, ◌≢◌, refl, ap, ◌∙◌, List, [], ◌∷◌, ◌++◌, arith, subst, same_number,
}
use sentinel_rtos.Kernel.State.{Kernel, MessageQueue}
use sentinel_rtos.Kernel.Run.{bind}
use sentinel_rtos.Queue.{os_queue_init}
use sentinel_rtos.Queue.Fifo.{push, pop}
use sentinel_rtos.Queue.Polled.{Polled, Holds, after_poll, stays}
use sentinel_rtos.Queue.Sent.{send_polled}
use sentinel_rtos.Queue.Received.{receive_polled}
use sentinel_rtos.Queue.Refines.{init-Holds, queue_of_init}
use sentinel_rtos.Post.{
  fail_if, send_from, expect, expect_from, underflow_and_overflow, test_queue_basic,
}

-- The numbers from `i` on, `n` of them.
abbrev count_up : ℕ → ℕ → List ℕ
count_up i zero = []
count_up i (suc n) = i ∷ count_up (i + 1) n

-- Pushed one after the other.
abbrev push_all : ℕ → List ℕ → List ℕ → List ℕ
push_all capacity xs [] = xs
push_all capacity xs (y ∷ ys) = push_all capacity (push capacity xs y) ys

send_from_lem :
    (n i : ℕ) (k : Kernel) (q : ℕ) (xs : List ℕ)
    → Holds k q xs
    → Polled k q (send_from q i n k) tt (push_all (k.queues q).capacity xs (count_up i n))
unfolding send_from
send_from_lem zero i k q xs h = stays k q tt xs h
send_from_lem (suc n) i k q xs h =
    let p = send_polled k q i xs h in
    after_poll k q _ _ _ p (λ _. send_from q (i + 1) n) tt _
      (subst
        (λ c.
          Polled p.after q (send_from q (i + 1) n p.after) tt
            (push_all c (push (k.queues q).capacity xs i) (count_up (i + 1) n)))
        p.same_capacity
        (send_from_lem n (i + 1) p.after q (push (k.queues q).capacity xs i) p.holds))

expect_lem :
    (out x : ℕ) (k : Kernel) (q : ℕ) (xs : List ℕ)
    → Holds k q (x ∷ xs)
    → Polled k q (expect q out x k) x xs
unfolding expect fail_if pop bind
expect_lem out x k q xs h =
    let p = receive_polled k q (x ∷ xs) h in
    after_poll k q _ _ _ p _ x xs (rw (same_number x) (stays p.after q x xs p.holds))

expect_from_lem :
    (n i out : ℕ) (k : Kernel) (q : ℕ) (xs : List ℕ)
    → Holds k q (count_up i n ++ xs)
    → (last : ℕ) × Polled k q (expect_from q out i n k) last xs
unfolding expect_from
expect_from_lem zero i out k q xs h = (out, stays k q out xs h)
expect_from_lem (suc n) i out k q xs h =
    let p = expect_lem out i k q (count_up (i + 1) n ++ xs) h in
    let (last, others) = expect_from_lem n (i + 1) i p.after q xs p.holds in
    (last, after_poll k q _ _ _ p (λ now. expect_from q now (i + 1) n) last xs others)

-- The six numbers overfill the four slots.
overfilled : (c : ℕ) → c ≡ 4 → push_all c [] (count_up 1 6) ≡ 3 ∷ 4 ∷ 5 ∷ 6 ∷ []
unfolding push
overfilled c e = rw e refl

filled : (c : ℕ) → c ≡ 4 → push_all c [] (count_up 1 4) ≡ count_up 1 4 ++ []
unfolding push
filled c e = rw e refl

one_message : (c : ℕ) → c ≡ 4 → push c [] 0xdeadbeef ≡ 0xdeadbeef ∷ []
unfolding push
one_message c e = rw e refl

underflow_and_overflow_lem :
    (k : Kernel) (q out : ℕ)
    → (k.queues q).capacity ≡ 4
    → Holds k q []
    → Polled k q (underflow_and_overflow q out k) tt (4 ∷ 5 ∷ 6 ∷ [])
unfolding underflow_and_overflow fail_if bind pop
underflow_and_overflow_lem k q out four h =
    let p = receive_polled k q [] h in
    let more = send_from_lem 6 1 p.after q [] p.holds in
    let at : Holds more.after q (3 ∷ 4 ∷ 5 ∷ 6 ∷ []) =
      subst (Holds more.after q) (overfilled (p.after.queues q).capacity (p.same_capacity ∙ four))
        more.holds in
    let oldest = expect_lem out 3 more.after q (4 ∷ 5 ∷ 6 ∷ []) at in
    after_poll k q _ _ _ p _ tt _ (
      after_poll p.after q _ _ _ more _ tt _
        (after_poll more.after q _ _ _ oldest _ tt _ (stays oldest.after q tt _ oldest.holds)))

pub test_queue_basic_lem :
    (k : Kernel) (q buffer : ℕ)
    → (k.queues q).empty_slots ≢ (k.queues q).filled_slots
    → Polled (os_queue_init q buffer 4 k) q (test_queue_basic q buffer k) tt (4 ∷ 5 ∷ 6 ∷ [])
unfolding test_queue_basic bind push
test_queue_basic_lem k q buffer apart =
    let k1 = os_queue_init q buffer 4 k in
    let four : (k1.queues q).capacity ≡ 4 =
      ap (λ (x : MessageQueue). x.capacity) (queue_of_init k q buffer 4) in
    let one =
      send_polled k1 q 0xdeadbeef [] (init-Holds k q buffer 4 (omega arith) (omega arith) apart) in
    let one_holds : Holds one.after q (0xdeadbeef ∷ []) =
      subst (Holds one.after q) (one_message (k1.queues q).capacity four) one.holds in
    let back = expect_lem 0 0xdeadbeef one.after q [] one_holds in
    let more = send_from_lem 4 1 back.after q [] back.holds in
    let in_order : Holds more.after q (count_up 1 4 ++ []) =
      subst (Holds more.after q)
        (filled (back.after.queues q).capacity (back.same_capacity ∙ one.same_capacity ∙ four))
        more.holds in
    let (last, all) = expect_from_lem 4 1 0xdeadbeef more.after q [] in_order in
    let rest =
      underflow_and_overflow_lem all.after q last
        (all.same_capacity ∙ more.same_capacity ∙ back.same_capacity ∙ one.same_capacity ∙ four)
        all.holds in
    after_poll k1 q _ _ _ one _ tt _ (
      after_poll one.after q _ _ _ back _ tt _
        (after_poll back.after q _ _ _ more _ tt _ (after_poll more.after q _ _ _ all _ tt _ rest)))
