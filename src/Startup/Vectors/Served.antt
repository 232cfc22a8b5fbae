-- ===== src/Startup/Vectors/Served.antt =====
-- The exceptions that the program of stm32f411_startup.c serves.
use sentinel_rtos.Base.{
  ℕ, zero, suc, ◌+◌, ◌≡◌, ◌≢◌, ◌⊎◌, inl, inr, refl, Bool, true, not, ◌&&◌, ◌||◌, ◌==◌, some, List,
  [], ◌∷◌, get_elem?, arith, Option-cases,
}
use sentinel_rtos.Kernel.State.{Kernel}
use sentinel_rtos.Kernel.Run.{M, fault, halted}
use sentinel_rtos.Startup.Vectors.{
  Handler, reset, pend_sv, sys_tick, tim2, Vector, stack_top, reserved, entry, vector_tbl,
  default_handler, is_defined, linked, serve,
}

is_weak : Vector → Bool
is_weak stack_top = true
is_weak reserved = true
is_weak (entry h) = not (is_defined h)

-- From number `i` on, the words without a defined handler are those of all numbers but four.
weak_from : ℕ → List Vector → Bool
weak_from i [] = true
weak_from i (v ∷ vs) =
    (is_weak v || (i == 1 || (i == 14 || (i == 15 || i == 44)))) && weak_from (i + 1) vs

table_weak : weak_from 0 vector_tbl ≡ true
unfolding weak_from is_weak vector_tbl
table_weak = refl

weak_at :
    (vs : List Vector) (i j : ℕ) (v : Vector)
    → weak_from i vs ≡ true
    → get_elem? vs j ≡ some v
    → i + j ≢ 1
    → i + j ≢ 14
    → i + j ≢ 15
    → i + j ≢ 44
    → is_weak v ≡ true
unfolding weak_from
weak_at [] i j v w e a b c d = absurd (cc)
weak_at (x ∷ xs) i zero v w e a b c d = ground (arith)
weak_at (x ∷ xs) i (suc j) v w e a b c d =
    weak_at xs (i + 1) j v (ground arith) e (omega arith) (omega arith) (omega arith) (omega arith)

weak_serves :
    (own : Handler → M (Unit {0})) (k : Kernel) (n : ℕ) (v : Vector)
    → get_elem? vector_tbl n ≡ some v
    → is_weak v ≡ true
    → (serve own n k ≡ halted k) ⊎ (serve own n k ≡ fault)
unfolding serve is_weak linked default_handler
weak_serves own k n stack_top e weak = inr (rw (e, serve))
weak_serves own k n reserved e weak = inr (rw (e, serve))
weak_serves own k n (entry h) e weak = inl (rw (e, serve) (ground arith))

-- Whatever the handlers do that other files define: the reset handler runs on exception 1, PendSV on 14, SysTick on 15
-- and that of timer 2 on 44, its interrupt 28; and an exception with any other number spins for ever, or
-- finds no handler in the table, and runs none of them.
pub serve-own :
    (own : Handler → M (Unit {0})) (k : Kernel) (n : ℕ)
    → n ≢ 1
    → n ≢ 14
    → n ≢ 15
    → n ≢ 44
    → (serve own 1 k ≡ own reset k)
      × (serve own 14 k ≡ own pend_sv k)
      × (serve own 15 k ≡ own sys_tick k)
      × (serve own 44 k ≡ own tim2 k)
      × ((serve own n k ≡ halted k) ⊎ (serve own n k ≡ fault))
unfolding serve linked vector_tbl
serve-own own k n a b c d = (refl, refl, refl, refl, others)
  where
    others : (serve own n k ≡ halted k) ⊎ (serve own n k ≡ fault)
    others = elim (Option-cases (get_elem? vector_tbl n)) [
      | inl e ↦ inr (rw (e, serve))
      | inr (v, e) ↦ weak_serves own k n v e (
          weak_at vector_tbl 0 n v table_weak e (omega arith) (omega arith) (omega arith)
            (omega arith))
    ]
