-- ===== src/Drivers/Ultrasonic/Echo.antt =====
-- The measurement of Drivers/Src/ultrasonic.c: two edges give the width of the echo.
use sentinel_rtos.Base.{ℕ, ◌+◌, ◌-◌, ◌/◌, ◌%◌, ◌<◌, ◌≡◌, ◌≢◌, refl, ap, true, arith}
use sentinel_rtos.Kernel.State.{Kernel, u32_mod, os_enter_critical, os_exit_critical}
use sentinel_rtos.Kernel.Run.{done, bind, straight_on}
use sentinel_rtos.Kernel.Semaphore.Branches.{acquire_token, release_room}
use sentinel_rtos.Queue.Polled.{given, taken}
use sentinel_rtos.Drivers.Ultrasonic.{
  Sonar, set_word, us_per_cm, ultrasonic_trigger, ultrasonic_read_cm, distance, tim2_irq_handler,
}

-- Three different words.
pub record IsLaidOut (s : Sonar) : Type 0 where
  pub ends : s.time_start ≢ s.time_end
  pub start_flag : s.time_start ≢ s.waiting_for_rising
  pub end_flag : s.time_end ≢ s.waiting_for_rising

module _ (s : Sonar) (k : Kernel) where
  -- The state after a rising edge, and that in which a falling edge posts the semaphore.
  abbrev pub risen : ℕ → Kernel
  risen a = set_word (set_word k s.time_start a) s.waiting_for_rising 0

  abbrev pub fallen : ℕ → Kernel
  fallen b = set_word (set_word k s.time_end b) s.waiting_for_rising 1

  pub rises :
      (a : ℕ) → k.memory s.waiting_for_rising ≢ 0 → tim2_irq_handler s true a k ≡ done tt (risen a)
  unfolding tim2_irq_handler
  rises a h = ground arith

  falls :
      (b : ℕ)
      → k.memory s.waiting_for_rising ≡ 0
      → (k.semaphores s.echo_ready).waiters.wait_count ≡ 0
      → (k.semaphores s.echo_ready).count < (k.semaphores s.echo_ready).max_count
      → tim2_irq_handler s true b k ≡ done tt (given (fallen b) s.echo_ready)
  unfolding tim2_irq_handler straight_on
  falls b h none_waits room = rw (h, release_room (fallen b) s.echo_ready none_waits room) refl

-- With the variables at three addresses and a rising edge due: two edges that are `w` microseconds
-- apart, also across the wrap of the counter, with nobody waiting and room for the token: both
-- handlers return, the distance that a reader then computes is `w / 58`, exactly one token is
-- posted, and the next edge counts as a rising one again.
pub tim2_irq_handler-measures :
    (s : Sonar) (k : Kernel) (a w : ℕ)
    → IsLaidOut s
    → k.memory s.waiting_for_rising ≢ 0
    → (k.semaphores s.echo_ready).waiters.wait_count ≡ 0
    → (k.semaphores s.echo_ready).count < (k.semaphores s.echo_ready).max_count
    → a < u32_mod
    → w < u32_mod
    → (k1 : Kernel) × (k2 : Kernel) × (tim2_irq_handler s true a k ≡ done tt k1)
      × (tim2_irq_handler s true ((a + w) % u32_mod) k1 ≡ done tt k2)
      × (distance s k2 ≡ done (w / 58) k2)
      × ((k2.semaphores s.echo_ready).count ≡ (k.semaphores s.echo_ready).count + 1)
      × (k2.memory s.waiting_for_rising ≢ 0)
unfolding distance
tim2_irq_handler-measures s k a w apart flag none_waits room ha hw =
    let k1 = risen s k a in
    let b = (a + w) % u32_mod in
    let k2 = given (fallen s k1 b) s.echo_ready in
    let ended : k2.memory s.time_end ≡ b = ground (arith, apart.end_flag) in
    let began : k2.memory s.time_start ≡ a = ground (arith, apart.start_flag, apart.ends) in
    let width : (k2.memory s.time_end + u32_mod - k2.memory s.time_start) % u32_mod ≡ w =
      omega (arith, ended, began) in
    (
      k1,
      k2,
      rises s k a flag,
      falls s k1 b (ground arith) none_waits room,
      ap (λ d. done (d / us_per_cm) k2) width,
      ground arith,
      ground arith,
    )

-- With the variables at three addresses, a read that finds a token, one that a late echo left for
-- instance, does not wait for its own echo: it returns at once, whatever its timeout, the distance
-- of the edges captured before its trigger, and takes the token.
pub ultrasonic_read_cm_at_once :
    (s : Sonar) (k : Kernel) (timeout_ms : ℕ)
    → IsLaidOut s
    → 0 < (k.semaphores s.echo_ready).count
    → (k' : Kernel) × (ultrasonic_read_cm s timeout_ms k
        ≡ done ((k.memory s.time_end + u32_mod - k.memory s.time_start) % u32_mod / us_per_cm) k')
      × ((k'.semaphores s.echo_ready).count ≡ (k.semaphores s.echo_ready).count - 1)
unfolding ultrasonic_read_cm ultrasonic_trigger distance bind os_enter_critical os_exit_critical
ultrasonic_read_cm_at_once s k timeout_ms apart token =
    let k1 = set_word k s.waiting_for_rising 1 in
    (
      taken k1 s.echo_ready,
      rw (acquire_token k1 s.echo_ready timeout_ms token)
          (ground (arith, apart.start_flag, apart.end_flag)),
      ground arith,
    )
