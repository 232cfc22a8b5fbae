-- ===== src/Drivers/Ultrasonic.antt =====
-- Drivers/Src/ultrasonic.c: the echo's width from the two edges that timer 2 captures. The initialisation
-- and the pin writes of the trigger pulse are in Drivers/Timers.
pub mod Echo
use sentinel_rtos.Base.{
  ℕ, ◌+◌, ◌-◌, ◌*◌, ◌/◌, ◌%◌, Bool, not, true, false, ◌==◌, if◌then◌else◌, update,
}
use sentinel_rtos.Kernel.State.{Kernel, os_success, os_enter_critical, os_exit_critical, u32_mod}
use sentinel_rtos.Kernel.Run.{Run, M, done, ◌>>=◌, ◌>>◌, pure, straight_on}
use sentinel_rtos.Kernel.Semaphore.{os_semaphore_acquire, os_semaphore_release}

abbrev pub us_per_cm : ℕ
us_per_cm = 58

abbrev pub ultrasonic_no_echo : ℕ
ultrasonic_no_echo = 0xffff_ffff

-- The addresses of the three volatile variables, and the number of the semaphore `echo_ready`.
pub record Sonar : Type 0 where
  pub time_start : ℕ
  pub time_end : ℕ
  pub waiting_for_rising : ℕ
  pub echo_ready : ℕ

abbrev pub set_word : Kernel → ℕ → ℕ → Kernel
set_word k a v = record k { memory = update k.memory a v }

unfoldable pub ultrasonic_trigger : Sonar → M (Unit {0})
ultrasonic_trigger s k =
    let (primask, k1) = os_enter_critical k in
    done tt (os_exit_critical primask (set_word k1 s.waiting_for_rising 1))

-- `(time_end - time_start) / US_PER_CM` on `uint32_t`.
unfoldable pub distance : Sonar → M ℕ
distance s k =
    done ((k.memory s.time_end + u32_mod - k.memory s.time_start) % u32_mod / us_per_cm) k

unfoldable pub ultrasonic_read_cm : Sonar → ℕ → M ℕ
ultrasonic_read_cm s timeout_ms = do
  ultrasonic_trigger s
  r ← os_semaphore_acquire s.echo_ready timeout_ms
  if r == os_success then distance s else pure ultrasonic_no_echo

-- The handler, where the register's flag is `flag` and the captured count is `captured`. A switch
-- that it asks for stays pending.
unfoldable pub tim2_irq_handler : Sonar → Bool → ℕ → M (Unit {0})
tim2_irq_handler s flag captured k =
    if not flag
    then done tt k
    else if k.memory s.waiting_for_rising == 0
    then straight_on (
        os_semaphore_release s.echo_ready
          (set_word (set_word k s.time_end captured) s.waiting_for_rising 1))
    else done tt (set_word (set_word k s.time_start captured) s.waiting_for_rising 0)
