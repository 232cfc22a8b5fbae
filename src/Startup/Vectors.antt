-- ===== src/Startup/Vectors.antt =====
-- The vector table of stm32f411_startup.c, and what the core does for each of its exceptions.
pub mod Served
use sentinel_rtos.Base.{
  ℕ, zero, suc, Bool, true, false, Option, none, some, List, [], ◌∷◌, if◌then◌else◌, get_elem?,
}
use sentinel_rtos.Kernel.Run.{M, fault, halted}

-- The handlers, each `Reset` or a weak alias of `Default_Handler`.
pub data Handler : Type 0 where
  reset nmi hard_fault mem_manage bus_fault usage_fault svc debug_mon pend_sv sys_tick wwdg pvd :
      Handler
  tamp_stamp rtc_wkup flash rcc exti0 exti1 exti2 exti3 exti4 dma1_stream0 dma1_stream1 : Handler
  dma1_stream2 dma1_stream3 dma1_stream4 dma1_stream5 dma1_stream6 adc exti9_5 tim1_brk_tim9 :
      Handler
  tim1_up_tim10 tim1_trg_com_tim11 tim1_cc tim2 tim3 tim4 i2c1_ev i2c1_er i2c2_ev i2c2_er spi1 :
      Handler
  spi2 usart1 usart2 exti15_10 rtc_alarm otg_fs_wkup dma1_stream7 sdio tim5 spi3 dma2_stream0 :
      Handler
  dma2_stream1 dma2_stream2 dma2_stream3 dma2_stream4 otg_fs dma2_stream5 dma2_stream6 : Handler
  dma2_stream7 usart6 i2c3_ev i2c3_er fpu spi4 spi5 : Handler

-- The words of the table: the initial stack pointer, a handler, or 0.
pub data Vector : Type 0 where
  stack_top reserved : Vector
  entry : Handler → Vector

unfoldable pub vector_tbl : List Vector
vector_tbl =
    stack_top
    ∷ entry reset
    ∷ entry nmi
    ∷ entry hard_fault
    ∷ entry mem_manage
    ∷ entry bus_fault
    ∷ entry usage_fault
    ∷ reserved
    ∷ reserved
    ∷ reserved
    ∷ reserved
    ∷ entry svc
    ∷ entry debug_mon
    ∷ reserved
    ∷ entry pend_sv
    ∷ entry sys_tick
    ∷ entry wwdg
    ∷ entry pvd
    ∷ entry tamp_stamp
    ∷ entry rtc_wkup
    ∷ entry flash
    ∷ entry rcc
    ∷ entry exti0
    ∷ entry exti1
    ∷ entry exti2
    ∷ entry exti3
    ∷ entry exti4
    ∷ entry dma1_stream0
    ∷ entry dma1_stream1
    ∷ entry dma1_stream2
    ∷ entry dma1_stream3
    ∷ entry dma1_stream4
    ∷ entry dma1_stream5
    ∷ entry dma1_stream6
    ∷ entry adc
    ∷ reserved
    ∷ reserved
    ∷ reserved
    ∷ reserved
    ∷ entry exti9_5
    ∷ entry tim1_brk_tim9
    ∷ entry tim1_up_tim10
    ∷ entry tim1_trg_com_tim11
    ∷ entry tim1_cc
    ∷ entry tim2
    ∷ entry tim3
    ∷ entry tim4
    ∷ entry i2c1_ev
    ∷ entry i2c1_er
    ∷ entry i2c2_ev
    ∷ entry i2c2_er
    ∷ entry spi1
    ∷ entry spi2
    ∷ entry usart1
    ∷ entry usart2
    ∷ reserved
    ∷ entry exti15_10
    ∷ entry rtc_alarm
    ∷ entry otg_fs_wkup
    ∷ reserved
    ∷ reserved
    ∷ reserved
    ∷ reserved
    ∷ entry dma1_stream7
    ∷ reserved
    ∷ entry sdio
    ∷ entry tim5
    ∷ entry spi3
    ∷ reserved
    ∷ reserved
    ∷ reserved
    ∷ reserved
    ∷ entry dma2_stream0
    ∷ entry dma2_stream1
    ∷ entry dma2_stream2
    ∷ entry dma2_stream3
    ∷ entry dma2_stream4
    ∷ reserved
    ∷ reserved
    ∷ reserved
    ∷ reserved
    ∷ reserved
    ∷ reserved
    ∷ entry otg_fs
    ∷ entry dma2_stream5
    ∷ entry dma2_stream6
    ∷ entry dma2_stream7
    ∷ entry usart6
    ∷ entry i2c3_ev
    ∷ entry i2c3_er
    ∷ reserved
    ∷ reserved
    ∷ reserved
    ∷ reserved
    ∷ reserved
    ∷ reserved
    ∷ reserved
    ∷ entry fpu
    ∷ reserved
    ∷ reserved
    ∷ entry spi4
    ∷ entry spi5
    ∷ []

unfoldable pub default_handler : M (Unit {0})
default_handler k = halted k

-- The handlers that other files define. The linker prefers these to the weak aliases.
abbrev pub is_defined : Handler → Bool
is_defined reset = true
is_defined pend_sv = true
is_defined sys_tick = true
is_defined tim2 = true
is_defined h = false

-- Handler `h` of the linked program, where `own` gives the handlers that other files define.
unfoldable pub linked : (Handler → M (Unit {0})) → Handler → M (Unit {0})
linked own h = if is_defined h then own h else default_handler

-- The core on exception `n`. A word that is no handler is no address to run from.
unfoldable pub serve : (Handler → M (Unit {0})) → ℕ → M (Unit {0})
serve own n = elim (get_elem? vector_tbl n) [
  | none ↦ λ k. fault
  | some stack_top ↦ λ k. fault
  | some reserved ↦ λ k. fault
  | some (entry h) ↦ linked own h
]
