-- ===== src/Lib.antt =====
-- SENTINEL RTOS: a preemptive kernel for one Cortex-M4 core, and the radar application on it.
--
-- The kernel is one state, `Kernel` of Kernel/State: the task table, the running task, the ticks, the
-- mutexes, semaphores and message queues by number, the words of memory by address, PRIMASK, and the
-- pending switch. A pointer to a TCB is an index into the table, and NULL is none. A call is a function
-- from the state to a `Run` (Kernel/Run): it returns, stops at the switch that `os_yield` asks for with
-- the code that is left, reads through a NULL pointer, or spins. A critical section is one step, as its
-- interrupts are masked.
--
--   Base                      lists, maps and Boolean tests over the native numbers
--   Kernel/State, Run         Inc/os_kernel.h, Inc/os_task.h, Inc/os_queue.h
--   Kernel/WaitQueue          the loops of wait_queue_remove, block_current and pick_waiter
--   Kernel/Blocking           wait_queue_remove, block_current, wake_task of Kernel/os_kernel.c
--   Kernel/Scheduler          os_scheduler
--   Kernel/Tick               SysTick_Handler, os_get_ticks, os_delay
--   Kernel/TaskTable, Boot    os_task_create, os_kernel_init, os_kernel_launch, os_start_first_task
--   Kernel/Mutex, Semaphore   the two primitives
--   Kernel/Invariant, Safety  well-formedness, and the calls in well-formed states
--   Kernel/System             task creations, initialisations, the launch and runs, as relations
--   Kernel/Ownership          the owners of mutexes, and the room in their queues
--   Kernel/Deadline           waits with a time-out, from the call to its return, over the runs of
--                             Kernel/System/Elapsed: ticks, switches and other tasks' calls
--   Kernel/Masking            PRIMASK across the calls
--   Kernel/ContextSwitch      PendSV_Handler of Kernel/os_kernel_asm.s
--   Queue                     Kernel/os_queue.c, with Queue/Fifo as what it promises, Queue/Kept on what
--                             leaves a queue alone, and Queue/Rendezvous on a receiver that waits
--   Drivers/Uart              Drivers/Src/uart.c
--   Drivers/Servo             Drivers/Src/servo.c and Drivers/Src/pwm.c
--   Drivers/Ultrasonic        Drivers/Src/ultrasonic.c
--   Drivers/I2c               Drivers/Src/i2c.c
--   Drivers/Registers, Gpio   Drivers/Src/gpio.c, on registers as words of bits
--   Drivers/Adc, Spi          Drivers/Src/adc.c and Drivers/Src/spi.c
--   Drivers/Pins              uart_init, and the pins of the other initialisations
--   Drivers/Timers            pwm_init, ultrasonic_init and i2c_init as wholes, with the registers of
--                             timers 2 and 3 and of I2C1, and the trigger pulse
--   Post                      the self-test of Kernel/os_tests.c
--   Bench                     the benchmarks of Bench/microbench.c that run before the launch
--   Bench/PingPong            the two tasks of its context switch benchmark
--   Boot                      main() of Src/main.c, from its first call to the first task, with and
--                             without SENTINEL_BENCH; Boot/Peripherals its calls for the drivers,
--                             Boot/Entry the frame through which the first task is entered
--   Startup                   Reset_Handler of stm32f411_startup.c
--   Startup/Vectors           its vector table, weak aliases and default handler
--   Tasks                     Tasks/tasks.c, one function per round of a task's loop; Tasks/Course
--                             follows a task from one switch to the next
--   Tests                     the theorems on concrete systems
--
-- Loops over a count that is fixed at their start are recursion on the rounds left. The loop of
-- uart_print_number has ten rounds, one for each byte of its buffer; a 32-bit number has at most ten
-- digits. Counters that wrap have their modulus written out. The endless loops of the tasks take the
-- number of rounds that they are followed for, and what is proved of them is for every such number.
--
-- A run of the system follows each call to its return or its first switch. What is left of an acquire
-- after its switch reads the result only. In the runs a switch is the scheduler's step; the registers R4
-- to R11, PSP and the frames that PendSV_Handler moves are modelled in Kernel/ContextSwitch.
--
-- The masks and base addresses of the device header, and the symbols of the linker script, are not
-- in the repository's code and are parameters. So are the devices: the I2C bus, `Wire`, with what
-- each flag shows given the writes and reads so far, the SPI slave, the result of an analog
-- conversion, and the two readings of the cycle counter around a measurement. The functions of the
-- interrupt controller that the drivers call are parameters as well. Waits without a bound on a
-- hardware flag are over when the hardware has set it. The homing loop of sweep_task is on fuel; its
-- 19 rounds take the angle from 90 degrees to 0.
--
-- Not modelled: the registers of SysTick and of the system control block that the launch sets up, and
-- the interrupt controller, which the device header declares; what the self-test and main() print; the
-- delay of the trigger pulse, which takes no step of the kernel; the tests of Test/ that run on the
-- host, with their register stubs, and the Makefile.
pub mod Base
pub mod Kernel
pub mod Queue
pub mod Drivers
pub mod Tasks
pub mod Post
pub mod Startup
pub mod Bench
pub mod Boot
pub mod Tests
