-- ===== src/Kernel.antt =====
-- The kernel of Kernel/os_kernel.c, with the types of Inc/os_task.h and Inc/os_kernel.h.
pub mod State
pub mod WaitQueue
pub mod Run
pub mod Blocking
pub mod Scheduler
pub mod Tick
pub mod TaskTable
pub mod Mutex
pub mod Semaphore
pub mod Boot
pub mod Invariant
pub mod Safety
pub mod System
pub mod Ownership
pub mod Deadline
pub mod Masking
pub mod ContextSwitch
