-- ===== src/Locks.antt =====
-- Locks of the kernel: the spin lock of kernel/include/multicore/lock.h, and the nesting of interrupt
-- locks in kernel/src/interrupt_lock.c.
pub mod Spin
pub mod Interrupts
mod Tests
