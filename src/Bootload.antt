-- ===== src/Bootload.antt =====
-- arch/x86_64/bootload: the old 32-bit loader, with its screen, its serial port and its interrupts.
pub mod Console
pub mod Screen
pub mod Output
pub mod Format
pub mod Keyboard
pub mod Interrupts
pub mod Tables
pub mod Multiboot
mod Tests
