-- ===== src/Descriptors.antt =====
-- The processor's tables: arch/x86_64/src/gdt.c and arch/x86_64/src/idt.c.
pub mod Gdt
pub mod Idt
pub mod Frame
pub mod Handlers
pub mod Exceptions
pub mod Segments
mod Tests
