-- ===== src/Vmm.antt =====
-- arch/x86_64/src/vmm.c: the mapping of virtual addresses.
pub mod Address
pub mod Flags
pub mod Paging
pub mod Map
pub mod Search
pub mod Tables
pub mod Unmap
pub mod Window
pub mod Tests
