-- ===== src/Vmm/Tests.antt =====
-- Concrete addresses, tables and searches.
mod Words
pub mod Machine
pub mod Paging
