-- ===== src/Common/Bits.antt =====
-- Bit laws at variables: the digit recursion of the native operations, fields, masks, single bits.
pub mod Step
pub mod Fields
pub mod Single
