-- ===== src/Tlsf.antt =====
-- src/tlsf.rs: the two-level segregated fit allocator.
pub mod Mapping
pub mod Block
pub mod Allocator
pub mod Pool
mod Tests
