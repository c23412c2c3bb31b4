-- ===== src/Memory.antt =====
-- The crate crates/cmx-memory: the pool of pinned memory.
pub mod Bytes
pub mod Numa
pub mod Gpu
pub mod Pool
