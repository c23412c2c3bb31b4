-- ===== src/BlockStore.antt =====
-- The crate crates/cmx-block-store: blocks, their allocator, the eviction policy and the index.
pub mod Allocator
pub mod Block
pub mod Eviction
pub mod Index
