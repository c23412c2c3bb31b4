-- ===== src/Transport.antt =====
-- The crate crates/cmx-transport: the transport between nodes, and the pool of its connections.
pub mod Mock
pub mod Nixl
pub mod Pool
pub mod Traits
