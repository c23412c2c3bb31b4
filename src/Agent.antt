-- ===== src/Agent.antt =====
-- The crate crates/cmx-agent: the daemon that serves the cache.
pub mod Config
pub mod Crates
pub mod Etcd
pub mod Codecs
pub mod Floats
pub mod Main
pub mod Metadata
pub mod Threads
pub mod Watch
pub mod Grpc
pub mod Placement
pub mod Pressure
pub mod RemoteIndex
pub mod Service
pub mod Sessions
pub mod Start
