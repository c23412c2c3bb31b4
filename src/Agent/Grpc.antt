-- ===== src/Agent/Grpc.antt =====
-- The handlers of the service, crates/cmx-agent/src/grpc.rs. A handler is a function of the state: it
-- runs between two points at which other tasks may change the state.
pub mod Lookup
pub mod Store
pub mod Fetch
pub mod Admin
pub mod Serving
pub mod Storing
pub mod Reading
pub mod Refusing
pub mod Deleting
pub mod Filling
pub mod Looked
pub mod Looking
pub mod Batching
