-- ===== src/Lib.antt =====
-- Verification library of cmx-rdma, a cache of KV blocks that the nodes of an inference cluster share.
--
-- An agent holds a pool of memory blocks of equal size (crates/cmx-memory). The block store
-- (crates/cmx-block-store) writes data behind a checksummed header into a block, and keeps an index
-- from prefix hashes to block locations with a least-recently-used policy. The gRPC service
-- (crates/cmx-agent/src/grpc.rs) answers lookup, batch_lookup, store, get, delete, stats and health
-- over them. Beside it stand the pressure monitor, the ring of consistent hashing, the index of the
-- blocks of other nodes, and the transports (crates/cmx-transport). The client of etcd
-- (crates/cmx-agent/src/metadata.rs) registers the node under a lease and publishes the locations of
-- blocks; two watches of etcd, side by side in one task, keep the index of remote blocks and the ring.
--
-- Which file models which part:
--   Memory/Pool.antt, Memory/Bytes.antt        crates/cmx-memory/src/pool.rs
--   Memory/Numa.antt, Memory/Gpu.antt          crates/cmx-memory/src/{numa,gpu}.rs
--   BlockStore/Block.antt                      crates/cmx-block-store/src/block.rs
--   BlockStore/Allocator.antt                  crates/cmx-block-store/src/allocator.rs
--   BlockStore/Eviction.antt                   crates/cmx-block-store/src/eviction.rs
--   BlockStore/Index.antt                      crates/cmx-block-store/src/index.rs
--   Agent/Service.antt, Agent/Grpc.antt        crates/cmx-agent/src/grpc.rs, crates/cmx-agent/src/state.rs
--   Agent/Start.antt, Agent/Main.antt          crates/cmx-agent/src/main.rs
--   Agent/Metadata.antt, Agent/Watch.antt      crates/cmx-agent/src/metadata.rs, its calls and its tasks
--   Agent/Placement.antt                       crates/cmx-agent/src/placement.rs
--   Agent/RemoteIndex.antt                     crates/cmx-agent/src/remote_index.rs
--   Agent/Pressure.antt                        crates/cmx-agent/src/pressure.rs
--   Agent/Config.antt                          crates/cmx-agent/src/config.rs
--   Transport/Traits.antt, Mock, Nixl, Pool    crates/cmx-transport/src/{traits,mock,nixl,pool}.rs
--   Agent/Sessions.antt                        sequences of requests to crates/cmx-agent/src/grpc.rs
--   Agent/Threads.antt                         its handlers on several threads at the same time
-- The files below each of these hold its proofs, Base.antt and its children what all share, and
-- Tests.antt and its children concrete runs.
--
-- Functions keep the names of the code. `LruPolicy::remove` is `discard`, the handler `get` stands in
-- Agent/Grpc/Fetch.antt with the task that it spawns, and the parts of a long function have names of
-- their own. A method of an object behind a mutex, an atomic or a concurrent map is one step, a
-- function from the old state to the new. A panic is `none` where nothing is left to say of the state,
-- and `Outcome.panic` where it is. Integers are natural numbers with their wrap-around written out,
-- and `usize` has 64 bits. Mapped memory is a function from addresses, relative to the start of the
-- mapping, to bytes.
--
-- The handlers of the service are steps of sequences of requests (Agent/Sessions.antt), and the task that
-- `get` spawns may read after further requests (Agent/Sessions/Pending.antt). On several threads one
-- step is one call of the allocator or of the map of the index (Agent/Threads.antt), and
-- Agent/Threads/Alone.antt compares these steps with `store` and `delete`. The two watches are a step
-- relation (Agent/Watch/Runs.antt): a response of the blocks is one step, an event of the nodes is one
-- or, when a node leaves, two, since the task then waits for the lock of the ring.
--
-- Parameters stand for other crates: the checksum of crc32fast, SHA-256 of sha2, `hex::encode`, the
-- concurrent map of dashmap (Base/DashMap.antt, an interface with laws that association lists meet),
-- `f64` (Agent/Floats.antt), the test that a text is a socket address, and what mmap returns; etcd
-- (Agent/Etcd.antt), serde_json and hex (Agent/Codecs.antt), interfaces whose laws are that a read
-- right after a write sees it and that what was written can be read back. The standard library's
-- HashMap is an association list, and its BTreeMap a sorted one; `from_utf8_lossy`,
-- `trim_start_matches`, `trim` and `parse::<i32>` are functions on bytes (Base/Utf8.antt,
-- Base/Affix.antt, Base/Trim.antt).
--
-- Fuel: the eviction loop of the index runs on fuel, and `make_room` gives it one round for each entry
-- and one more, since each round but the last drops an entry. The messages that a receiver of `get`
-- takes are bounded by an argument, since the receiver may go away. The decimal digits of a number
-- run on fuel that is larger than the number. A text is trimmed on fuel of its length, since each
-- round strips a byte at least. The loops over the streams of etcd run on the messages that have
-- arrived, whose steps Agent/Watch/Ends.antt counts.
--
-- Not modelled: the command line, the gRPC server, signals, metrics and logs, timers, reading a TOML
-- file (a parameter), benchmarks, deployment and the Python clients. The TLS and transport
-- settings are read by no code. In sequences of requests each handler runs whole, except for
-- the task of `get`; interleavings of calls within `store` and `delete` are in Agent/Threads.antt.
-- There the locks and the eviction loop are no part of a thread's task, so that waiting for a lock is
-- not modelled. Running out of memory aborts the code and is not modelled either; of
-- `Vec::with_capacity` only the panic above `isize::MAX` bytes is.
pub mod Base
pub mod Memory
pub mod BlockStore
pub mod Agent
pub mod Transport
pub mod Tests
