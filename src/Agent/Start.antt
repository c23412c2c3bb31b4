-- ===== src/Agent/Start.antt =====
-- How an agent starts: `CacheService::new` of crates/cmx-agent/src/grpc.rs, and the part of
-- crates/cmx-agent/src/main.rs that builds the allocator, the index and the state.
use cmx_rdma.Base.{◌/◌, ◌≤◌, ◌≡◌, Bool, Option, some, [], arith, bytes_eq, Bytes}
use cmx_rdma.Memory.Pool.{MemoryPool}
use cmx_rdma.Memory.Pool.Ownership.{Owns}
use cmx_rdma.BlockStore.Block.{header_size}
use cmx_rdma.BlockStore.Allocator
use cmx_rdma.BlockStore.Allocator.{BlockAllocator}
use cmx_rdma.BlockStore.Index
use cmx_rdma.BlockStore.Index.{BlockIndex, IndexEntry}
use cmx_rdma.BlockStore.Index.Refines.{new-IsIndex}
use cmx_rdma.Agent.Config.{MemorySection}
use cmx_rdma.Agent.Floats.{Floats}
use cmx_rdma.Agent.Crates.{Crates}
use cmx_rdma.Agent.Placement.{HashRing}
use cmx_rdma.Agent.Service.{Service}
use cmx_rdma.Agent.Grpc.Serving.{IsService}

module _ (c : Crates) where
  unfoldable pub new_service :
      BlockAllocator
      → BlockIndex c.entries
      → (node_id : Bytes) → (metadata : Bool) → Option c.remotes.Map
      → Option HashRing
      → Service c
  new_service allocator index node_id metadata remote_index hash_ring = record {
    allocator = allocator;
    index = index;
    node_id = node_id;
    metadata = metadata;
    published = [];
    pressure_level = 0;
    remote_index = remote_index;
    hash_ring = hash_ring;
    cache_hits = 0;
    cache_misses = 0;
    evictions = 0;
  }

  -- The state that `main` builds on a pool; `hash_ring` is the ring once the node has added itself.
  unfoldable pub start :
      {F : Floats}
      → MemoryPool
      → MemorySection F
      → (node_id : Bytes) → (metadata : Bool) → HashRing
      → Service c
  unfolding new_service Allocator.new Index.new
  start pool memory node_id metadata hash_ring =
      let max_entries = memory.total_size / memory.block_size in
      new_service (Allocator.new pool 0) (Index.new c.entries max_entries) node_id metadata
        (some c.remotes.empty) (some hash_ring)

  -- An agent that starts on a pool of which every block is free, whose blocks have room for a header
  -- and that is the first pool of the process, satisfies the invariant with nothing stored.
  pub start-IsService :
      {F : Floats} (pool : MemoryPool) (memory : MemorySection F) (node_id : Bytes)
      (metadata : Bool) (hash_ring : HashRing)
      → Owns pool []
      → header_size ≤ pool.block_size
      → pool.pool_id ≡ 0
      → IsService c (start pool memory node_id metadata hash_ring) [] []
  unfolding start new_service Allocator.new Index.new
  start-IsService pool memory node_id metadata hash_ring o room first = record {
    allocator = record { owns = o; room = room; counter = omega arith };
    index = new-IsIndex c.entries (memory.total_size / memory.block_size);
    first_pool = first;
    backed = λ k e at. absurd (ground (arith, c.entries.get-empty k));
    apart = λ k j e f at at' h. absurd (ground (arith, c.entries.get-empty k));
  }
