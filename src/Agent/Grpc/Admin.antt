-- ===== src/Agent/Grpc/Admin.antt =====
-- `delete`, `stats` and `health` of crates/cmx-agent/src/grpc.rs.
use cmx_rdma.Base.{
  ℕ, Bool, true, false, Option, none, some, List, [], ◌∷◌, ltb, length, bytes_eq, Bytes,
}
use cmx_rdma.Base.Outcome.{Outcome, done, panic}
use cmx_rdma.BlockStore.Block
use cmx_rdma.BlockStore.Allocator
use cmx_rdma.BlockStore.Allocator.{BlockAllocator}
use cmx_rdma.BlockStore.Index
use cmx_rdma.BlockStore.Index.{IndexEntry}
use cmx_rdma.Agent.Crates.{Crates}
use cmx_rdma.Agent.Service.{Reply, ok, err, Service, parse_prefix_hash}
use cmx_rdma.Agent.Grpc.Store.{pressure_reject}
use cmx_rdma.Agent.Grpc.Fetch.{handle_of}

pub record DeleteResponse : Type 0 where
  pub success : Bool
  pub blocks_freed : ℕ

pub record StatsResponse : Type 0 where
  pub total_blocks : ℕ
  pub used_blocks : ℕ
  pub cache_hits : ℕ
  pub cache_misses : ℕ
  pub evictions : ℕ
  pub memory_used_bytes : ℕ
  pub memory_total_bytes : ℕ

-- `version` and `uptime_seconds` come from the build and the clock.
pub record HealthResponse : Type 0 where
  pub healthy : Bool
  pub node_id : Bytes
  pub version : Bytes
  pub uptime_seconds : ℕ

-- The loop that gives the blocks of an entry back.
unfoldable pub free_blocks :
    List Block.BlockLocation → BlockAllocator → Outcome BlockAllocator (Unit {0})
unfolding Allocator.deallocate handle_of
free_blocks [] a = done tt a
free_blocks (loc ∷ rest) a = elim (Allocator.deallocate (handle_of loc) a) [
  | panic a' ↦ panic a'
  | done _ a' ↦ free_blocks rest a'
]

module _ (c : Crates) where
  unfoldable pub answer_delete :
      Option IndexEntry → Service c → Outcome (Service c) (Reply DeleteResponse)
  unfolding free_blocks
  answer_delete none s = done (ok (record { success = false; blocks_freed = 0 })) s
  answer_delete (some entry) s = elim (free_blocks entry.blocks s.allocator) [
    | panic a ↦ panic (record s { allocator = a })
    | done _ a ↦
        done (ok (record { success = true; blocks_freed = length entry.blocks }))
          (record s { allocator = a })
  ]

  -- The request has a prefix hash and no model.
  unfoldable pub delete : Bytes → Service c → Outcome (Service c) (Reply DeleteResponse)
  unfolding parse_prefix_hash Index.remove answer_delete
  delete raw_hash s = elim (parse_prefix_hash raw_hash) [
    | err status ↦ done (err status) s
    | ok prefix_hash ↦ elim (Index.remove c.entries prefix_hash s.index) [
      | none ↦ panic s
      | some (found, index) ↦ answer_delete found (record s { index = index })
    ]
  ]

  unfoldable pub stats : Service c → StatsResponse
  unfolding Allocator.stats
  stats s =
      let pool_stats = Allocator.stats s.allocator in
      record {
        total_blocks = pool_stats.total_blocks;
        used_blocks = pool_stats.used_blocks;
        cache_hits = s.cache_hits;
        cache_misses = s.cache_misses;
        evictions = s.evictions;
        memory_used_bytes = pool_stats.used_bytes;
        memory_total_bytes = pool_stats.total_bytes;
      }

  unfoldable pub health : (version : Bytes) → (uptime : ℕ) → Service c → HealthResponse
  health version uptime s = record {
    healthy = ltb s.pressure_level pressure_reject;
    node_id = s.node_id;
    version = version;
    uptime_seconds = uptime;
  }
