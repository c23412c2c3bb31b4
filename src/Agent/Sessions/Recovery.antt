-- ===== src/Agent/Sessions/Recovery.antt =====
-- How the cache of crates/cmx-agent/src/grpc.rs gets room again.
use cmx_rdma.Base.{
  ℕ, ◌+◌, ◌≤◌, ◌<◌, ◌≡◌, true, some, List, [], ◌∷◌, arith, erase, length-erase, bytes_eq, nat_eq,
  length, Bytes,
}
use cmx_rdma.Base.Outcome.{done}
use cmx_rdma.Memory.Pool.{u32}
use cmx_rdma.BlockStore.Block.{header_size}
use cmx_rdma.BlockStore.Index.{IndexEntry}
use cmx_rdma.Agent.Crates.{Key, Crates}
use cmx_rdma.Agent.Service.{ok, Service, composite_key}
use cmx_rdma.Agent.Grpc.Store.{StoreHeader, Message, header, collect_chunks, isize_max, store}
use cmx_rdma.Agent.Grpc.Admin.{delete}
use cmx_rdma.Agent.Grpc.Serving.{entry_at, IsService, Serves}
use cmx_rdma.Agent.Grpc.Storing.{store-Stored}
use cmx_rdma.Agent.Grpc.Deleting.{delete-Deleted}

-- From a state that satisfies the invariant, below the reject level, even when no block is free: the
-- deletion of a hash of 16 bytes under which the index has an entry succeeds, and then a stream of a
-- header whose prefix hash has 16 bytes and chunks that together fit a block is stored and its data served.
pub store-delete :
    (c : Crates) (s : Service c) (ks : List Key) (live : List ℕ) (hash : Key) (e : IndexEntry)
    (now : ℕ) (h : StoreHeader) (rest : List Message) (payload : Bytes)
    → IsService c s ks live
    → entry_at c hash s ≡ some e
    → length hash ≡ 16
    → s.pressure_level < 3
    → length h.prefix_hash ≡ 16
    → h.total_size ≤ isize_max
    → collect_chunks [] rest ≡ ok payload
    → length payload < u32
    → header_size + length payload ≤ s.allocator.pool.block_size
    → (s₁ : Service c) × (s₂ : Service c) × (delete c hash s
        ≡ done (ok (record { success = true; blocks_freed = 1 })) s₁)
      × (store c now (header h ∷ rest) s₁
          ≡ done (ok (record { success = true; generation_id = s₁.allocator.generation })) s₂)
      × Serves c s₂ (composite_key c.sha256 h.model_id h.prefix_hash) payload
store-delete c s ks live hash e now h rest payload v found long calm sixteen modest collected short
      fits =
    let (i, s₁, gone, held, after) = delete-Deleted c s ks live v hash e found long in
    let spare : length (erase i live) < s₁.allocator.pool.total_blocks =
      omega (arith, length-erase i live held, v.allocator.owns.counted, after.same_total) in
    let (j, s₂, stored, there) =
      store-Stored c s₁ (erase hash ks) (erase i live) after.service payload now h rest
        (omega (arith, after.level)) sixteen modest collected short (omega (arith, after.same_size))
        spare in
    (s₁, s₂, gone, stored, there.serves)
