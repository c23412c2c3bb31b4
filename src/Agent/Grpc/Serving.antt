-- ===== src/Agent/Grpc/Serving.antt =====
-- The invariant of the service behind crates/cmx-agent/src/grpc.rs: each entry of the index owns one
-- block of the pool.
use cmx_rdma.Base.{
  ℕ, ◌≡◌, ◌≢◌, ◌⊎◌, inl, inr, true, Option, some, List, [], ◌∷◌, arith, Bool-cases, same, has,
  nat_eq, bytes_eq, Bytes,
}
use cmx_rdma.Memory.Pool.Ownership.{issued}
use cmx_rdma.BlockStore.Block
use cmx_rdma.BlockStore.Allocator.{BlockAllocator, read_verified}
use cmx_rdma.BlockStore.Allocator.Integrity.{IsAllocator}
use cmx_rdma.BlockStore.Index.{IndexEntry}
use cmx_rdma.BlockStore.Index.Evict.{IsIndex}
use cmx_rdma.BlockStore.Index.Refines.{Inserted, dropped}
use cmx_rdma.Agent.Crates.{Key, Crates}
use cmx_rdma.Agent.Service.{Service}
use cmx_rdma.Agent.Grpc.Fetch.{handle_of}

-- The entry has one block, which is held, and the handle that is rebuilt from its location is the
-- one that the pool issued.
pub record Backed (a : BlockAllocator) (live : List ℕ) (entry : IndexEntry) : Type 0 where
  pub loc : Block.BlockLocation
  pub single : entry.blocks ≡ loc ∷ []
  pub handle : handle_of loc ≡ issued a.pool loc.block_index
  pub held : has loc.block_index live ≡ true

abbrev pub first_block : List Block.BlockLocation → ℕ
first_block [] = 0
first_block (loc ∷ _) = loc.block_index

module _ (c : Crates) where
  abbrev pub entry_at : Key → Service c → Option IndexEntry
  entry_at k s = c.entries.get k s.index.map

  -- `ks` are the keys of the index, the most recently used first, and `live` the blocks that are held.
  pub record IsService (s : Service c) (ks : List Key) (live : List ℕ) : Type 0 where
    pub allocator : IsAllocator s.allocator live
    pub index : IsIndex c.entries s.index ks
    pub first_pool : s.allocator.pool.pool_id ≡ 0
    pub backed : (k : Key) (e : IndexEntry) → entry_at k s ≡ some e → Backed s.allocator live e
    pub apart :
        (k j : Key) (e f : IndexEntry)
        → entry_at k s ≡ some e
        → entry_at j s ≡ some f
        → first_block e.blocks ≡ first_block f.blocks
        → k ≡ j

  -- The service holds `payload` under a key.
  pub record Serves (s : Service c) (k : Key) (payload : Bytes) : Type 0 where
    pub entry : IndexEntry
    pub loc : Block.BlockLocation
    pub found : entry_at k s ≡ some entry
    pub single : entry.blocks ≡ loc ∷ []
    pub intact : read_verified c.crc (handle_of loc) s.allocator ≡ some (some payload)

  -- The three cases of an entry after an insertion.
  pub entry-cases :
      (s s' : Service c) (ks : List Key) (k : Key) (new : IndexEntry)
      → Inserted c.entries s.index s'.index ks k new
      → (j : Key) (e : IndexEntry) → entry_at j s' ≡ some e
      → ((k ≡ j) × (new ≡ e)) ⊎ ((k ≢ j) × (entry_at j s ≡ some e))
  entry-cases s s' ks k new ins j e at = elim (Bool-cases (same k j)) [
    | inl yes' ↦ inl (ground (arith, ins.get j), ground (arith, ins.get j))
    | inr no' ↦ elim (Bool-cases (has j (dropped c.entries s.index k ks))) [
      | inl gone ↦ absurd (ground (arith, ins.get j))
      | inr stays ↦ inr ((λ h. ground arith), ground (arith, ins.get j))
    ]
  ]
