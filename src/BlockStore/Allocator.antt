-- ===== src/BlockStore/Allocator.antt =====
-- The block allocator, crates/cmx-block-store/src/allocator.rs, in the release profile: `usize`
-- subtraction wraps, and a slice out of range panics. `crc` is the checksum of `crc32fast`, and
-- `padding` the four bytes that the header's padding holds.
pub mod Fill
pub mod Integrity
pub mod Reuse
use cmx_rdma.Base.{
  ℕ, ◌+◌, ◌-◌, ◌%◌, Bool, true, false, Option, none, some, ◌==◌, ltb, leb, if◌then◌else◌, length,
  take, drop, Bytes,
}
use cmx_rdma.Base.Outcome.{Outcome, done, panic}
use cmx_rdma.Memory.Pool
use cmx_rdma.Memory.Pool.{u64, BlockHandle, MemoryPool, PoolStats}
use cmx_rdma.BlockStore.Block.{
  BlockHeader, BlockLocation, header_size, header_new, verify, write_to, read_from,
}

pub record BlockAllocator : Type 0 where
  pub pool : MemoryPool
  pub node_id : ℕ
  pub generation : ℕ

unfoldable pub new : MemoryPool → ℕ → BlockAllocator
new pool node_id = record { pool = pool; node_id = node_id; generation = 1 }

-- The copies into a block: the header, then the data behind it.
unfoldable pub fill :
    (crc : Bytes → ℕ) (padding : Bytes) → BlockHandle → ℕ → Bytes → MemoryPool → Option MemoryPool
unfolding Pool.write_slice header_new write_to
fill crc padding handle gen payload pool =
    elim (Pool.write_slice handle 0 (write_to padding (header_new crc payload gen)) pool) [
      | none ↦ none
      | some pool' ↦ Pool.write_slice handle header_size payload pool'
    ]

-- What follows the allocation of a block: the counter, the copies, the location.
unfoldable pub write_block :
    (crc : Bytes → ℕ) (padding : Bytes)
    → Bytes
    → BlockHandle
    → BlockAllocator
    → Outcome BlockAllocator (Option (BlockLocation × BlockHandle))
unfolding fill
write_block crc padding payload handle s =
    let gen = s.generation in
    let counted = record s { generation = (gen + 1) % u64 } in
    let location : BlockLocation = record {
      node_id = s.node_id;
      block_index = handle.block_index;
      offset = handle.offset;
      block_size = s.pool.block_size;
      generation = gen;
    } in
    elim (fill crc padding handle gen payload s.pool) [
      | none ↦ panic counted
      | some pool ↦ done (some (location, handle)) (record counted { pool = pool })
    ]

unfoldable pub allocate_and_write :
    (crc : Bytes → ℕ) (padding : Bytes)
    → Bytes
    → BlockAllocator
    → Outcome BlockAllocator (Option (BlockLocation × BlockHandle))
unfolding Pool.allocate write_block
allocate_and_write crc padding payload s =
    let max_data = (s.pool.block_size + u64 - header_size) % u64 in
    if ltb max_data (length payload)
    then done none s
    else let (taken, pool) = Pool.allocate s.pool in
      let s' = record s { pool = pool } in
      elim taken [ none ↦ done none s' | some handle ↦ write_block crc padding payload handle s' ]

-- The checks of `read_verified` on the bytes of the block.
unfoldable pub verified : (crc : Bytes → ℕ) → Bytes → Option Bytes
unfolding read_from verify
verified crc block_slice = elim (read_from block_slice) [
  | none ↦ none
  | some header ↦
      let data_end = header_size + header.data_size in
      let payload = take header.data_size (drop header_size block_slice) in
      if ltb (length block_slice) data_end
      then none
      else if verify crc header payload
      then some payload
      else none
]

-- `none` outside is the failed assertion of `get_ptr`; `none` inside, a block that is not intact.
unfoldable pub read_verified :
    (crc : Bytes → ℕ) → BlockHandle → BlockAllocator → Option (Option Bytes)
unfolding Pool.get_slice verified
read_verified crc handle s = elim (Pool.get_slice handle s.pool) [
  | none ↦ none
  | some block_slice ↦ some (verified crc block_slice)
]

unfoldable pub deallocate : BlockHandle → BlockAllocator → Outcome BlockAllocator (Unit {0})
unfolding Pool.deallocate
deallocate handle s = elim (Pool.deallocate handle s.pool) [
  | none ↦ panic s
  | some pool ↦ done tt (record s { pool = pool })
]

unfoldable pub stats : BlockAllocator → PoolStats
unfolding Pool.stats
stats s = Pool.stats s.pool
