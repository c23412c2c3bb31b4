-- ===== src/Memory/Pool.antt =====
-- The slab pool, crates/cmx-memory/src/pool.rs. `usize` has 64 bits. The free list is a stack with
-- its top first, and a call that holds its mutex is one step. `none` is a failed assertion.
pub mod Ownership
use cmx_rdma.Base.{
  ℕ, zero, suc, ◌+◌, ◌-◌, ◌*◌, ◌/◌, ◌%◌, ◌^◌, Option, none, some, List, [], ◌∷◌, ◌||◌, ◌==◌, ltb,
  leb, not, if◌then◌else◌, ◌>>=◌, length, Bytes,
}
use cmx_rdma.Memory.Bytes.{Region, read_bytes, write_bytes}

abbrev pub u32 : ℕ
u32 = 2 ^ 32

abbrev pub u64 : ℕ
u64 = 2 ^ 64

pub data PoolError : Type 0 where
  mmap_failed : PoolError
  invalid_size : (total_size block_size : ℕ) → PoolError
  zero_block_size : PoolError

pub data Created (A : Type 0) : Type 0 where
  ok : A → Created A
  err : PoolError → Created A

pub record PoolStats : Type 0 where
  pub total_blocks : ℕ
  pub used_blocks : ℕ
  pub free_blocks : ℕ
  pub total_bytes : ℕ
  pub used_bytes : ℕ

pub record BlockHandle : Type 0 where
  pub pool_id : ℕ
  pub block_index : ℕ
  pub offset : ℕ
  pub size : ℕ

-- `region` is what `base_ptr` points to.
pub record MemoryPool : Type 0 where
  pub pool_id : ℕ
  pub region : Region
  pub total_size : ℕ
  pub block_size : ℕ
  pub total_blocks : ℕ
  pub free_list : List ℕ

-- `(0..n).collect()`, with the last index on top of the stack
unfoldable pub range_down : ℕ → List ℕ
range_down zero = []
range_down (suc n) = n ∷ range_down n

-- `next_pool_id` is the global counter, and `mapped` what `mmap` returns; a failed `mlock` is only
-- logged. The counter's new value comes back beside the pool.
unfoldable pub new : ℕ → Option Region → (total_size block_size : ℕ) → Created (MemoryPool × ℕ)
unfolding range_down
new next_pool_id mapped total_size block_size =
    if block_size == 0
    then err zero_block_size
    else if (total_size == 0) || not (total_size % block_size == 0)
    then err (invalid_size total_size block_size)
    else elim mapped [
      | none ↦ err mmap_failed
      | some region ↦ ok (
        record {
          pool_id = next_pool_id;
          region = region;
          total_size = total_size;
          block_size = block_size;
          total_blocks = total_size / block_size;
          free_list = range_down (total_size / block_size);
        },
        (next_pool_id + 1) % u32,
      )
    ]

unfoldable pub allocate : MemoryPool → Option BlockHandle × MemoryPool
allocate p = elim p.free_list [
  | [] ↦ (none, p)
  | block_index ∷ rest ↦ (
    some (record {
      pool_id = p.pool_id;
      block_index = block_index % u32;
      offset = (block_index * p.block_size) % u64;
      size = p.block_size;
    }),
    record p { free_list = rest },
  )
]

unfoldable pub deallocate : BlockHandle → MemoryPool → Option MemoryPool
deallocate handle p =
    if handle.pool_id == p.pool_id
    then if ltb handle.block_index p.total_blocks
      then some (record p { free_list = handle.block_index ∷ p.free_list })
      else none
    else none

-- The address of a block, relative to `base_ptr`.
unfoldable pub get_ptr : BlockHandle → MemoryPool → Option ℕ
get_ptr handle p = if handle.pool_id == p.pool_id then some handle.offset else none

unfoldable pub get_slice : BlockHandle → MemoryPool → Option Bytes
unfolding get_ptr read_bytes
get_slice handle p = do ptr ← get_ptr handle p; some (read_bytes p.region ptr p.block_size)

-- `get_slice_mut(handle)[at..at + bs.len()].copy_from_slice(bs)`; the range is checked.
unfoldable pub write_slice : BlockHandle → ℕ → Bytes → MemoryPool → Option MemoryPool
unfolding get_ptr write_bytes
write_slice handle at bs p = do
  ptr ← get_ptr handle p
  if leb (at + length bs) p.block_size
      then some (record p { region = write_bytes p.region (ptr + at) bs })
      else none

unfoldable pub stats : MemoryPool → PoolStats
stats p =
    let free_blocks = length p.free_list in
    let used_blocks = p.total_blocks - free_blocks in
    record {
      total_blocks = p.total_blocks;
      used_blocks = used_blocks;
      free_blocks = free_blocks;
      total_bytes = p.total_size;
      used_bytes = used_blocks * p.block_size;
    }

-- The start, relative to `base_ptr`, and the size of what `munmap` is given; that it fails is only
-- logged.
unfoldable pub drop : MemoryPool → ℕ × ℕ
drop p = (0, p.total_size)
