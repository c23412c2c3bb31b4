-- ===== src/BlockStore/Allocator/Integrity.antt =====
-- Data that was written is read back, and the blocks of others are left alone.
use cmx_rdma.Base.{
  head?, dec_lt, ℕ, ◌+◌, ◌-◌, ◌*◌, ◌%◌, ◌≤◌, ◌<◌, ◌≡◌, ◌≢◌, refl, ap, ◌∙◌, sym, ◌⊎◌, inl, inr, true,
  false, none, some, List, ◌∷◌, arith, Option-cases, has, nat_eq, erase, ltb, length, Bytes,
}
use cmx_rdma.Base.Outcome.{done}
use cmx_rdma.Memory.Bytes.{length-read_bytes, read_bytes}
use cmx_rdma.Memory.Pool
use cmx_rdma.Memory.Pool.{u32, u64, BlockHandle, MemoryPool}
use cmx_rdma.Memory.Pool.Ownership.{
  issued, Owns, allocate-Owns, allocate_exhausted, deallocate-Owns, region-Owns,
}
use cmx_rdma.BlockStore.Block.{BlockHeader, BlockLocation, header_size, verify, read_from}
use cmx_rdma.BlockStore.Allocator.{
  read_from, BlockHeader, verify, BlockAllocator, fill, write_block, allocate_and_write, verified,
  read_verified, deallocate,
}
use cmx_rdma.BlockStore.Allocator.Fill.{
  filled, filled_outside, read-filled, verified-filled, fill-ok,
}

-- The blocks `live` are held, a block has room for a header, and the counter is a `u64`.
pub record IsAllocator (s : BlockAllocator) (live : List ℕ) : Type 0 where
  pub owns : Owns s.pool live
  pub room : header_size ≤ s.pool.block_size
  pub counter : s.generation < u64

-- The location that the allocator reports for a block.
abbrev pub located : BlockAllocator → ℕ → BlockLocation
located s i = record {
  node_id = s.node_id;
  block_index = i;
  offset = i * s.pool.block_size;
  block_size = s.pool.block_size;
  generation = s.generation;
}

-- Blocks with different indices do not overlap.
blocks_apart : (i j b : ℕ) → i ≢ j → (i * b + b ≤ j * b) ⊎ (j * b + b ≤ i * b)
blocks_apart i j b h = elim (dec_lt i j) [
  | yes p ↦ inl (grind arith)
  | no p ↦ inr (let q : j < i = omega arith in grind arith)
]

apart_of_blocks :
    (i j b n : ℕ)
    → i ≢ j
    → header_size + n ≤ b
    → (j * b + b ≤ i * b) ⊎ (i * b + header_size + n ≤ j * b)
apart_of_blocks i j b n h fits = omega (arith, blocks_apart i j b h)

-- What a successful write leaves behind.
pub record Written (crc : Bytes → ℕ) (payload : Bytes) (i : ℕ) (live : List ℕ)
    (s s' : BlockAllocator) : Type 0 where
  pub top : head? s.pool.free_list ≡ some i
  pub fresh : has i live ≡ false
  pub allocator : IsAllocator s' (i ∷ live)
  pub counted : s'.generation ≡ (s.generation + 1) % u64
  pub same_pool : s'.pool.pool_id ≡ s.pool.pool_id
  pub same_size : s'.pool.block_size ≡ s.pool.block_size
  pub same_total : s'.pool.total_blocks ≡ s.pool.total_blocks
  pub intact : read_verified crc (issued s.pool i) s' ≡ some (some payload)
  pub others :
      (j : ℕ)
      → has j live ≡ true
      → read_verified crc (issued s.pool j) s' ≡ read_verified crc (issued s.pool j) s

-- What `read_verified` does with a handle of the pool.
pub read_verified-issued :
    (crc : Bytes → ℕ) (s : BlockAllocator) (i : ℕ)
    → read_verified crc (issued s.pool i) s
      ≡ some (verified crc (read_bytes s.pool.region (i * s.pool.block_size) s.pool.block_size))
unfolding read_verified Pool.get_slice Pool.get_ptr
read_verified-issued crc s i = ground arith

write_block-ok :
    (crc : Bytes → ℕ) (padding payload : Bytes) (handle : BlockHandle) (s : BlockAllocator)
    (pool : MemoryPool)
    → fill crc padding handle s.generation payload s.pool ≡ some pool
    → write_block crc padding payload handle s
      ≡ done
          (some (record (located s handle.block_index) { offset = handle.offset }, handle))
          (record s { pool = pool; generation = (s.generation + 1) % u64 })
unfolding write_block
write_block-ok crc padding payload handle s pool e = rw (e, write_block)

module _ (crc : Bytes → ℕ) (padding : Bytes) (four : length padding ≡ 4) (s : BlockAllocator)
    (live : List ℕ) (a : IsAllocator s live) (payload : Bytes) where
  -- From a state that satisfies the invariant, with a free block, four bytes of padding, a checksum and a
  -- length below 2^32 and data that fits behind a header, `allocate_and_write` succeeds without a
  -- panic and reports the block where it lies and the generation of the counter. The block was held by
  -- nobody and is held now, it reads back as the data, every block that was held reads as before, the
  -- counter goes up by one modulo 2^64, and the invariant holds.
  pub allocate_and_write_lem :
      crc payload < u32
      → length payload < u32
      → header_size + length payload ≤ s.pool.block_size
      → length live < s.pool.total_blocks
      → (i : ℕ) × (s' : BlockAllocator) × (allocate_and_write crc padding payload s
          ≡ done (some (located s i, issued s.pool i)) s')
        × Written crc payload i live s s'
  unfolding allocate_and_write
  allocate_and_write_lem small short fits spare =
      let (i, rest, taken, at_top, fresh, o) = allocate-Owns s.pool live a.owns spare in
      let p₁ = record s.pool { free_list = rest } in
      let at = i * s.pool.block_size in
      let m = filled crc padding four payload s.generation s.pool.region at in
      let s' = record s {
        pool = record p₁ { region = m };
        generation = (s.generation + 1) % u64;
      } in
      let bounded : s.pool.block_size < u64 = grind (arith, a.owns.geometry, a.owns.addressable) in
      let max_data = (s.pool.block_size + u64 - header_size) % u64 in
      let roomy : ltb max_data (length payload) ≡ false = ground (arith, a.room) in
      let (tail, whole) =
        read-filled crc padding four payload s.generation s.pool.region at s.pool.block_size fits in
      let intact =
        verified-filled crc padding four payload s.generation tail small a.counter short in
      (
        i,
        s',
        rw (roomy, taken, taken)
            (write_block-ok crc padding payload (issued s.pool i) (record s { pool = p₁ })
              (record p₁ { region = m }) (fill-ok crc padding four payload s.generation p₁ i fits)),
        record {
          top = ap head? at_top;
          fresh = fresh;
          allocator = record {
            owns = region-Owns p₁ (i ∷ live) o m;
            room = a.room;
            counter = omega arith;
          };
          counted = refl;
          same_pool = refl;
          same_size = refl;
          same_total = refl;
          intact =
              read_verified-issued crc s' i
              ∙ ap (λ bs. some (verified crc bs)) whole
              ∙ ap some intact;
          others = λ j h.
              let other : i ≢ j = λ same. ground arith in
              read_verified-issued crc s' j
              ∙ ap (λ bs. some (verified crc bs))
                  (filled_outside crc padding four payload s.generation s.pool.region at
                    (j * s.pool.block_size) s.pool.block_size
                    (apart_of_blocks i j s.pool.block_size (length payload) other fits))
              ∙ sym (read_verified-issued crc s j);
        },
      )

  -- Data that does not fit behind the header is refused, and nothing changes.
  pub allocate_and_write_too_large :
      s.pool.block_size < header_size + length payload
      → allocate_and_write crc padding payload s ≡ done none s
  unfolding allocate_and_write
  allocate_and_write_too_large h = ground (arith, a.room, a.owns.positive)

  -- On an exhausted pool nothing is written, and nothing changes.
  pub allocate_and_write_exhausted :
      length live ≡ s.pool.total_blocks → allocate_and_write crc padding payload s ≡ done none s
  unfolding allocate_and_write
  allocate_and_write_exhausted h = ground (arith, allocate_exhausted s.pool live a.owns h)

-- From a state that satisfies the invariant, giving back a held block does not panic; it keeps the
-- invariant with the block released, and leaves the bytes, the number and the block size of the pool.
pub deallocate-IsAllocator :
    (s : BlockAllocator) (live : List ℕ) (i : ℕ)
    → IsAllocator s live
    → has i live ≡ true
    → (s' : BlockAllocator) × (deallocate (issued s.pool i) s ≡ done tt s')
      × IsAllocator s' (erase i live)
      × (s'.pool.region ≡ s.pool.region)
      × (s'.pool.pool_id ≡ s.pool.pool_id)
      × (s'.pool.block_size ≡ s.pool.block_size)
unfolding deallocate
deallocate-IsAllocator s live i a h =
    let (given, o) = deallocate-Owns s.pool live a.owns i h in
    (
      record s { pool = record s.pool { free_list = i ∷ s.pool.free_list } },
      rw (given, deallocate),
      record { owns = o; room = a.room; counter = a.counter },
      refl,
      refl,
      refl,
    )

verified_sound :
    (crc : Bytes → ℕ) (bs payload : Bytes)
    → verified crc bs ≡ some payload
    → (h : BlockHeader) × (read_from bs ≡ some h)
      × (crc payload ≡ h.crc32)
      × (header_size + h.data_size ≤ length bs)
unfolding verified verify
verified_sound crc bs payload e = elim (Option-cases (read_from bs)) [
  | inl absent ↦ absurd (ground arith)
  | inr (h, parsed) ↦ (h, parsed, ground arith, ground arith)
]

-- Data comes out of a block only if the block starts with a header, the data lies within the block
-- behind it, and the checksum of the data is the one in the header.
pub read_verified_sound :
    (crc : Bytes → ℕ) (s : BlockAllocator) (i : ℕ) (payload : Bytes)
    → read_verified crc (issued s.pool i) s ≡ some (some payload)
    → (h : BlockHeader) × (read_from
          (read_bytes s.pool.region (i * s.pool.block_size) s.pool.block_size)
        ≡ some h)
      × (crc payload ≡ h.crc32)
      × (header_size + h.data_size ≤ s.pool.block_size)
read_verified_sound crc s i payload e =
    let bs = read_bytes s.pool.region (i * s.pool.block_size) s.pool.block_size in
    let same : verified crc bs ≡ some payload = ground (arith, read_verified-issued crc s i) in
    let (h, parsed, sum, inside) = verified_sound crc bs payload same in
    (
      h,
      parsed,
      sum,
      omega (arith, length-read_bytes s.pool.region (i * s.pool.block_size) s.pool.block_size),
    )
