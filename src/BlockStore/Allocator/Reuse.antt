-- ===== src/BlockStore/Allocator/Reuse.antt =====
-- What a handle reads once its block was given back, crates/cmx-block-store/src/allocator.rs.
use cmx_rdma.Base.{
  ℕ, ◌+◌, ◌≤◌, ◌<◌, ◌≡◌, ap, ◌∙◌, sym, true, some, List, ◌∷◌, arith, has, erase, nat_eq, length,
  length-erase, Bytes,
}
use cmx_rdma.Base.Outcome.{done}
use cmx_rdma.Memory.Pool.{u32}
use cmx_rdma.Memory.Pool.Ownership.{issued, deallocate-Owns}
use cmx_rdma.BlockStore.Block.{header_size}
use cmx_rdma.BlockStore.Allocator.{BlockAllocator, allocate_and_write, deallocate, read_verified}
use cmx_rdma.BlockStore.Allocator.Integrity.{IsAllocator, located, allocate_and_write_lem}

-- The state once a block was given back.
abbrev pub released : ℕ → BlockAllocator → BlockAllocator
released i s = record s { pool = record s.pool { free_list = i ∷ s.pool.free_list } }

module _ (crc : Bytes → ℕ) (padding : Bytes) (four : length padding ≡ 4) (s : BlockAllocator)
    (live : List ℕ) (i : ℕ) (a : IsAllocator s live) (held : has i live ≡ true)
    (payload : Bytes) where
  -- From a state that satisfies the invariant, the block of a handle that is given back is the next one
  -- to be written. If the data fits behind a header, its length and checksum are below 2^32 and the
  -- padding has four bytes, the write succeeds, and the old handle then reads the new data as intact,
  -- though the new location has another generation than an old location of the block.
  pub read_verified-deallocate :
      crc payload < u32
      → length payload < u32
      → header_size + length payload ≤ s.pool.block_size
      → (s' : BlockAllocator) × (deallocate (issued s.pool i) s ≡ done tt (released i s))
        × (allocate_and_write crc padding payload (released i s)
            ≡ done (some (located s i, issued s.pool i)) s')
        × (read_verified crc (issued s.pool i) s' ≡ some (some payload))
  unfolding deallocate
  read_verified-deallocate small short fits =
      let (given, o) = deallocate-Owns s.pool live a.owns i held in
      let a' : IsAllocator (released i s) (erase i live) = record {
        owns = o;
        room = a.room;
        counter = a.counter;
      } in
      let spare : length (erase i live) < s.pool.total_blocks =
        omega (arith, length-erase i live held, a.owns.counted) in
      let (j, s', wrote, w) =
        allocate_and_write_lem crc padding four (released i s) (erase i live) a' payload small short
          fits spare in
      let same_block : j ≡ i = ground (arith, w.top) in
      (
        s',
        rw (given, deallocate),
        wrote ∙ ap (λ n. done (some (located s n, issued s.pool n)) s') same_block,
        sym (ap (λ n. read_verified crc (issued s.pool n) s') same_block) ∙ w.intact,
      )
