-- ===== src/Tests/BlockRuns.antt =====
-- Runs of the block headers and of the block allocator.
use cmx_rdma.Base.{ℕ, ◌≡◌, refl, some, [], ◌∷◌, ◌++◌, arith, nat_eq}
use cmx_rdma.Base.Outcome.{done}
use cmx_rdma.Memory.Pool.Ownership.{issued}
use cmx_rdma.BlockStore.Block.{BlockHeader, write_to, read_from}
use cmx_rdma.BlockStore.Block.Layout.{read_from-write_to}
use cmx_rdma.BlockStore.Allocator.{BlockAllocator, allocate_and_write, deallocate, read_verified}
use cmx_rdma.BlockStore.Allocator.Integrity.{located, Written, allocate_and_write_lem}
use cmx_rdma.BlockStore.Allocator.Reuse.{released, read_verified-deallocate}
use cmx_rdma.Tests.Data.{
  block_1_held, sum_crc, four_zeros, half_allocator, half_allocator-IsAllocator,
}

abbrev a_header : BlockHeader
a_header = record { crc32 = 294; generation = 300; data_size = 3; reserved = 0 }

read_from-write_to_example : read_from (write_to four_zeros a_header ++ 7 ∷ []) ≡ some a_header
read_from-write_to_example = read_from-write_to four_zeros a_header (7 ∷ []) refl (record {
  crc32 = omega arith;
  generation = omega arith;
  data_size = omega arith;
  reserved = omega arith;
})

allocate_and_write_lem_example :
    (i : ℕ) × (s' : BlockAllocator) × (allocate_and_write sum_crc four_zeros
        (97 ∷ 98 ∷ 99 ∷ [])
        half_allocator
      ≡ done (some (located half_allocator i, issued half_allocator.pool i)) s')
    × Written sum_crc (97 ∷ 98 ∷ 99 ∷ []) i (1 ∷ []) half_allocator s'
allocate_and_write_lem_example =
    allocate_and_write_lem sum_crc four_zeros refl half_allocator (1 ∷ [])
      half_allocator-IsAllocator (97 ∷ 98 ∷ 99 ∷ []) (omega arith) (omega arith) (omega arith)
      (omega arith)

read_verified-deallocate_example :
    (s' : BlockAllocator) × (deallocate (issued half_allocator.pool 1) half_allocator
      ≡ done tt (released 1 half_allocator))
    × (allocate_and_write sum_crc four_zeros (97 ∷ 98 ∷ []) (released 1 half_allocator)
        ≡ done (some (located half_allocator 1, issued half_allocator.pool 1)) s')
    × (read_verified sum_crc (issued half_allocator.pool 1) s' ≡ some (some (97 ∷ 98 ∷ [])))
read_verified-deallocate_example =
    read_verified-deallocate sum_crc four_zeros refl half_allocator (1 ∷ []) 1
      half_allocator-IsAllocator block_1_held (97 ∷ 98 ∷ []) (omega arith) (omega arith)
      (omega arith)
