-- ===== src/Tests/MemoryRuns.antt =====
-- Runs of the memory pool.
use cmx_rdma.Base.{◌+◌, ◌*◌, ◌≤◌, ◌≡◌, [], ◌∷◌, nat_eq}
use cmx_rdma.Memory.Pool.{stats}
use cmx_rdma.Memory.Pool.Ownership.{issued_in_bounds, stats-live}
use cmx_rdma.Tests.Data.{block_1_held, half_pool, half_pool-Owns}

issued_in_bounds_example : 1 * 32 + 32 ≤ 64
issued_in_bounds_example = issued_in_bounds half_pool (1 ∷ []) half_pool-Owns 1 block_1_held

stats-live_example :
    ((stats half_pool).used_blocks ≡ 1)
    × ((stats half_pool).free_blocks + 1 ≡ 2)
    × ((stats half_pool).used_bytes ≤ (stats half_pool).total_bytes)
stats-live_example = stats-live half_pool (1 ∷ []) half_pool-Owns
