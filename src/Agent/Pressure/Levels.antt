-- ===== src/Agent/Pressure/Levels.antt =====
-- What the pressure level says of the pool, and what it does to `store`.
use cmx_rdma.Base.{◌≤◌, ◌≡◌, true, arith}
use cmx_rdma.BlockStore.Allocator
use cmx_rdma.BlockStore.Allocator.{BlockAllocator}
use cmx_rdma.Agent.Crates.{Crates}
use cmx_rdma.Agent.Floats.{Floats}
use cmx_rdma.Agent.Service.{Service}
use cmx_rdma.Agent.Pressure.{Thresholds, level}

module _ (F : Floats) where
  -- A higher usage never has a lower level.
  pub level_monotone :
      (t : Thresholds F) (u w : F.Float) → F.ge w u ≡ true → level F t u ≤ level F t w
  unfolding level
  level_monotone t u w h =
      ground
        (arith, F.ge_trans w u t.reject h, F.ge_trans w u t.critical h, F.ge_trans w u t.warn h)
