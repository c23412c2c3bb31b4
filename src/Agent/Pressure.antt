-- ===== src/Agent/Pressure.antt =====
-- The pressure monitor, crates/cmx-agent/src/pressure.rs: what one tick stores in the pressure level.
pub mod Levels
use cmx_rdma.Base.{ℕ, ltb, if◌then◌else◌}
use cmx_rdma.Memory.Pool.{PoolStats}
use cmx_rdma.BlockStore.Allocator
use cmx_rdma.BlockStore.Allocator.{BlockAllocator}
use cmx_rdma.Agent.Crates.{Crates}
use cmx_rdma.Agent.Floats.{Floats}
use cmx_rdma.Agent.Service.{Service}

abbrev pub pressure_normal : ℕ
pressure_normal = 0

abbrev pub pressure_warn : ℕ
pressure_warn = 1

abbrev pub pressure_critical : ℕ
pressure_critical = 2

abbrev pub pressure_reject : ℕ
pressure_reject = 3

module _ (F : Floats) where
  pub record Thresholds : Type 0 where
    pub warn : F.Float
    pub critical : F.Float
    pub reject : F.Float

  unfoldable pub usage : PoolStats → F.Float
  usage stats =
      if ltb 0 stats.total_blocks
      then F.ratio stats.used_blocks stats.total_blocks
      else F.hundredths 0

  unfoldable pub level : Thresholds → F.Float → ℕ
  level t u =
      if F.ge u t.reject
      then pressure_reject
      else if F.ge u t.critical
      then pressure_critical
      else if F.ge u t.warn
      then pressure_warn
      else pressure_normal

  -- One tick: the level is swapped for the one of the current usage.
  unfoldable pub tick : {c : Crates} → Thresholds → Service c → Service c
  unfolding Allocator.stats usage level
  tick t s = record s { pressure_level = level t (usage (Allocator.stats s.allocator)) }
