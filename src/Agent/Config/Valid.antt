-- ===== src/Agent/Config/Valid.antt =====
-- What a valid configuration gives the rest of the program.
use cmx_rdma.Base.{ℕ, ◌+◌, ◌/◌, ◌%◌, ◌≤◌, ◌<◌, ◌≡◌, ◌↔◌, Bool, true, false, some, [], arith, Bytes}
use cmx_rdma.Memory.Bytes.{Region}
use cmx_rdma.Memory.Pool
use cmx_rdma.Memory.Pool.{u32, u64, MemoryPool}
use cmx_rdma.Memory.Pool.Ownership.{Owns, new-Owns}
use cmx_rdma.Agent.Floats.{Floats}
use cmx_rdma.Agent.Config.{AgentConfig, validate, default_config, outside_unit}

module _ (F : Floats) (is_socket_addr : Bytes → Bool) where
  -- The conditions that the error messages name.
  pub record IsValid (config : AgentConfig F) : Type 0 where
    pub block_size : 0 < config.memory.block_size
    pub total_size : 0 < config.memory.total_size
    pub divisible : config.memory.total_size % config.memory.block_size ≡ 0
    pub warn_low : F.ge config.memory.pressure_warn (F.hundredths 0) ≡ true
    pub warn_high : F.ge (F.hundredths 100) config.memory.pressure_warn ≡ true
    pub critical_low : F.ge config.memory.pressure_critical (F.hundredths 0) ≡ true
    pub critical_high : F.ge (F.hundredths 100) config.memory.pressure_critical ≡ true
    pub reject_low : F.ge config.memory.pressure_reject (F.hundredths 0) ≡ true
    pub reject_high : F.ge (F.hundredths 100) config.memory.pressure_reject ≡ true
    pub warn_critical : F.ge config.memory.pressure_warn config.memory.pressure_critical ≡ false
    pub critical_reject : F.ge config.memory.pressure_critical config.memory.pressure_reject ≡ false
    pub listen_addr : is_socket_addr config.agent.listen_addr ≡ true

  -- `validate` reports no error exactly when all the conditions hold.
  pub validate_iff :
      (config : AgentConfig F) → (validate F is_socket_addr config ≡ []) ↔ IsValid config
  unfolding validate outside_unit
  validate_iff config = (λ h. ground arith, λ v. ground arith)

  -- With a valid configuration below 2^64 bytes and of at most 2^32 blocks, and a mapping that
  -- succeeds, the pool is created with all its blocks free.
  pub pool_of_valid :
      (config : AgentConfig F) (id : ℕ) (region : Region)
      → validate F is_socket_addr config ≡ []
      → config.memory.total_size < u64
      → config.memory.total_size / config.memory.block_size ≤ u32
      → (p : MemoryPool) × (Pool.new id
            (some region)
            config.memory.total_size
            config.memory.block_size
          ≡ Pool.ok (p, (id + 1) % u32))
        × Owns p []
        × (p.total_blocks ≡ config.memory.total_size / config.memory.block_size)
  pool_of_valid config id region h small few =
      let v = (validate_iff config).0 h in
      let m = config.memory in
      let (p, created, o, _, _, _, blocks) =
        new-Owns id region m.total_size m.block_size v.block_size v.total_size v.divisible small
          few in
      (p, created, o, blocks)

  -- The defaults are valid, if their listen address is an address.
  pub default_config-valid :
      is_socket_addr (default_config F).agent.listen_addr ≡ true
      → validate F is_socket_addr (default_config F) ≡ []
  unfolding default_config validate outside_unit
  default_config-valid h = ground (
    arith,
    F.ge-hundredths 75 0 (omega arith) (omega arith),
    F.ge-hundredths 90 0 (omega arith) (omega arith),
    F.ge-hundredths 95 0 (omega arith) (omega arith),
    F.ge-hundredths 100 75 (omega arith) (omega arith),
    F.ge-hundredths 100 90 (omega arith) (omega arith),
    F.ge-hundredths 100 95 (omega arith) (omega arith),
    F.ge-hundredths 75 90 (omega arith) (omega arith),
    F.ge-hundredths 90 95 (omega arith) (omega arith),
  )
