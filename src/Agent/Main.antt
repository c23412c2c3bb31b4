-- ===== src/Agent/Main.antt =====
-- How an agent starts and stops, crates/cmx-agent/src/main.rs, with `load` and `gethostname` of
-- crates/cmx-agent/src/config.rs. The command line, logs and signals are left out; what the system
-- and other crates answer is an argument.
pub mod Started
pub mod Serving
use cmx_rdma.Base.{
  ℕ, ◌==◌, Bool, true, false, not, Option, none, some, List, [], ◌∷◌, ltb, if◌then◌else◌, is_some,
  ◌>>=◌, codes, bytes_eq, Bytes,
}
use cmx_rdma.Base.Utf8.{from_utf8_lossy}
use cmx_rdma.Memory.Bytes.{Region}
use cmx_rdma.Memory.Pool
use cmx_rdma.Memory.Pool.{PoolError, MemoryPool}
use cmx_rdma.Agent.Config.{AgentConfig, ConfigError, default_config, validate, resolve_node_id}
use cmx_rdma.Agent.Floats.{Floats}
use cmx_rdma.Agent.Crates.{Crates}
use cmx_rdma.Agent.Etcd.{Etcd}
use cmx_rdma.Agent.Codecs.{NodeInfo, Json}
use cmx_rdma.Agent.Metadata.{
  MetadataClient, connect, register_node, start_keepalive, start_block_watch, revoke_lease,
}
use cmx_rdma.Agent.Placement
use cmx_rdma.Agent.Placement.{HashRing}
use cmx_rdma.Agent.Service.{Service}
use cmx_rdma.Agent.Start.{start}

-- `&buf[..nul_pos]`, where `nul_pos` is the first zero, or the end
unfoldable pub up_to_nul : Bytes → Bytes
up_to_nul [] = []
up_to_nul (b ∷ bs) = let rest = up_to_nul bs in if b == 0 then [] else b ∷ rest

-- The buffer that the system call has filled, if it has succeeded.
unfoldable pub gethostname : Option Bytes → Bytes
unfolding up_to_nul from_utf8_lossy
gethostname (some buf) = from_utf8_lossy (up_to_nul buf)
gethostname none = codes "unknown"

-- What an agent meets when it starts: the configuration file, if there is one, and what reading it
-- gives; `toml::from_str`; which texts are socket addresses; the variable `CMX_NODE_ID`; the host
-- name; whether the exporter of metrics can be installed; the counter of pools; and what `mmap` gives.
pub record Environment (F : Floats) : Type 0 where
  pub config_file : Option (Option Bytes)
  pub from_str : Bytes → Option (AgentConfig F)
  pub is_socket_addr : Bytes → Bool
  pub env_node_id : Option Bytes
  pub hostname : Option Bytes
  pub exporter : Bool
  pub next_pool_id : ℕ
  pub mapped : Option Region

-- Why `main` returns an error.
pub data Failure (F : Floats) : Type 0 where
  bad_config_file : Failure F
  invalid_config : List (ConfigError F) → Failure F
  bad_metrics_addr : Failure F
  no_exporter : Failure F
  no_pool : PoolError → Failure F
  bad_listen_addr : Failure F

module _ {F : Floats} where
  -- `AgentConfig::load`, or the defaults when there is no file.
  unfoldable pub load_config : Environment F → Option (AgentConfig F)
  unfolding default_config
  load_config env = elim env.config_file [
    | none ↦ some (default_config F)
    | some content ↦ content >>= env.from_str
  ]

module _ (c : Crates) (E : Etcd) (node_json : Json NodeInfo) (F : Floats) where
  -- An agent that serves: `keepalive` is the lease and the interval of the task that keeps it alive,
  -- `watching` says whether the watches were opened, and `limit` is the limit of concurrent requests.
  -- The watches share the index of remote blocks and the ring with the service.
  pub record Agent : Type 0 where
    pub service : Service c
    pub config : AgentConfig F
    pub metadata : Option (MetadataClient E)
    pub keepalive : Option (ℕ × ℕ)
    pub watching : Bool
    pub limit : Option ℕ

  pub data Outcome : Type 0 where
    serves : Agent → Outcome
    fails : Failure F → Outcome

  -- The client of etcd and the task that keeps the lease alive, as far as they come.
  unfoldable pub connect_metadata : AgentConfig F → Option (MetadataClient E) × Option (ℕ × ℕ)
  unfolding connect register_node start_keepalive
  connect_metadata config =
      elim (connect E config.metadata.etcd_endpoints config.agent.node_id config.agent.listen_addr
        config.metadata.lease_ttl_seconds) [
          | none ↦ (none, none)
          | some client ↦
              let (registered, m) = register_node E node_json client in
              elim registered [
                | none ↦ (some m, none)
                | some _ ↦ let (kept, m') = start_keepalive E m in (some m', kept)
              ]
        ]

  -- The ring, with the node itself when there is a client of etcd.
  unfoldable pub own_ring : AgentConfig F → Option (MetadataClient E) → HashRing
  unfolding Placement.new Placement.add_node
  own_ring config none = Placement.new config.placement.vnodes_per_node
  own_ring config (some m) =
      Placement.add_node c.sha256 config.agent.node_id
        (Placement.new config.placement.vnodes_per_node)

  unfoldable pub open_watches : Option (MetadataClient E) → Bool × Option (MetadataClient E)
  unfolding start_block_watch
  open_watches none = (false, none)
  open_watches (some m) = let (opened, m') = start_block_watch E m in (is_some opened, some m')

  -- `concurrency_limit_per_connection`, if it is configured
  unfoldable pub request_limit : AgentConfig F → Option ℕ
  request_limit config =
      if ltb 0 config.agent.max_requests_per_second
      then some config.agent.max_requests_per_second
      else none

  -- From the pool on. A listen address that does not parse ends the start at the very end.
  unfoldable pub serve : Environment F → AgentConfig F → MemoryPool → Outcome
  unfolding connect_metadata own_ring open_watches request_limit start
  serve env config pool =
      let (metadata, keepalive) = connect_metadata config in
      let (watching, metadata') = open_watches metadata in
      if not (env.is_socket_addr config.agent.listen_addr)
      then fails bad_listen_addr
      else serves (record {
        service =
            start c pool config.memory config.agent.node_id (is_some metadata)
              (own_ring config metadata);
        config = config;
        metadata = metadata';
        keepalive = keepalive;
        watching = watching;
        limit = request_limit config;
      })

  -- From a configuration without errors on, with its node id.
  unfoldable pub initialize : Environment F → AgentConfig F → Outcome
  unfolding serve Pool.new
  initialize env config =
      if not (env.is_socket_addr config.metrics.listen_addr)
      then fails bad_metrics_addr
      else if not env.exporter
      then fails no_exporter
      else elim (Pool.new env.next_pool_id env.mapped config.memory.total_size
          config.memory.block_size) [
            | Pool.err e ↦ fails (no_pool e)
            | Pool.ok (pool, _) ↦ serve env config pool
          ]

  unfoldable pub main : Environment F → Outcome
  unfolding load_config validate resolve_node_id gethostname initialize
  main env = elim (load_config env) [
    | none ↦ fails bad_config_file
    | some config ↦ elim (validate F env.is_socket_addr config) [
      | [] ↦ initialize env (resolve_node_id F env.env_node_id (gethostname env.hostname) config)
      | e ∷ errors ↦ fails (invalid_config (e ∷ errors))
    ]
  ]

  -- The lease is revoked when the agent is asked to stop; an error is only logged.
  unfoldable pub shutdown : Agent → Option (MetadataClient E)
  unfolding revoke_lease
  shutdown agent = elim agent.metadata [ none ↦ none | some m ↦ some (revoke_lease E m).1 ]
