-- ===== src/Agent/Main/Serving.antt =====
-- The cache that an agent serves once `main` of crates/cmx-agent/src/main.rs has started it.
use cmx_rdma.Base.{ℕ, ◌/◌, ◌≤◌, ◌<◌, ◌≡◌, refl, true, none, some, List, [], arith, bytes_eq, length}
use cmx_rdma.Memory.Bytes.{Region}
use cmx_rdma.Memory.Pool.{u32, u64}
use cmx_rdma.BlockStore.Block.{header_size}
use cmx_rdma.Agent.Config.{AgentConfig, validate}
use cmx_rdma.Agent.Floats.{Floats}
use cmx_rdma.Agent.Crates.{Crates}
use cmx_rdma.Agent.Etcd.{Etcd}
use cmx_rdma.Agent.Codecs.{NodeInfo, Json}
use cmx_rdma.Agent.Pressure.{Thresholds}
use cmx_rdma.Agent.Service.{Service, composite_key}
use cmx_rdma.Agent.Grpc.Fetch.{GetRequest}
use cmx_rdma.Agent.Grpc.Serving.{IsService}
use cmx_rdma.Agent.Main.{Environment, load_config, Agent, serves, main}
use cmx_rdma.Agent.Main.Started.{main-serves}
use cmx_rdma.Agent.Sessions.{Event, Latest, run, learned}
use cmx_rdma.Agent.Sessions.Faithful.{IsSession}
use cmx_rdma.Agent.Sessions.Exact.{Answers, get-exact}

abbrev pub nothing_stored : Latest
nothing_stored k = none

-- A service with nothing stored is the beginning of a session.
begins :
    (c : Crates) (s : Service c)
    → IsService c s [] []
    → s.allocator.pool.block_size ≤ u32
    → IsSession c s nothing_stored
begins c s v small = record {
  keys = [];
  live = [];
  service = v;
  faithful = λ k e at. absurd (ground (arith, v.index.known k));
  small = small;
}

-- The thresholds of the monitor that `main` starts.
abbrev pub thresholds : {F : Floats} → AgentConfig F → Thresholds F
thresholds config = record {
  warn = config.memory.pressure_warn;
  critical = config.memory.pressure_critical;
  reject = config.memory.pressure_reject;
}

module _ (c : Crates) (E : Etcd) (node_json : Json NodeInfo) (F : Floats) where
  -- When the configuration has no errors, is below 2^64 bytes, of at most 2^32 blocks of at most 2^32
  -- bytes with room for a header, when the address of the metrics parses, the exporter can be installed
  -- and the memory can be mapped, `main` comes to serve, whatever etcd answers. After any sequence of
  -- requests and ticks the agent is a map from keys to data: for a prefix hash of 16 bytes and a model,
  -- `get` answers `not_found` when nothing is stored under them, by a store that succeeded with no deletion
  -- since; and otherwise it sends, to a receiver that takes two messages, a header and exactly the bytes
  -- that were stored last.
  pub main-exact :
      (env : Environment F) (config : AgentConfig F) (region : Region) (events : List Event)
      (req : GetRequest) (room : ℕ)
      → load_config env ≡ some config
      → validate F env.is_socket_addr config ≡ []
      → config.memory.total_size < u64
      → config.memory.total_size / config.memory.block_size ≤ u32
      → header_size ≤ config.memory.block_size
      → config.memory.block_size ≤ u32
      → env.is_socket_addr config.metrics.listen_addr ≡ true
      → env.exporter ≡ true
      → env.next_pool_id ≡ 0
      → env.mapped ≡ some region
      → length req.prefix_hash ≡ 16
      → (agent : Agent c E node_json F) × (main c E node_json F env ≡ serves agent)
        × Answers c req room (run c F (thresholds config) events agent.service) (
            learned c F
              (thresholds config)
              events
              agent.service
              nothing_stored
              (composite_key c.sha256 req.model_id req.prefix_hash))
  main-exact env config region events req room l v small few space fits metrics exporter id mapped
        sixteen =
      let (agent, serving, service, _, size, entries) =
        main-serves c E node_json F env config region l v small few space metrics exporter id
          mapped in
      (
        agent,
        serving,
        get-exact c F (thresholds config) events agent.service nothing_stored req room
            (begins c agent.service service (rw size fits))
            (record { complete = λ k absent. refl; large = omega (arith, entries) }) sixteen,
      )
