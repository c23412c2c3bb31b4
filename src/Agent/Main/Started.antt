-- ===== src/Agent/Main/Started.antt =====
-- When `main` of crates/cmx-agent/src/main.rs serves, and what it serves then.
use cmx_rdma.Base.{
  ap, ◌%◌, ℕ, ◌/◌, ◌≤◌, ◌<◌, ◌≡◌, refl, ◌∙◌, sym, inl, inr, true, Option, none, some, List, [], ◌∷◌,
  arith, bytes_eq, Option-cases, List-cases, is_some, Bytes,
}
use cmx_rdma.Memory.Bytes.{Region}
use cmx_rdma.Memory.Pool
use cmx_rdma.Memory.Pool.{u32, u64, MemoryPool}
use cmx_rdma.Memory.Pool.Ownership.{Owns, new-Owns}
use cmx_rdma.BlockStore.Block.{header_size}
use cmx_rdma.Agent.Config.{ConfigError, AgentConfig, validate, resolve_node_id}
use cmx_rdma.Agent.Config.Valid.{IsValid, validate_iff}
use cmx_rdma.Agent.Floats.{Floats}
use cmx_rdma.Agent.Crates.{Crates}
use cmx_rdma.Agent.Etcd.{Etcd}
use cmx_rdma.Agent.Codecs.{NodeInfo, Json}
use cmx_rdma.Agent.Metadata.{MetadataClient}
use cmx_rdma.Agent.Placement
use cmx_rdma.Agent.Placement.Order.{IsRing, add_node-IsRing}
use cmx_rdma.BlockStore.Allocator
use cmx_rdma.BlockStore.Index
use cmx_rdma.Agent.Start.{new_service, start, start-IsService}
use cmx_rdma.Agent.Grpc.Serving.{IsService}
use cmx_rdma.Agent.Main.{
  HashRing, Bool, Environment, bad_config_file, invalid_config, load_config, gethostname, Agent,
  serves, fails, connect_metadata, own_ring, open_watches, request_limit, serve, initialize, main,
}

module _ (c : Crates) (E : Etcd) (node_json : Json NodeInfo) (F : Floats) where
  new-pool_id :
      (id : ℕ) (region : Region) (t b : ℕ) (p : MemoryPool) (next : ℕ)
      → Pool.new id (some region) t b ≡ Pool.ok (p, next)
      → p.pool_id ≡ id
  unfolding Pool.new
  new-pool_id id region t b p next h = ground arith

  own_ring-IsRing :
      (config : AgentConfig F) (m : Option (MetadataClient E))
      → IsRing (own_ring c E node_json F config m)
  unfolding own_ring Placement.new
  own_ring-IsRing config none = (tt, tt)
  own_ring-IsRing config (some m) =
      add_node-IsRing c.sha256 config.agent.node_id (Placement.new config.placement.vnodes_per_node)
        (tt, tt)

  -- The agent that starts on a pool.
  abbrev started : Environment F → AgentConfig F → MemoryPool → Agent c E node_json F
  started env config pool =
      let connected = connect_metadata c E node_json F config in
      let watched = open_watches c E node_json F connected.0 in
      record {
        service =
            start c pool config.memory config.agent.node_id (is_some connected.0)
              (own_ring c E node_json F config connected.0);
        config = config;
        metadata = watched.1;
        keepalive = connected.1;
        watching = watched.0;
        limit = request_limit c E node_json F config;
      }

  serve-started :
      (env : Environment F) (config : AgentConfig F) (pool : MemoryPool)
      → env.is_socket_addr config.agent.listen_addr ≡ true
      → serve c E node_json F env config pool ≡ serves (started env config pool)
  unfolding serve
  serve-started env config pool h = rw (h, serve) refl

  initialize-serve :
      (env : Environment F) (config : AgentConfig F) (pool : MemoryPool) (next : ℕ)
      → env.is_socket_addr config.metrics.listen_addr ≡ true
      → env.exporter ≡ true
      → Pool.new env.next_pool_id env.mapped config.memory.total_size config.memory.block_size
        ≡ Pool.ok (pool, next)
      → initialize c E node_json F env config ≡ serve c E node_json F env config pool
  unfolding initialize
  initialize-serve env config pool next a e p = rw (a, initialize, e, p) refl

  main-initialize :
      (env : Environment F) (config : AgentConfig F)
      → load_config env ≡ some config
      → validate F env.is_socket_addr config ≡ []
      → main c E node_json F env
        ≡ initialize c E node_json F env
            (resolve_node_id F env.env_node_id (gethostname env.hostname) config)
  unfolding main
  main-initialize env config l v = rw (l, main, v) refl

  -- What naming the node leaves as it was.
  resolve_node_id-keeps :
      (id : Option Bytes) (hostname : Bytes) (config : AgentConfig F)
      → ((resolve_node_id F id hostname config).memory ≡ config.memory)
        × ((resolve_node_id F id hostname config).metrics ≡ config.metrics)
        × ((resolve_node_id F id hostname config).agent.listen_addr ≡ config.agent.listen_addr)
  unfolding resolve_node_id
  resolve_node_id-keeps id hostname config = elim (List-cases config.agent.node_id) [
    | inr (b, bs, named) ↦ rw (named, resolve_node_id) (refl, refl, refl)
    | inl unnamed ↦ elim (Option-cases id) [
      | inl unset ↦ rw (unnamed, resolve_node_id, unset) (refl, refl, refl)
      | inr (name, set) ↦ rw (unnamed, resolve_node_id, set) (refl, refl, refl)
    ]
  ]

  -- The first pool of the process, on a valid configuration below 2^64 bytes and of at most 2^32
  -- blocks.
  first_pool :
      (config : AgentConfig F) (is_socket_addr : Bytes → Bool) (region : Region)
      → validate F is_socket_addr config ≡ []
      → config.memory.total_size < u64
      → config.memory.total_size / config.memory.block_size ≤ u32
      → (p : MemoryPool) × (next : ℕ) × (Pool.new 0
            (some region)
            config.memory.total_size
            config.memory.block_size
          ≡ Pool.ok (p, next))
        × Owns p []
        × (p.pool_id ≡ 0)
        × (p.block_size ≡ config.memory.block_size)
        × (p.total_blocks ≡ config.memory.total_size / config.memory.block_size)
  first_pool config is_socket_addr region h small few =
      let v = (validate_iff F is_socket_addr config).0 h in
      let m = config.memory in
      let (p, created, owns, _, size, _, blocks) =
        new-Owns 0 region m.total_size m.block_size v.block_size v.total_size v.divisible small
          few in
      (
        p,
        1 % u32,
        created,
        owns,
        new-pool_id 0 region m.total_size m.block_size p (1 % u32) created,
        size,
        blocks,
      )

  -- When the configuration has no errors, is below 2^64 bytes, of at most 2^32 blocks and of blocks
  -- with room for a header, when the address of the metrics parses, the exporter can be installed and
  -- the memory can be mapped, `main` comes to serve, whatever etcd answers: the service satisfies the
  -- invariant with nothing stored, its index may have an entry for every block, and its ring is sorted
  -- and has no node that was not added.
  pub main-serves :
      (env : Environment F) (config : AgentConfig F) (region : Region)
      → load_config env ≡ some config
      → validate F env.is_socket_addr config ≡ []
      → config.memory.total_size < u64
      → config.memory.total_size / config.memory.block_size ≤ u32
      → header_size ≤ config.memory.block_size
      → env.is_socket_addr config.metrics.listen_addr ≡ true
      → env.exporter ≡ true
      → env.next_pool_id ≡ 0
      → env.mapped ≡ some region
      → (agent : Agent c E node_json F) × (main c E node_json F env ≡ serves agent)
        × IsService c agent.service [] []
        × ((ring : HashRing) × (agent.service.hash_ring ≡ some ring) × IsRing ring)
        × (agent.service.allocator.pool.block_size ≡ config.memory.block_size)
        × (agent.service.allocator.pool.total_blocks ≡ agent.service.index.capacity)
  unfolding start new_service Allocator.new Index.new
  main-serves env config region l v small few room metrics exporter id mapped =
      let named = resolve_node_id F env.env_node_id (gethostname env.hostname) config in
      let (memory, same_metrics, listen) =
        resolve_node_id-keeps env.env_node_id (gethostname env.hostname) config in
      let (pool, next, created, owns, first, size, blocks) =
        first_pool config env.is_socket_addr region v small few in
      let valid = (validate_iff F env.is_socket_addr config).0 v in
      let connected = connect_metadata c E node_json F named in
      (
        started env named pool,
        main-initialize env config l v
            ∙ (initialize-serve env named pool next (rw same_metrics metrics) exporter
                  (rw (id, mapped, memory) created)
                ∙ serve-started env named pool (rw listen valid.listen_addr)),
        start-IsService c pool named.memory named.agent.node_id (is_some connected.0)
            (own_ring c E node_json F named connected.0) owns (rw size room) first,
        (own_ring c E node_json F named connected.0, refl, own_ring-IsRing named connected.0),
        size,
        blocks ∙ sym (ap (λ x. x.total_size / x.block_size) memory),
      )

  initialize-needs :
      (env : Environment F) (config : AgentConfig F) (agent : Agent c E node_json F)
      → initialize c E node_json F env config ≡ serves agent
      → (env.exporter ≡ true) × (env.is_socket_addr config.metrics.listen_addr ≡ true)
  unfolding initialize
  initialize-needs env config agent h = ground arith

  main-refuses :
      (env : Environment F)
      → load_config env ≡ none
      → main c E node_json F env ≡ fails bad_config_file
  unfolding main
  main-refuses env l = rw (l, main) refl

  main-invalid :
      (env : Environment F) (config : AgentConfig F) (e : ConfigError F)
      (errors : List (ConfigError F))
      → load_config env ≡ some config
      → validate F env.is_socket_addr config ≡ e ∷ errors
      → main c E node_json F env ≡ fails (invalid_config (e ∷ errors))
  unfolding main
  main-invalid env config e errors l v = rw (l, main, v) refl

  -- An agent comes to serve only on a configuration that could be read and that is valid, with an
  -- address of the metrics that parses and an exporter that could be installed.
  pub serves-IsValid :
      (env : Environment F) (agent : Agent c E node_json F)
      → main c E node_json F env ≡ serves agent
      → (config : AgentConfig F) × (load_config env ≡ some config)
        × IsValid F env.is_socket_addr config
        × (env.exporter ≡ true)
        × (env.is_socket_addr config.metrics.listen_addr ≡ true)
  serves-IsValid env agent h = elim (Option-cases (load_config env)) [
    | inl unread ↦ absurd (ground (arith, main-refuses env unread))
    | inr (config, l) ↦ elim (List-cases (validate F env.is_socket_addr config)) [
      | inr (e, errors, v) ↦ absurd (ground (arith, main-invalid env config e errors l v))
      | inl v ↦
          let named = resolve_node_id F env.env_node_id (gethostname env.hostname) config in
          let (exporter, metrics) =
            initialize-needs env named agent (sym (main-initialize env config l v) ∙ h) in
          let (_, same_metrics, _) =
            resolve_node_id-keeps env.env_node_id (gethostname env.hostname) config in
          (
            config,
            l,
            (validate_iff F env.is_socket_addr config).0 v,
            exporter,
            rw (sym same_metrics) metrics,
          )
    ]
  ]
