-- ===== src/Agent/Config.antt =====
-- The configuration, crates/cmx-agent/src/config.rs. Reading the TOML file is left to the crate
-- `toml`; whether a text is a socket address is a parameter, as are the environment and the host name.
pub mod Valid
use Prim.Native.String.{String}
use cmx_rdma.Base.{
  ℕ, ◌*◌, ◌%◌, Bool, true, false, not, ◌&&◌, Option, none, some, List, [], ◌∷◌, ◌++◌, ◌==◌, ltb,
  if◌then◌else◌, codes, Bytes,
}
use cmx_rdma.Agent.Floats.{Floats}

pub record AgentSection : Type 0 where
  pub node_id : Bytes
  pub listen_addr : Bytes
  pub log_level : Bytes
  pub log_format : Bytes
  pub max_requests_per_second : ℕ

pub record MetadataSection : Type 0 where
  pub etcd_endpoints : List Bytes
  pub key_prefix : Bytes
  pub ttl_seconds : ℕ
  pub lease_ttl_seconds : ℕ

pub record TransportSection : Type 0 where
  pub backend : Bytes

pub record MetricsSection : Type 0 where
  pub listen_addr : Bytes

pub record PlacementSection : Type 0 where
  pub vnodes_per_node : ℕ

pub record TlsSection : Type 0 where
  pub enabled : Bool
  pub cert_path : Bytes
  pub key_path : Bytes
  pub ca_cert_path : Bytes

unfoldable pub default_agent : AgentSection
default_agent = record {
  node_id = [];
  listen_addr = codes "0.0.0.0:50051";
  log_level = codes "info";
  log_format = codes "text";
  max_requests_per_second = 0;
}

unfoldable pub default_metadata : MetadataSection
default_metadata = record {
  etcd_endpoints = codes "http://localhost:2379" ∷ [];
  key_prefix = codes "/cmx/blocks";
  ttl_seconds = 3600;
  lease_ttl_seconds = 30;
}

unfoldable pub default_transport : TransportSection
default_transport = record { backend = codes "mock" }

unfoldable pub default_metrics : MetricsSection
default_metrics = record { listen_addr = codes "0.0.0.0:9090" }

unfoldable pub default_placement : PlacementSection
default_placement = record { vnodes_per_node = 128 }

unfoldable pub default_tls : TlsSection
default_tls = record { enabled = false; cert_path = []; key_path = []; ca_cert_path = [] }

module _ (F : Floats) where
  pub record MemorySection : Type 0 where
    pub total_size : ℕ
    pub block_size : ℕ
    pub numa_node : Option ℕ
    pub pressure_warn : F.Float
    pub pressure_critical : F.Float
    pub pressure_reject : F.Float

  pub record AgentConfig : Type 0 where
    pub agent : AgentSection
    pub memory : MemorySection
    pub metadata : MetadataSection
    pub transport : TransportSection
    pub metrics : MetricsSection
    pub placement : PlacementSection
    pub tls : TlsSection

  unfoldable pub default_memory : MemorySection
  default_memory = record {
    total_size = 1024 * 1024 * 1024;
    block_size = 256 * 1024;
    numa_node = none;
    pressure_warn = F.hundredths 75;
    pressure_critical = F.hundredths 90;
    pressure_reject = F.hundredths 95;
  }

  unfoldable pub default_config : AgentConfig
  unfolding default_agent default_memory default_metadata default_transport default_metrics
      default_placement default_tls
  default_config = record {
    agent = default_agent;
    memory = default_memory;
    metadata = default_metadata;
    transport = default_transport;
    metrics = default_metrics;
    placement = default_placement;
    tls = default_tls;
  }

  -- The errors of `validate`, with what their messages show.
  pub data ConfigError : Type 0 where
    zero_block_size : ConfigError
    zero_total_size : ConfigError
    not_divisible : (total_size block_size : ℕ) → ConfigError
    out_of_range : (name : String) (val : F.Float) → ConfigError
    warn_not_below : (warn critical : F.Float) → ConfigError
    critical_not_below : (critical reject : F.Float) → ConfigError
    bad_listen_addr : Bytes → ConfigError

  -- `if test { errors.push(error) }`, in front of the errors of the later tests
  abbrev pub push_if : Bool → ConfigError → List ConfigError → List ConfigError
  push_if test error rest = if test then error ∷ rest else rest

  -- `!(0.0..=1.0).contains(&val)`
  unfoldable pub outside_unit : F.Float → Bool
  outside_unit val = not (F.ge val (F.hundredths 0) && F.ge (F.hundredths 100) val)

  -- The errors collected by `validate`; the configuration is valid if there is none.
  unfoldable pub validate : (is_socket_addr : Bytes → Bool) → AgentConfig → List ConfigError
  unfolding outside_unit
  validate is_socket_addr config =
      let m = config.memory in
      push_if (m.block_size == 0) zero_block_size (
        push_if (m.total_size == 0) zero_total_size (
          push_if (ltb 0 m.block_size && not (m.total_size % m.block_size == 0))
            (not_divisible m.total_size m.block_size)
            (push_if (outside_unit m.pressure_warn) (out_of_range "pressure_warn" m.pressure_warn) (
              push_if (outside_unit m.pressure_critical)
                (out_of_range "pressure_critical" m.pressure_critical)
                (push_if (outside_unit m.pressure_reject)
                  (out_of_range "pressure_reject" m.pressure_reject)
                  (push_if (F.ge m.pressure_warn m.pressure_critical)
                    (warn_not_below m.pressure_warn m.pressure_critical)
                    (push_if (F.ge m.pressure_critical m.pressure_reject)
                      (critical_not_below m.pressure_critical m.pressure_reject)
                      (push_if (not (is_socket_addr config.agent.listen_addr))
                        (bad_listen_addr config.agent.listen_addr) []))))))))

  -- `env_node_id` is the variable `CMX_NODE_ID`, and `hostname` what `gethostname` gives.
  unfoldable pub resolve_node_id :
      (env_node_id : Option Bytes) → (hostname : Bytes) → AgentConfig → AgentConfig
  resolve_node_id env_node_id hostname config = elim config.agent.node_id [
    | _ ∷ _ ↦ config
    | [] ↦ elim env_node_id [
      | some id ↦ record config { agent = record config.agent { node_id = id } }
      | none ↦ record config { agent = record config.agent { node_id = hostname } }
    ]
  ]
