-- ===== src/Tests/AgentRuns.antt =====
-- Runs of the configuration, the pressure monitor, the hash ring and the remote index.
use cmx_rdma.Base.{
  ℕ, ◌≡◌, ◌≢◌, refl, ◌⊎◌, ◌↔◌, Bool, true, false, none, some, [], ◌∷◌, arith, bytes_eq, nat_eq,
  take, Bytes,
}
use cmx_rdma.BlockStore.Allocator
use cmx_rdma.BlockStore.Eviction
use cmx_rdma.Agent.Config.{AgentConfig, validate, default_config}
use cmx_rdma.Agent.Config.Valid.{IsValid, validate_iff, default_config-valid}
use cmx_rdma.Agent.Service.{Service}
use cmx_rdma.Agent.Pressure.{Thresholds}
use cmx_rdma.Agent.Placement.{
  HashRing, hash_position, from_be, range_from, first_node, add_node, remove_node, preferred_node,
  preferred_nodes,
}
use cmx_rdma.Agent.Placement.Movement.{preferred_node-add_node, preferred_node-remove_node}
use cmx_rdma.Agent.Placement.Order.{IsRing, IsSuccessor, preferred_node-IsSuccessor}
use cmx_rdma.Agent.Placement.Walk.{walk, fresh_nodes, preferred_nodes-walk}
use cmx_rdma.Tests.Data.{crates, hundredths, toy_sha256, same_bytes, free_allocator}

abbrev pub any_address : Bytes → Bool
any_address bs = true

abbrev pub config : AgentConfig hundredths
config = default_config hundredths

pub default_valid : validate hundredths any_address config ≡ []
default_valid = default_config-valid hundredths any_address refl

validate_iff_example :
    (validate hundredths any_address config ≡ []) ↔ IsValid hundredths any_address config
validate_iff_example = validate_iff hundredths any_address config

abbrev pub thresholds : Thresholds hundredths
thresholds = record { warn = 75; critical = 90; reject = 95 }

-- An agent whose pool has no free block.
abbrev full_service : Service crates
full_service = record {
  allocator = record free_allocator { pool = record free_allocator.pool { free_list = [] } };
  index = record { map = crates.entries.empty; lru = Eviction.new; capacity = 2 };
  node_id = [];
  metadata = false;
  published = [];
  pressure_level = 0;
  remote_index = none;
  hash_ring = none;
  cache_hits = 0;
  cache_misses = 0;
  evictions = 0;
}

abbrev pub node_a : Bytes
node_a = 97 ∷ []

abbrev pub node_b : Bytes
node_b = 98 ∷ []

abbrev pub two_nodes : HashRing
two_nodes = record {
  ring = (5, node_a) ∷ (9, node_b) ∷ [];
  vnodes_per_node = 1;
  nodes = node_a ∷ node_b ∷ [];
}

abbrev hash : Bytes
hash = 7 ∷ []

preferred_node-add_node_example :
    (preferred_node toy_sha256 same_bytes hash (add_node toy_sha256 (99 ∷ []) two_nodes)
      ≡ preferred_node toy_sha256 same_bytes hash two_nodes)
    ⊎ (preferred_node toy_sha256 same_bytes hash (add_node toy_sha256 (99 ∷ []) two_nodes)
        ≡ some (99 ∷ []))
preferred_node-add_node_example =
    preferred_node-add_node toy_sha256 same_bytes hash (99 ∷ []) two_nodes

-- All positions of this ring lie before that of the hash, which falls to the first node.
falls_to_a : preferred_node toy_sha256 same_bytes hash two_nodes ≡ some node_a
unfolding preferred_node hash_position from_be range_from first_node
falls_to_a = refl

a_not_b : node_a ≢ node_b
a_not_b h = ground arith

preferred_node-remove_node_example :
    preferred_node toy_sha256 same_bytes hash (remove_node node_b two_nodes) ≡ some node_a
preferred_node-remove_node_example =
    preferred_node-remove_node toy_sha256 same_bytes hash node_b node_a two_nodes a_not_b falls_to_a

preferred_nodes-walk_example :
    preferred_nodes toy_sha256 same_bytes hash 2 two_nodes
    ≡ take 2 (fresh_nodes [] (walk toy_sha256 same_bytes hash 2 two_nodes))
preferred_nodes-walk_example = preferred_nodes-walk toy_sha256 same_bytes hash 2 two_nodes

pub two_nodes-IsRing : IsRing two_nodes
two_nodes-IsRing = (((omega arith, tt), (tt, tt)), (ground arith, (ground arith, tt)))

preferred_node-IsSuccessor_example :
    (q : ℕ) × IsSuccessor (hash_position toy_sha256 hash) two_nodes.ring q node_a
preferred_node-IsSuccessor_example =
    preferred_node-IsSuccessor toy_sha256 same_bytes hash two_nodes node_a two_nodes-IsRing
      falls_to_a
