-- ===== src/Agent/Service.antt =====
-- The state of the service, crates/cmx-agent/src/state.rs and crates/cmx-agent/src/grpc.rs, and the
-- messages of crates/cmx-proto/proto/cmx.proto. Metrics and logs are left out.
use Prim.Native.String.{String}
use cmx_rdma.Base.{
  ℕ, ◌+◌, ◌%◌, Bool, Option, List, [], ◌∷◌, ◌++◌, ◌==◌, if◌then◌else◌, length, take, bytes_eq,
  Bytes,
}
use cmx_rdma.Memory.Pool.{u64}
use cmx_rdma.BlockStore.Block
use cmx_rdma.BlockStore.Allocator.{BlockAllocator}
use cmx_rdma.BlockStore.Index.{BlockIndex}
use cmx_rdma.Agent.Crates.{Key, Crates}
use cmx_rdma.Agent.Placement.{HashRing}

-- tonic's `Status`, with its message.
pub data Status : Type 0 where
  invalid_argument : String → Status
  resource_exhausted : String → Status
  not_found : String → Status
  data_loss : String → Status
  -- an error of the incoming stream
  transport : Status

pub data Reply (A : Type 0) : Type 0 where
  ok : A → Reply A
  err : Status → Reply A

-- The location of a block in a message.
pub record BlockLocation : Type 0 where
  pub node_id : Bytes
  pub offset : ℕ
  pub size : ℕ
  pub generation_id : ℕ

-- A call of `publish_block` that was spawned.
pub record Publication : Type 0 where
  pub prefix_hash : Key
  pub offset : ℕ
  pub size : ℕ
  pub generation : ℕ

-- `CacheService` with its `AgentState`. `metadata` says whether there is a metadata client, and
-- `published` holds what was handed to it, the latest last.
pub record Service (c : Crates) : Type 0 where
  pub allocator : BlockAllocator
  pub index : BlockIndex c.entries
  pub node_id : Bytes
  pub metadata : Bool
  pub published : List Publication
  pub pressure_level : ℕ
  pub remote_index : Option c.remotes.Map
  pub hash_ring : Option HashRing
  pub cache_hits : ℕ
  pub cache_misses : ℕ
  pub evictions : ℕ

-- `fetch_add(n)` on an `AtomicU64`
abbrev pub fetch_add : ℕ → ℕ → ℕ
fetch_add counter n = (counter + n) % u64

module _ {c : Crates} where
  unfoldable pub hit : Service c → Service c
  hit s = record s { cache_hits = fetch_add s.cache_hits 1 }

  unfoldable pub miss : Service c → Service c
  miss s = record s { cache_misses = fetch_add s.cache_misses 1 }

unfoldable pub parse_prefix_hash : Bytes → Reply Key
parse_prefix_hash bytes =
    if length bytes == 16
    then ok bytes
    else err (invalid_argument "prefix_hash must be exactly 16 bytes")

unfoldable pub composite_key : (sha256 : Bytes → Bytes) → (model_id : Bytes) → Key → Key
composite_key sha256 [] prefix_hash = prefix_hash
composite_key sha256 (b ∷ bs) prefix_hash = take 16 (sha256 ((b ∷ bs) ++ prefix_hash))

-- The closure that puts a location into a message.
unfoldable pub to_message : Bytes → Block.BlockLocation → BlockLocation
to_message node loc = record {
  node_id = node;
  offset = loc.offset;
  size = loc.block_size;
  generation_id = loc.generation;
}
