-- ===== src/Agent/Grpc/Fetch.antt =====
-- `get` of crates/cmx-agent/src/grpc.rs: the handler, and the task that it spawns. The task reads
-- each block when it comes to it, from the allocator as it is then.
use cmx_rdma.Base.{
  ℕ, zero, suc, ◌+◌, ◌%◌, Option, none, some, List, [], ◌∷◌, length, bytes_eq, Bytes,
}
use cmx_rdma.Base.Outcome.{Outcome, done, panic}
use cmx_rdma.Memory.Pool.{u32, u64, BlockHandle}
use cmx_rdma.BlockStore.Block
use cmx_rdma.BlockStore.Allocator
use cmx_rdma.BlockStore.Allocator.{BlockAllocator}
use cmx_rdma.BlockStore.Index
use cmx_rdma.BlockStore.Index.{IndexEntry}
use cmx_rdma.Agent.Crates.{Crates}
use cmx_rdma.Agent.Service.{
  Status, data_loss, not_found, Reply, ok, err, Service, hit, miss, parse_prefix_hash,
  composite_key,
}

-- The other fields of a request are not read.
pub record GetRequest : Type 0 where
  pub prefix_hash : Bytes
  pub model_id : Bytes

pub record GetHeader : Type 0 where
  pub total_size : ℕ
  pub num_blocks : ℕ
  pub generation_id : ℕ

pub data GetResponse : Type 0 where
  header : GetHeader → GetResponse
  payload : Bytes → GetResponse
  failure : Status → GetResponse

unfoldable pub sum_sizes : List Block.BlockLocation → ℕ
sum_sizes [] = 0
sum_sizes (b ∷ bs) = (b.block_size + sum_sizes bs) % u64

unfoldable pub first_generation : List Block.BlockLocation → ℕ
first_generation [] = 0
first_generation (b ∷ bs) = b.generation

-- The handle that is rebuilt from a location; the pool is taken to be the first one.
unfoldable pub handle_of : Block.BlockLocation → BlockHandle
handle_of loc = record {
  pool_id = 0;
  block_index = loc.block_index;
  offset = loc.offset;
  size = loc.block_size;
}

module _ (c : Crates) where
  -- The messages that the receiver takes. `room` bounds their number: the receiver may go away.
  -- `states n` is the allocator when the block number `n` is read. A panic ends the task.
  unfoldable pub send_blocks :
      (room n : ℕ) → (ℕ → BlockAllocator) → List Block.BlockLocation → List GetResponse
  unfolding Allocator.read_verified handle_of
  send_blocks zero n states blocks = []
  send_blocks (suc room) n states [] = []
  send_blocks (suc room) n states (loc ∷ rest) =
      elim (Allocator.read_verified c.crc (handle_of loc) (states n)) [
        | none ↦ []
        | some none ↦ failure (data_loss "block CRC32C verification failed") ∷ []
        | some (some bytes) ↦ payload bytes ∷ send_blocks room (suc n) states rest
      ]

  unfoldable pub send_entry : (room : ℕ) → (ℕ → BlockAllocator) → IndexEntry → List GetResponse
  unfolding sum_sizes first_generation send_blocks
  send_entry zero states entry = []
  send_entry (suc room) states entry =
      header (record {
        total_size = sum_sizes entry.blocks;
        num_blocks = length entry.blocks % u32;
        generation_id = first_generation entry.blocks;
      })
      ∷ send_blocks room 0 states entry.blocks

  unfoldable pub answer_get : Option IndexEntry → Service c → Reply IndexEntry × Service c
  unfolding hit miss
  answer_get none s = (err (not_found "prefix hash not found in cache"), miss s)
  answer_get (some entry) s = (ok entry, hit s)

  -- The handler gives the entry that the spawned task will send.
  unfoldable pub get : GetRequest → Service c → Outcome (Service c) (Reply IndexEntry)
  unfolding parse_prefix_hash composite_key Index.lookup answer_get
  get req s = elim (parse_prefix_hash req.prefix_hash) [
    | err status ↦ done (err status) s
    | ok prefix_hash ↦
        elim (Index.lookup c.entries (composite_key c.sha256 req.model_id prefix_hash) s.index) [
          | none ↦ panic s
          | some (found, index) ↦
              let (reply, s') = answer_get found (record s { index = index }) in done reply s'
        ]
  ]
