-- ===== src/Agent/Grpc/Store.antt =====
-- `store` of crates/cmx-agent/src/grpc.rs. The incoming stream is the list of what its `message()`
-- gives; the pressure level is read once, before the first message.
use cmx_rdma.Base.{
  ◌-◌, ℕ, Bool, true, none, some, List, [], ◌∷◌, ◌++◌, ltb, leb, if◌then◌else◌, length, bytes_eq,
  ◌^◌, Bytes,
}
use cmx_rdma.Base.Outcome.{Outcome, done, panic}
use cmx_rdma.BlockStore.Block
use cmx_rdma.BlockStore.Allocator
use cmx_rdma.BlockStore.Index
use cmx_rdma.Agent.Crates.{Key, Crates}
use cmx_rdma.Agent.Service.{
  invalid_argument, resource_exhausted, transport, Reply, ok, err, Publication, Service, fetch_add,
  parse_prefix_hash, composite_key,
}

-- The number of blocks of a header is not read.
pub record StoreHeader : Type 0 where
  pub prefix_hash : Bytes
  pub total_size : ℕ
  pub model_id : Bytes

-- A message of the stream: its payload, which may be absent, or an error of the stream.
pub data Message : Type 0 where
  header : StoreHeader → Message
  chunk : Bytes → Message
  no_payload : Message
  failed : Message

-- `error_message` is always empty.
pub record StoreResponse : Type 0 where
  pub success : Bool
  pub generation_id : ℕ

-- `PRESSURE_REJECT`
abbrev pub pressure_reject : ℕ
pressure_reject = 3

-- The loop that collects the data chunks.
unfoldable pub collect_chunks : Bytes → List Message → Reply Bytes
collect_chunks payload [] = ok payload
collect_chunks payload (chunk bytes ∷ rest) = collect_chunks (payload ++ bytes) rest
collect_chunks payload (header _ ∷ rest) = err (invalid_argument "unexpected header in stream")
collect_chunks payload (no_payload ∷ rest) = collect_chunks payload rest
collect_chunks payload (failed ∷ rest) = err transport

-- The largest capacity that `Vec::with_capacity` accepts, `isize::MAX` bytes.
abbrev pub isize_max : ℕ
isize_max = 2 ^ 63 - 1

module _ (c : Crates) where
  -- The block is stored: the index is updated and the location published.
  unfoldable pub record_block :
      (now : ℕ) → Key → Block.BlockLocation → Service c → Outcome (Service c) (Reply StoreResponse)
  unfolding Index.insert
  record_block now key loc s = elim (Index.insert c.entries key (loc ∷ []) now s.index) [
    | none ↦ panic s
    | some (evicted, index) ↦
        let publication : Publication = record {
          prefix_hash = key;
          offset = loc.offset;
          size = loc.block_size;
          generation = loc.generation;
        } in
        done (ok (record { success = true; generation_id = loc.generation })) (record s {
          index = index;
          evictions = fetch_add s.evictions (length evicted);
          published = if s.metadata then s.published ++ publication ∷ [] else s.published;
        })
  ]

  unfoldable pub store_block :
      (now : ℕ) → Key → Bytes → Service c → Outcome (Service c) (Reply StoreResponse)
  unfolding Allocator.allocate_and_write record_block
  store_block now key payload s =
      elim (Allocator.allocate_and_write c.crc c.padding payload s.allocator) [
        | panic allocator ↦ panic (record s { allocator = allocator })
        | done taken allocator ↦
            let s' = record s { allocator = allocator } in
            elim taken [
              | none ↦ done (err (resource_exhausted "memory pool exhausted")) s'
              | some (loc, _) ↦ record_block now key loc s'
            ]
      ]

  -- What follows the header. A `total_size` that no vector can have panics.
  unfoldable pub store_data :
      (now : ℕ) → StoreHeader → List Message → Service c → Outcome (Service c) (Reply StoreResponse)
  unfolding parse_prefix_hash composite_key collect_chunks store_block
  store_data now h rest s = elim (parse_prefix_hash h.prefix_hash) [
    | err status ↦ done (err status) s
    | ok prefix_hash ↦
        if ltb isize_max h.total_size then panic s else elim (collect_chunks [] rest) [
          | err status ↦ done (err status) s
          | ok payload ↦ store_block now (composite_key c.sha256 h.model_id prefix_hash) payload s
        ]
  ]

  unfoldable pub store_stream :
      (now : ℕ) → List Message → Service c → Outcome (Service c) (Reply StoreResponse)
  unfolding store_data
  store_stream now [] s = done (err (invalid_argument "empty stream")) s
  store_stream now (header h ∷ rest) s = store_data now h rest s
  store_stream now (chunk bytes ∷ rest) s =
      done (err (invalid_argument "first message must be a header")) s
  store_stream now (no_payload ∷ rest) s =
      done (err (invalid_argument "first message must be a header")) s
  store_stream now (failed ∷ rest) s = done (err transport) s

  unfoldable pub store :
      (now : ℕ) → List Message → Service c → Outcome (Service c) (Reply StoreResponse)
  unfolding store_stream
  store now stream s =
      if leb pressure_reject s.pressure_level
      then done (err (resource_exhausted "memory pressure too high — store rejected")) s
      else store_stream now stream s
