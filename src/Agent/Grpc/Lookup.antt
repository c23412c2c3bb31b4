-- ===== src/Agent/Grpc/Lookup.antt =====
-- `lookup` and `batch_lookup` of crates/cmx-agent/src/grpc.rs. The look at the hash ring on a miss
-- only writes a log line, and is left out.
use cmx_rdma.Base.{
  Bool, true, false, Option, none, some, List, [], ◌∷◌, ◌++◌, map, bytes_eq, head?, ◌>>=◌, Bytes,
}
use cmx_rdma.Base.Outcome.{Outcome, done, panic}
use cmx_rdma.BlockStore.Index
use cmx_rdma.BlockStore.Index.{IndexEntry}
use cmx_rdma.Agent.Crates.{Key, Crates}
use cmx_rdma.Agent.RemoteIndex
use cmx_rdma.Agent.RemoteIndex.{RemoteBlockInfo}
use cmx_rdma.Agent.Service.{
  Reply, ok, err, BlockLocation, Service, hit, miss, parse_prefix_hash, composite_key, to_message,
}

-- The number of blocks of a request is not read.
pub record LookupRequest : Type 0 where
  pub prefix_hash : Bytes
  pub model_id : Bytes

pub record LookupResponse : Type 0 where
  pub found : Bool
  pub blocks : List BlockLocation
  pub is_local : Bool

pub record BatchLookupRequest : Type 0 where
  pub prefix_hashes : List Bytes
  pub model_id : Bytes

pub record BatchLookupResponse : Type 0 where
  pub found : List Bool
  pub blocks : List BlockLocation

module _ (c : Crates) where
  unfoldable pub remote_block : Key → Service c → Option RemoteBlockInfo
  unfolding RemoteIndex.lookup
  remote_block key s = do
    remote_index ← s.remote_index
    entries ← RemoteIndex.lookup c.remotes key remote_index
    head? entries

  -- The two arms of the `match` in `lookup`.
  unfoldable pub answer_lookup : Key → Option IndexEntry → Service c → LookupResponse × Service c
  unfolding to_message remote_block hit miss
  answer_lookup key (some entry) s = (
    record { found = true; blocks = map (to_message s.node_id) entry.blocks; is_local = true },
    hit s,
  )
  answer_lookup key none s = elim (remote_block key s) [
    | some first ↦ (
      record {
        found = true;
        blocks =
            record {
              node_id = first.node_id;
              offset = first.offset;
              size = first.size;
              generation_id = first.generation;
            }
            ∷ [];
        is_local = false;
      },
      hit s,
    )
    | none ↦ (record { found = false; blocks = []; is_local = false }, miss s)
  ]

  unfoldable pub lookup_key : Key → Service c → Outcome (Service c) (Reply LookupResponse)
  unfolding Index.lookup answer_lookup
  lookup_key key s = elim (Index.lookup c.entries key s.index) [
    | none ↦ panic s
    | some (found, index) ↦
        let (response, s') = answer_lookup key found (record s { index = index }) in
        done (ok response) s'
  ]

  unfoldable pub lookup : LookupRequest → Service c → Outcome (Service c) (Reply LookupResponse)
  unfolding parse_prefix_hash composite_key lookup_key
  lookup req s = elim (parse_prefix_hash req.prefix_hash) [
    | err status ↦ done (err status) s
    | ok prefix_hash ↦ lookup_key (composite_key c.sha256 req.model_id prefix_hash) s
  ]

  -- One round of the loop of `batch_lookup`.
  unfoldable pub batch_one :
      Option IndexEntry → BatchLookupResponse → Service c → BatchLookupResponse × Service c
  unfolding to_message hit miss
  batch_one (some entry) r s = (
    record {
      found = r.found ++ true ∷ [];
      blocks = r.blocks ++ map (to_message s.node_id) entry.blocks;
    },
    hit s,
  )
  batch_one none r s = (record r { found = r.found ++ false ∷ [] }, miss s)

  unfoldable pub batch_loop :
      (model_id : Bytes)
      → List Bytes
      → BatchLookupResponse
      → Service c
      → Outcome (Service c) (Reply BatchLookupResponse)
  unfolding parse_prefix_hash composite_key Index.lookup batch_one
  batch_loop model_id [] r s = done (ok r) s
  batch_loop model_id (raw_hash ∷ rest) r s = elim (parse_prefix_hash raw_hash) [
    | err status ↦ done (err status) s
    | ok prefix_hash ↦
        elim (Index.lookup c.entries (composite_key c.sha256 model_id prefix_hash) s.index) [
          | none ↦ panic s
          | some (found, index) ↦
              let (r', s') = batch_one found r (record s { index = index }) in
              batch_loop model_id rest r' s'
        ]
  ]

  unfoldable pub batch_lookup :
      BatchLookupRequest → Service c → Outcome (Service c) (Reply BatchLookupResponse)
  unfolding batch_loop
  batch_lookup req s =
      batch_loop req.model_id req.prefix_hashes (record { found = []; blocks = [] }) s
