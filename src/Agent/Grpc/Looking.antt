-- ===== src/Agent/Grpc/Looking.antt =====
-- What `lookup` of crates/cmx-agent/src/grpc.rs answers.
use cmx_rdma.Base.{
  ◌%◌, ◌+◌, head?, ◌||◌, is_some, ◌>>=◌, ◌≡◌, refl, ap, ◌∙◌, Option, none, some, List, [], ◌∷◌, map,
  arith, bytes_eq, if◌then◌else◌, length, Bytes,
}
use cmx_rdma.Base.Outcome.{done}
use cmx_rdma.Memory.Pool.{u64}
use cmx_rdma.BlockStore.Index.{IndexEntry, BlockIndex}
use cmx_rdma.Agent.Crates.{Key, Crates}
use cmx_rdma.Agent.RemoteIndex
use cmx_rdma.Agent.RemoteIndex.{RemoteBlockInfo}
use cmx_rdma.Agent.Service.{ok, BlockLocation, Service, hit, miss, composite_key, to_message}
use cmx_rdma.Agent.Grpc.Lookup.{LookupRequest, LookupResponse, remote_block, lookup}
use cmx_rdma.Agent.Grpc.Serving.{entry_at}
use cmx_rdma.Agent.Grpc.Looked.{Indexed, response, counts, lookup-run}

module _ (c : Crates) where
  -- The first block of what the index of remote blocks has under a key.
  abbrev pub first_of : Option (List RemoteBlockInfo) → Option RemoteBlockInfo
  first_of none = none
  first_of (some []) = none
  first_of (some (b ∷ _)) = some b

  abbrev pub first_known : Key → Option c.remotes.Map → Option RemoteBlockInfo
  first_known key none = none
  first_known key (some m) = first_of (c.remotes.get key m)

  remote_block-first_known :
      (key : Key) (s : Service c) (remotes : Option c.remotes.Map)
      → s.remote_index ≡ remotes
      → remote_block c key s ≡ first_known key remotes
  unfolding remote_block RemoteIndex.lookup
  remote_block-first_known key s none h = ground arith
  remote_block-first_known key s (some m) h = rw (h, remote_block) (first (c.remotes.get key m))
    where
      first : (o : Option (List RemoteBlockInfo)) → (o >>= head?) ≡ first_of o
      first none = refl
      first (some []) = refl
      first (some (b ∷ bs)) = refl

  -- What the client is told of the blocks.
  abbrev pub told : Bytes → Option IndexEntry → Option RemoteBlockInfo → List BlockLocation
  told node (some e) remote =
      map
        (λ b. record {
          node_id = node;
          offset = b.offset;
          size = b.block_size;
          generation_id = b.generation;
        })
        e.blocks
  told node none (some b) =
      record { node_id = b.node_id; offset = b.offset; size = b.size; generation_id = b.generation }
      ∷ []
  told node none none = []

  -- A response to a look for a key, from the entry of the index, if there is one, and the first block that
  -- other nodes have, if there is one; and the state after it.
  pub record Answered (s : Service c) (entry : Option IndexEntry) (remote : Option RemoteBlockInfo)
      (r : LookupResponse) (s' : Service c) : Type 0 where
    pub found : r.found ≡ (is_some entry || is_some remote)
    pub is_local : r.is_local ≡ is_some entry
    pub blocks : r.blocks ≡ told s.node_id entry remote
    pub hits :
        s'.cache_hits
        ≡ (if is_some entry || is_some remote then (s.cache_hits + 1) % u64 else s.cache_hits)
    pub misses :
        s'.cache_misses
        ≡ (if is_some entry || is_some remote then s.cache_misses else (s.cache_misses + 1) % u64)
    pub same_map : s'.index.map ≡ s.index.map
    pub same_remotes : s'.remote_index ≡ s.remote_index
    pub same_allocator : s'.allocator ≡ s.allocator
    pub indexed : Indexed c s'

  response-Answered :
      (s : Service c) (index : BlockIndex c.entries) (entry : Option IndexEntry)
      (remote : Option RemoteBlockInfo)
      → index.map ≡ s.index.map
      → Indexed c (record s { index = index })
      → Answered s entry remote (response c entry remote s.node_id) (
          if counts c entry remote
          then hit (record s { index = index })
          else miss (record s { index = index }))
  unfolding hit miss to_message
  response-Answered s index entry remote m i =
      let (found, is_local, blocks, hits, misses, remotes, allocator) = facts entry remote in
      record {
        found = found;
        is_local = is_local;
        blocks = blocks;
        hits = hits;
        misses = misses;
        same_map = ap (λ x. x.map) (kept_index entry remote) ∙ m;
        same_remotes = remotes;
        same_allocator = allocator;
        indexed = (i.0, rw (kept_index entry remote) i.1);
      }
    where
      after : Option IndexEntry → Option RemoteBlockInfo → Service c
      after entry remote =
          if counts c entry remote
          then hit (record s { index = index })
          else miss (record s { index = index })

      kept_index :
          (entry : Option IndexEntry) (remote : Option RemoteBlockInfo)
          → (after entry remote).index ≡ index
      kept_index (some e) remote = refl
      kept_index none (some b) = refl
      kept_index none none = refl

      facts :
          (entry : Option IndexEntry) (remote : Option RemoteBlockInfo)
          → ((response c entry remote s.node_id).found ≡ (is_some entry || is_some remote))
            × ((response c entry remote s.node_id).is_local ≡ is_some entry)
            × ((response c entry remote s.node_id).blocks ≡ told s.node_id entry remote)
            × ((after entry remote).cache_hits ≡ (
                if is_some entry || is_some remote then (s.cache_hits + 1) % u64 else s.cache_hits))
            × ((after entry remote).cache_misses ≡ (
                if is_some entry || is_some remote
                then s.cache_misses
                else (s.cache_misses + 1) % u64))
            × ((after entry remote).remote_index ≡ s.remote_index)
            × ((after entry remote).allocator ≡ s.allocator)
      facts (some e) remote = (refl, refl, refl, refl, refl, refl, refl)
      facts none (some b) = (refl, refl, refl, refl, refl, refl, refl)
      facts none none = (refl, refl, refl, refl, refl, refl, refl)

  -- With an index that satisfies its invariant and for a hash of 16 bytes, `lookup` does not
  -- panic. It answers with the blocks of the entry, as local; or else with the first block that
  -- the map of the remote blocks has under the key, as not local; or else that nothing is found.
  -- It counts a hit in the first two cases and a miss in the last, modulo 2^64, and keeps the map
  -- of the index, the remote blocks, the memory and the invariant.
  pub lookup-response :
      (req : LookupRequest) (s : Service c)
      → Indexed c s
      → length req.prefix_hash ≡ 16
      → (r : LookupResponse) × (s' : Service c) × (lookup c req s ≡ done (ok r) s')
        × Answered s
            (entry_at c (composite_key c.sha256 req.model_id req.prefix_hash) s)
            (first_known (composite_key c.sha256 req.model_id req.prefix_hash) s.remote_index)
            r
            s'
  lookup-response req s i sixteen =
      let key = composite_key c.sha256 req.model_id req.prefix_hash in
      let entry = entry_at c key s in
      let (index, ran, same_map, i') = lookup-run c req s i sixteen in
      let s₁ = record s { index = index } in
      (
        response c entry (first_known key s.remote_index) s.node_id,
        (if counts c entry (first_known key s.remote_index) then hit s₁ else miss s₁),
        ran
            ∙ ap
                (λ remote.
                  done (ok (response c entry remote s.node_id))
                    (if counts c entry remote then hit s₁ else miss s₁))
                (remote_block-first_known key s s.remote_index refl),
        response-Answered s index entry (first_known key s.remote_index) same_map i',
      )
