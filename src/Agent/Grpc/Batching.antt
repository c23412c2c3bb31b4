-- ===== src/Agent/Grpc/Batching.antt =====
-- What `batch_lookup` of crates/cmx-agent/src/grpc.rs answers.
use cmx_rdma.Base.{
  ◌≡◌, refl, ap, ◌∙◌, sym, Bool, true, false, Option, none, some, List, [], ◌∷◌, ◌++◌, map,
  append_assoc, append-nil, arith, bytes_eq, if◌then◌else◌, is_some, length, Bytes, ◌==◌, All,
}
use cmx_rdma.Base.Outcome.{done}
use cmx_rdma.BlockStore.Index
use cmx_rdma.BlockStore.Index.{IndexEntry, BlockIndex}
use cmx_rdma.Agent.Crates.{Crates}
use cmx_rdma.Agent.Service.{ok, BlockLocation, Service, hit, miss, parse_prefix_hash, composite_key}
use cmx_rdma.Agent.Grpc.Lookup.{BatchLookupResponse, batch_one, batch_loop, batch_lookup}
use cmx_rdma.Agent.Grpc.Serving.{entry_at}
use cmx_rdma.Agent.Grpc.Looked.{messages, Indexed, IsIndex-lookup}

module _ (c : Crates) where
  module _ (model_id : Bytes) where
    -- The entry of a map for a hash of the model.
    abbrev pub entry_of : c.entries.Map → Bytes → Option IndexEntry
    entry_of m hash = c.entries.get (composite_key c.sha256 model_id hash) m

    -- The blocks of all hashes in order.
    abbrev pub all_blocks : (node : Bytes) → c.entries.Map → List Bytes → List BlockLocation
    all_blocks node m [] = []
    all_blocks node m (hash ∷ hashes) = messages node (entry_of m hash) ++ all_blocks node m hashes

    -- What a response has after more hashes.
    abbrev pub extended :
        BatchLookupResponse → (node : Bytes) → c.entries.Map → List Bytes → BatchLookupResponse
    extended r node m hashes = record {
      found = r.found ++ map (λ hash. is_some (entry_of m hash)) hashes;
      blocks = r.blocks ++ all_blocks node m hashes;
    }

    batch_one-extended :
        (found : Option IndexEntry) (r : BatchLookupResponse) (s : Service c)
        → batch_one c found r s ≡ (
          record {
            found = r.found ++ is_some found ∷ [];
            blocks = r.blocks ++ messages s.node_id found;
          },
          (if is_some found then hit s else miss s),
        )
    unfolding batch_one
    batch_one-extended (some e) r s = refl
    batch_one-extended none r s = rw (append-nil r.blocks)

    batch_loop-step :
        (hash : Bytes) (rest : List Bytes) (r r' : BatchLookupResponse) (s s' : Service c)
        (found : Option IndexEntry) (index : BlockIndex c.entries)
        → length hash ≡ 16
        → Index.lookup c.entries (composite_key c.sha256 model_id hash) s.index
          ≡ some (found, index)
        → batch_one c found r (record s { index = index }) ≡ (r', s')
        → batch_loop c model_id (hash ∷ rest) r s ≡ batch_loop c model_id rest r' s'
    unfolding batch_loop parse_prefix_hash
    batch_loop-step hash rest r r' s s' found index sixteen looked one =
        let long : (length hash == 16) ≡ true = ground arith in
        rw (long, batch_loop, looked, batch_loop, one)

    counted-index : (b : Bool) (s : Service c) → (if b then hit s else miss s).index ≡ s.index
    unfolding hit miss
    counted-index true s = refl
    counted-index false s = refl

    counted-node_id : (b : Bool) (s : Service c) → (if b then hit s else miss s).node_id ≡ s.node_id
    unfolding hit miss
    counted-node_id true s = refl
    counted-node_id false s = refl

    batch_loop-extended :
        (hashes : List Bytes) (r : BatchLookupResponse) (s : Service c)
        → Indexed c s
        → All (λ hash. length hash ≡ 16) hashes
        → (s' : Service c) × (batch_loop c model_id hashes r s
            ≡ done (ok (extended r s.node_id s.index.map hashes)) s')
          × (s'.index.map ≡ s.index.map)
          × Indexed c s'
    unfolding batch_loop
    batch_loop-extended [] r s i sixteen = (
      s,
      (λ j.
          done
            (ok
              (record { found = sym (append-nil r.found) j; blocks = sym (append-nil r.blocks) j }))
            s),
      refl,
      i,
    )
    batch_loop-extended (hash ∷ rest) r s i (h, sixteen) =
        let key = composite_key c.sha256 model_id hash in
        let found = entry_at c key s in
        let (index, looked, i', same_map, _) = IsIndex-lookup c s key i in
        let s₀ = record s { index = index } in
        let s₁ = if is_some found then hit s₀ else miss s₀ in
        let r₁ : BatchLookupResponse = record {
          found = r.found ++ is_some found ∷ [];
          blocks = r.blocks ++ messages s.node_id found;
        } in
        let same_index : s₁.index ≡ index = counted-index (is_some found) s₀ in
        let same_node : s₁.node_id ≡ s.node_id = counted-node_id (is_some found) s₀ in
        let i₁ : Indexed c s₁ = rw same_index i' in
        let (s', ran, kept, i₂) = batch_loop-extended rest r₁ s₁ i₁ sixteen in
        let map_kept : s₁.index.map ≡ s.index.map = ap (λ x. x.map) same_index ∙ same_map in
        (
          s',
          batch_loop-step hash rest r r₁ s s₁ found index h looked (batch_one-extended found r s₀)
              ∙ ran
              ∙ ap (λ node. done (ok (extended r₁ node s₁.index.map rest)) s') same_node
              ∙ ap (λ m. done (ok (extended r₁ s.node_id m rest)) s') map_kept
              ∙ λ j.
                  done
                    (ok (record {
                      found =
                          append_assoc r.found (is_some found ∷ [])
                            (map (λ x. is_some (entry_of s.index.map x)) rest) j;
                      blocks =
                          append_assoc r.blocks (messages s.node_id found)
                            (all_blocks s.node_id s.index.map rest) j;
                    }))
                    s',
          kept ∙ map_kept,
          i₂,
        )

    -- With an index that satisfies its invariant and for hashes of 16 bytes each, `batch_lookup` does
    -- not panic. It answers with one flag for each hash, which says whether the index has an entry for
    -- it when the call begins, and with the blocks of the entries in the order of the hashes; it changes
    -- no entry of the index.
    pub batch_lookup-extended :
        (hashes : List Bytes) (s : Service c)
        → Indexed c s
        → All (λ hash. length hash ≡ 16) hashes
        → (s' : Service c) × (batch_lookup c
              (record { prefix_hashes = hashes; model_id = model_id })
              s
            ≡ done
                (ok (record {
                  found = map (λ hash. is_some (entry_of s.index.map hash)) hashes;
                  blocks = all_blocks s.node_id s.index.map hashes;
                }))
                s')
          × (s'.index.map ≡ s.index.map)
          × Indexed c s'
    unfolding batch_lookup
    batch_lookup-extended hashes s i sixteen =
        batch_loop-extended hashes (record { found = []; blocks = [] }) s i sixteen
