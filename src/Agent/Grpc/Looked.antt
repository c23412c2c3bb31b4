-- ===== src/Agent/Grpc/Looked.antt =====
-- What `lookup` of crates/cmx-agent/src/grpc.rs comes down to.
use cmx_rdma.Base.{
  ◌≡◌, refl, ap, ◌∙◌, sym, inl, inr, Bool, true, false, Option, none, some, List, [], ◌∷◌, map,
  arith, erase, bytes_eq, if◌then◌else◌, length, Bytes, ◌==◌, Option-cases,
}
use cmx_rdma.Base.Outcome.{done}
use cmx_rdma.BlockStore.Index
use cmx_rdma.BlockStore.Index.{IndexEntry, BlockIndex}
use cmx_rdma.BlockStore.Index.Evict.{IsIndex}
use cmx_rdma.BlockStore.Index.Refines.{lookup_hit, lookup_miss}
use cmx_rdma.Agent.Crates.{Key, Crates}
use cmx_rdma.Agent.RemoteIndex.{RemoteBlockInfo}
use cmx_rdma.Agent.Service.{
  ok, BlockLocation, Service, hit, miss, parse_prefix_hash, composite_key, to_message,
}
use cmx_rdma.Agent.Grpc.Lookup.{
  LookupRequest, LookupResponse, remote_block, answer_lookup, lookup_key, lookup,
}
use cmx_rdma.Agent.Grpc.Serving.{entry_at}

-- The messages for the blocks of an entry that may be absent.
abbrev pub messages : Bytes → Option IndexEntry → List BlockLocation
messages node none = []
messages node (some e) = map (to_message node) e.blocks

module _ (c : Crates) where
  -- The index holds some keys.
  abbrev pub Indexed : Service c → Type 0
  Indexed s = (ks : List Key) × IsIndex c.entries s.index ks

  -- A look at the index finds the entry and leaves the map alone.
  pub IsIndex-lookup :
      (s : Service c) (k : Key)
      → Indexed s
      → (index : BlockIndex c.entries) × (Index.lookup c.entries k s.index
          ≡ some (entry_at c k s, index))
        × ((ks : List Key) × IsIndex c.entries index ks)
        × (index.map ≡ s.index.map)
        × (index.capacity ≡ s.index.capacity)
  IsIndex-lookup s k (ks, i) = elim (Option-cases (entry_at c k s)) [
    | inl absent ↦ (
      s.index,
      lookup_miss c.entries s.index ks i k absent ∙ ap (λ o. some (o, s.index)) (sym absent),
      (ks, i),
      refl,
      refl,
    )
    | inr (e, found) ↦
        let (index, looked, i', same_map, same_capacity) =
          lookup_hit c.entries s.index ks i k e found in
        (
          index,
          looked ∙ ap (λ o. some (o, index)) (sym found),
          (k ∷ erase k ks, i'),
          same_map,
          same_capacity,
        )
  ]

  -- The response to a look for a key.
  abbrev pub response : Option IndexEntry → Option RemoteBlockInfo → Bytes → LookupResponse
  response (some e) remote node = record {
    found = true;
    blocks = messages node (some e);
    is_local = true;
  }
  response none (some b) node = record {
    found = true;
    blocks =
        record {
          node_id = b.node_id;
          offset = b.offset;
          size = b.size;
          generation_id = b.generation;
        }
        ∷ [];
    is_local = false;
  }
  response none none node = record { found = false; blocks = []; is_local = false }

  -- How often the counters of hits and misses go up.
  abbrev pub counts : Option IndexEntry → Option RemoteBlockInfo → Bool
  counts (some e) remote = true
  counts none (some b) = true
  counts none none = false

  answer_lookup-response :
      (key : Key) (found : Option IndexEntry) (remote : Option RemoteBlockInfo) (s : Service c)
      → remote_block c key s ≡ remote
      → answer_lookup c key found s
        ≡ (response found remote s.node_id, (if counts found remote then hit s else miss s))
  unfolding answer_lookup
  answer_lookup-response key (some e) remote s h = refl
  answer_lookup-response key none none s h = rw (h, answer_lookup)
  answer_lookup-response key none (some b) s h = rw (h, answer_lookup)

  reaches_key :
      (req : LookupRequest) (s : Service c)
      → length req.prefix_hash ≡ 16
      → lookup c req s ≡ lookup_key c (composite_key c.sha256 req.model_id req.prefix_hash) s
  unfolding lookup parse_prefix_hash
  reaches_key req s sixteen =
      let long : (length req.prefix_hash == 16) ≡ true = ground arith in rw (long, lookup)

  lookup_key-answer :
      (key : Key) (found : Option IndexEntry) (s : Service c) (index : BlockIndex c.entries)
      → Index.lookup c.entries key s.index ≡ some (found, index)
      → lookup_key c key s
        ≡ (let x = answer_lookup c key found (record s { index = index }) in done (ok x.0) x.1)
  unfolding lookup_key
  lookup_key-answer key found s index looked = rw (looked, lookup_key)

  -- The state and the response that `lookup` gives, by the two arms of its `match`.
  pub lookup-run :
      (req : LookupRequest) (s : Service c)
      → Indexed s
      → length req.prefix_hash ≡ 16
      → (index : BlockIndex c.entries) × (lookup c req s ≡ (
          let key = composite_key c.sha256 req.model_id req.prefix_hash in
          let entry = entry_at c key s in
          let remote = remote_block c key s in
          let s' = record s { index = index } in
          done
            (ok (response entry remote s.node_id))
            (if counts entry remote then hit s' else miss s')))
        × (index.map ≡ s.index.map)
        × Indexed (record s { index = index })
  unfolding remote_block
  lookup-run req s i sixteen =
      let key = composite_key c.sha256 req.model_id req.prefix_hash in
      let (index, looked, i', same_map, _) = IsIndex-lookup s key i in
      let answer =
        answer_lookup-response key (entry_at c key s) (remote_block c key s)
          (record s { index = index }) refl in
      (
        index,
        reaches_key req s sixteen
            ∙ lookup_key-answer key (entry_at c key s) s index looked
            ∙ ap (λ x. done (ok x.0) x.1) answer,
        same_map,
        i',
      )
