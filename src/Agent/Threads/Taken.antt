-- ===== src/Agent/Threads/Taken.antt =====
-- The parts of a `store` or a `delete` of crates/cmx-agent/src/grpc.rs that succeeds.
use cmx_rdma.Base.{
  ℕ, ◌==◌, ◌≡◌, refl, inl, inr, ◌⊎◌, none, some, List, [], ◌∷◌, arith, ltb, Bool-cases,
  Option-cases, bytes_eq, length, Bytes,
}
use cmx_rdma.Base.Outcome.{done, Outcome-cases}
use cmx_rdma.Memory.Pool.{BlockHandle}
use cmx_rdma.BlockStore.Block
use cmx_rdma.BlockStore.Allocator.{BlockAllocator, allocate_and_write}
use cmx_rdma.BlockStore.Eviction
use cmx_rdma.BlockStore.Index
use cmx_rdma.BlockStore.Index.{IndexEntry, BlockIndex, evict_loop, make_room}
use cmx_rdma.Agent.Crates.{Key, Crates}
use cmx_rdma.Agent.Service.{Status, Reply, ok, err, Service, parse_prefix_hash, composite_key}
use cmx_rdma.Agent.Grpc.Store.{
  StoreHeader, Message, header, chunk, no_payload, failed, collect_chunks, isize_max, StoreResponse,
  record_block, store_block, store_data, store_stream, store,
}
use cmx_rdma.Agent.Grpc.Admin.{DeleteResponse, free_blocks, answer_delete, delete}

module _ (c : Crates) where
  Reply-cases : {A : Type 0} (r : Reply A) → ((e : Status) × (r ≡ err e)) ⊎ ((a : A) × (r ≡ ok a))
  Reply-cases (ok a) = inr (a, refl)
  Reply-cases (err e) = inl (e, refl)

  pub store_block_taken :
      (now : ℕ) (key : Key) (payload : Bytes) (s s' : Service c) (reply : StoreResponse)
      → store_block c now key payload s ≡ done (ok reply) s'
      → (loc : Block.BlockLocation) × (handle : BlockHandle) × (a : BlockAllocator)
        × (allocate_and_write c.crc c.padding payload s.allocator ≡ done (some (loc, handle)) a)
        × (record_block c now key loc (record s { allocator = a }) ≡ done (ok reply) s')
  unfolding store_block
  store_block_taken now key payload s s' reply ran =
      elim (Outcome-cases (allocate_and_write c.crc c.padding payload s.allocator)) [
        | inl (a, broken) ↦ absurd (ground arith)
        | inr (none, a, refused) ↦ absurd (ground arith)
        | inr (some (loc, handle), a, wrote) ↦ (loc, handle, a, wrote, ground arith)
      ]

  store_data_taken :
      (now : ℕ) (h : StoreHeader) (rest : List Message) (s s' : Service c) (reply : StoreResponse)
      → store_data c now h rest s ≡ done (ok reply) s'
      → (key : Key) × (payload : Bytes) × (store_block c now key payload s ≡ done (ok reply) s')
  unfolding store_data
  store_data_taken now h rest s s' reply ran =
      elim (Reply-cases (parse_prefix_hash h.prefix_hash)) [
        | inl (status, wrong) ↦ absurd (ground arith)
        | inr (prefix_hash, given) ↦ elim (Bool-cases (ltb isize_max h.total_size)) [
          | inl huge ↦ absurd (ground arith)
          | inr modest ↦ elim (Reply-cases (collect_chunks [] rest)) [
            | inl (status, wrong) ↦ absurd (ground arith)
            | inr (payload, collected) ↦
                (composite_key c.sha256 h.model_id prefix_hash, payload, ground arith)
          ]
        ]
      ]

  -- A stream that is stored comes down to one block.
  pub store_stream_taken :
      (now : ℕ) (stream : List Message) (s s' : Service c) (reply : StoreResponse)
      → store_stream c now stream s ≡ done (ok reply) s'
      → (key : Key) × (payload : Bytes) × (store_block c now key payload s ≡ done (ok reply) s')
  unfolding store_stream
  store_stream_taken now [] s s' reply ran = ground arith
  store_stream_taken now (header h ∷ rest) s s' reply ran =
      store_data_taken now h rest s s' reply ran
  store_stream_taken now (chunk bytes ∷ rest) s s' reply ran = ground arith
  store_stream_taken now (no_payload ∷ rest) s s' reply ran = ground arith
  store_stream_taken now (failed ∷ rest) s s' reply ran = ground arith

  pub store_taken :
      (now : ℕ) (stream : List Message) (s s' : Service c) (reply : StoreResponse)
      → store c now stream s ≡ done (ok reply) s'
      → store_stream c now stream s ≡ done (ok reply) s'
  unfolding store
  store_taken now stream s s' reply ran = ground arith

  -- What the update of the index leaves.
  pub record_block_taken :
      (now : ℕ) (key : Key) (loc : Block.BlockLocation) (s s' : Service c) (reply : StoreResponse)
      → record_block c now key loc s ≡ done (ok reply) s'
      → (evicted : List Key) × (index : BlockIndex c.entries) × (make_room c.entries key s.index
          ≡ some (evicted, index))
        × (s'.index.map
            ≡ c.entries.insert key (record { blocks = loc ∷ []; created_at = now }) index.map)
        × (s'.allocator ≡ s.allocator)
  unfolding record_block Index.insert
  record_block_taken now key loc s s' reply ran =
      elim (Option-cases (make_room c.entries key s.index)) [
        | inl broken ↦ absurd (ground arith)
        | inr ((evicted, index), roomy) ↦ elim (Option-cases (Eviction.touch key index.lru)) [
          | inl broken ↦ absurd (ground arith)
          | inr (lru, touched) ↦ (evicted, index, roomy, ground arith, ground arith)
        ]
      ]

  -- A `delete` finds no entry and leaves all as it was, or takes one out and gives its blocks back.
  pub delete_taken :
      (hash : Bytes) (s s' : Service c) (reply : DeleteResponse)
      → delete c hash s ≡ done (ok reply) s'
      → ((s'.allocator ≡ s.allocator) × (s'.index.map ≡ s.index.map))
        ⊎ ((entry : IndexEntry) × (c.entries.get hash s.index.map ≡ some entry)
            × (free_blocks entry.blocks s.allocator ≡ done tt s'.allocator)
            × (s'.index.map ≡ c.entries.remove hash s.index.map))
  unfolding delete parse_prefix_hash Index.remove answer_delete
  delete_taken hash s s' reply ran = elim (Bool-cases (length hash == 16)) [
    | inr short ↦ absurd (ground arith)
    | inl long ↦ elim (Option-cases (c.entries.get hash s.index.map)) [
      | inl absent ↦ inl (ground arith, ground arith)
      | inr (entry, found) ↦ elim (Option-cases (Eviction.discard hash s.index.lru)) [
        | inl broken ↦ absurd (ground arith)
        | inr (lru, cut) ↦ elim (Outcome-cases (free_blocks entry.blocks s.allocator)) [
          | inl (a, broken) ↦ absurd (ground arith)
          | inr (tt, a, freed) ↦ inr (entry, found, ground (arith, freed), ground arith)
        ]
      ]
    ]
  ]
