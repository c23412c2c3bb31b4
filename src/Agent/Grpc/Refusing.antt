-- ===== src/Agent/Grpc/Refusing.antt =====
-- How `store` of crates/cmx-agent/src/grpc.rs answers any stream.
use cmx_rdma.Base.{
  ℕ, ◌+◌, ◌<◌, ◌≤◌, ◌≡◌, refl, ◌∙◌, ◌⊎◌, inl, inr, true, false, none, List, [], ◌∷◌, arith,
  bytes_eq, ltb, leb, length, Bytes, Bool-cases, dec_lt, ◌==◌,
}
use cmx_rdma.Base.Outcome.{done}
use cmx_rdma.Memory.Pool.{u32}
use cmx_rdma.BlockStore.Block.{header_size}
use cmx_rdma.BlockStore.Allocator.{allocate_and_write}
use cmx_rdma.BlockStore.Allocator.Integrity.{
  allocate_and_write_exhausted, allocate_and_write_too_large,
}
use cmx_rdma.Agent.Crates.{Key, Crates}
use cmx_rdma.Agent.Service.{
  Status, Reply, ok, err, resource_exhausted, invalid_argument, transport, Service,
  parse_prefix_hash, composite_key,
}
use cmx_rdma.Agent.Grpc.Store.{
  StoreHeader, Message, header, chunk, no_payload, failed, collect_chunks, isize_max, store_block,
  store_data, store_stream, store, pressure_reject,
}
use cmx_rdma.Agent.Grpc.Serving.{IsService}
use cmx_rdma.Agent.Grpc.Storing.{Stored, store_reaches_block, store-Stored}

-- A stream whose header announces a size that a vector can have.
abbrev pub IsModest : List Message → Type 0
IsModest (header h ∷ rest) = h.total_size ≤ isize_max
IsModest [] = Unit {0}
IsModest (chunk bytes ∷ rest) = Unit {0}
IsModest (no_payload ∷ rest) = Unit {0}
IsModest (failed ∷ rest) = Unit {0}

Reply-cases : {A : Type 0} (r : Reply A) → ((a : A) × (r ≡ ok a)) ⊎ ((e : Status) × (r ≡ err e))
Reply-cases (ok a) = inl (a, refl)
Reply-cases (err e) = inr (e, refl)

module _ (c : Crates) (s : Service c) where
  store_block-none :
      (now : ℕ) (key : Key) (bytes : Bytes)
      → allocate_and_write c.crc c.padding bytes s.allocator ≡ done none s.allocator
      → store_block c now key bytes s ≡ done (err (resource_exhausted "memory pool exhausted")) s
  unfolding store_block
  store_block-none now key bytes e = rw (e, store_block)

  -- A store that is refused, with the state that it was given.
  abbrev pub Refused : ℕ → List Message → Type 0
  Refused now stream = (e : Status) × (store c now stream s ≡ done (err e) s)

  module _ (ks : List Key) (live : List ℕ) (v : IsService c s ks live) where
    -- A store that succeeds, with what it leaves behind.
    abbrev pub Accepted : ℕ → List Message → Type 0
    Accepted now stream =
        (h : StoreHeader) × (rest : List Message) × (bytes : Bytes) × (i : ℕ) × (s' : Service c)
        × (stream ≡ header h ∷ rest)
        × (collect_chunks [] rest ≡ ok bytes)
        × (store c now stream s
            ≡ done (ok (record { success = true; generation_id = s.allocator.generation })) s')
        × Stored c s ks live v bytes (composite_key c.sha256 h.model_id h.prefix_hash) i s'

    pub Refused-above :
        (now : ℕ) (stream : List Message) → pressure_reject ≤ s.pressure_level → Refused now stream
    unfolding store
    Refused-above now stream h =
        let above : leb pressure_reject s.pressure_level ≡ true = ground arith in
        (resource_exhausted "memory pressure too high — store rejected", rw above refl)

    pub Refused-parse :
        (now : ℕ) (h : StoreHeader) (rest : List Message)
        → s.pressure_level < 3
        → (length h.prefix_hash == 16) ≡ false
        → Refused now (header h ∷ rest)
    unfolding store store_stream store_data parse_prefix_hash
    Refused-parse now h rest calm bad =
        let below : leb pressure_reject s.pressure_level ≡ false = ground arith in
        (
          invalid_argument "prefix_hash must be exactly 16 bytes",
          rw (below, store_stream, store_data, bad),
        )

    Refused-collect :
        (now : ℕ) (h : StoreHeader) (rest : List Message) (e : Status)
        → s.pressure_level < 3
        → length h.prefix_hash ≡ 16
        → h.total_size ≤ isize_max
        → collect_chunks [] rest ≡ err e
        → Refused now (header h ∷ rest)
    unfolding store store_stream store_data parse_prefix_hash
    Refused-collect now h rest e calm sixteen modest broken =
        let below : leb pressure_reject s.pressure_level ≡ false = ground arith in
        let long : (length h.prefix_hash == 16) ≡ true = ground arith in
        let sized : ltb isize_max h.total_size ≡ false = ground arith in
        (e, rw (below, store_stream, store_data, parse_prefix_hash, long, sized, broken))

    answered_data :
        (now : ℕ) (h : StoreHeader) (rest : List Message) (bytes : Bytes)
        → s.allocator.pool.block_size ≤ u32
        → s.pressure_level < 3
        → length h.prefix_hash ≡ 16
        → h.total_size ≤ isize_max
        → collect_chunks [] rest ≡ ok bytes
        → Refused now (header h ∷ rest) ⊎ Accepted now (header h ∷ rest)
    answered_data now h rest bytes small calm sixteen modest collected =
        let reached = store_reaches_block c s now h rest bytes calm sixteen modest collected in
        let key = composite_key c.sha256 h.model_id h.prefix_hash in
        let a = v.allocator in
        elim (dec_lt s.allocator.pool.block_size (header_size + length bytes)) [
          | yes large ↦ inl (
            _,
            reached
                ∙ store_block-none now key bytes (
                    allocate_and_write_too_large c.crc c.padding c.padding_size s.allocator live a
                      bytes large),
          )
          | no fits ↦ elim (dec_lt (length live) s.allocator.pool.total_blocks) [
            | yes spare ↦
                let (i, s', ran, after) =
                  store-Stored c s ks live v bytes now h rest calm sixteen modest collected
                    (omega arith) (omega arith) spare in
                inr (h, rest, bytes, i, s', refl, collected, ran, after)
            | no full ↦ inl (
              _,
              reached
                  ∙ store_block-none now key bytes (
                      allocate_and_write_exhausted c.crc c.padding c.padding_size s.allocator live a
                        bytes (omega (arith, a.owns.counted))),
            )
          ]
        ]

    -- From a state that satisfies the invariant, with blocks of at most 2^32 bytes, `store` answers
    -- every stream whose header does not announce more than `isize::MAX` bytes, without a panic: with
    -- an error, and the state is as it was; or with a success, and what the chunks of the stream hold is
    -- stored under the key of its header.
    pub store_answers :
        (now : ℕ) (stream : List Message)
        → s.allocator.pool.block_size ≤ u32
        → IsModest stream
        → Refused now stream ⊎ Accepted now stream
    unfolding store store_stream
    store_answers now stream small modest = elim (dec_lt s.pressure_level 3) [
      | no above ↦ inl (Refused-above now stream (omega arith))
      | yes calm ↦ below calm stream modest
    ]
      where
        refuse : s.pressure_level < 3 → leb pressure_reject s.pressure_level ≡ false
        refuse calm = ground arith

        below :
            s.pressure_level < 3
            → (stream : List Message) → IsModest stream
            → Refused now stream ⊎ Accepted now stream
        below calm [] m = inl (invalid_argument "empty stream", rw (refuse calm) refl)
        below calm (chunk bytes ∷ rest) m =
            inl (invalid_argument "first message must be a header", rw (refuse calm) refl)
        below calm (no_payload ∷ rest) m =
            inl (invalid_argument "first message must be a header", rw (refuse calm) refl)
        below calm (failed ∷ rest) m = inl (transport, rw (refuse calm) refl)
        below calm (header h ∷ rest) m = elim (Bool-cases (length h.prefix_hash == 16)) [
          | inr bad ↦ inl (Refused-parse now h rest calm bad)
          | inl long ↦ elim (Reply-cases (collect_chunks [] rest)) [
            | inr (e, broken) ↦ inl (Refused-collect now h rest e calm (ground arith) m broken)
            | inl (bytes, collected) ↦
                answered_data now h rest bytes small calm (ground arith) m collected
          ]
        ]
