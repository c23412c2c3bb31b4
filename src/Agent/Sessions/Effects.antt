-- ===== src/Agent/Sessions/Effects.antt =====
-- The three things that an event can do to the service of crates/cmx-agent/src/grpc.rs: nothing to its
-- blocks and entries, a store, or a deletion.
use cmx_rdma.Base.{
  eq-of-same, ℕ, ◌<◌, ◌≤◌, ◌≡◌, refl, ◌⊎◌, inl, inr, true, false, none, some, List, [], ◌∷◌, arith,
  has, bytes_eq, same, nat_eq, ltb, leb, ◌==◌, length, Bool-cases, Option-cases, dec_lt, Bytes,
}
use cmx_rdma.Base.Outcome.{panic}
use cmx_rdma.Memory.Pool.{u32}
use cmx_rdma.BlockStore.Index.{IndexEntry}
use cmx_rdma.BlockStore.Index.Evict.{IsIndex}
use cmx_rdma.Agent.Crates.{Key, Crates}
use cmx_rdma.Agent.Floats.{Floats}
use cmx_rdma.Agent.Pressure.{Thresholds, tick}
use cmx_rdma.Agent.Service.{invalid_argument, ok, err, Service, parse_prefix_hash, composite_key}
use cmx_rdma.Agent.Grpc.Store.{
  StoreHeader, Message, header, chunk, no_payload, failed, isize_max, store, store_stream,
  store_data, pressure_reject,
}
use cmx_rdma.Agent.Grpc.Lookup.{BatchLookupRequest, batch_lookup}
use cmx_rdma.Agent.Grpc.Admin.{delete}
use cmx_rdma.Agent.Grpc.Serving.{entry_at, IsService}
use cmx_rdma.Agent.Grpc.Storing.{Stored}
use cmx_rdma.Agent.Grpc.Deleting.{Deleted, delete-Deleted, delete_absent}
use cmx_rdma.Agent.Grpc.Refusing.{
  IsModest, Refused, Accepted, Refused-above, Refused-parse, store_answers,
}
use cmx_rdma.Agent.Sessions.{
  Event, stores, gets, looks_up, looks_up_all, deletes, ticks, state_after, Latest, set, step,
  learn,
}
use cmx_rdma.Agent.Sessions.Steps.{Quiet, Quiet-refl, get-Quiet, lookup-Quiet, batch_loop-Quiet}

module _ (c : Crates) (F : Floats) (t : Thresholds F) (s : Service c) (ks : List Key)
    (live : List ℕ) (v : IsService c s ks live) where
  pub data Effect (e : Event) : Type 0 where
    quiet :
        Quiet c s (step c F t e s)
        → ((latest : Latest) (k : Key) (entry : IndexEntry)
            → entry_at c k s ≡ some entry
            → learn c F t e s latest k ≡ latest k)
        → ((latest : Latest) (k : Key) → latest k ≡ none → learn c F t e s latest k ≡ none)
        → Effect e
    writes :
        (key : Key) (bytes : Bytes) (i : ℕ)
        → Stored c s ks live v bytes key i (step c F t e s)
        → ((latest : Latest) → learn c F t e s latest ≡ set key (some bytes) latest)
        → Effect e
    frees :
        (hash : Key) (i : ℕ) (old : IndexEntry)
        → e ≡ deletes hash
        → entry_at c hash s ≡ some old
        → (has i live ≡ true)
        → Deleted c s ks live v hash i (step c F t e s)
        → ((latest : Latest) → learn c F t e s latest ≡ set hash none latest)
        → Effect e

  indexed : (js : List Key) × IsIndex c.entries s.index js
  indexed = (ks, v.index)

  -- A store that ends with an error or a panic and leaves the state.
  refused :
      (now : ℕ) (stream : List Message)
      → (store c now stream s ≡ panic s) ⊎ Refused c s now stream
      → Effect (stores now stream)
  refused now stream (inl h) =
      quiet (rw h (Quiet-refl c s indexed)) (λ latest k entry found. rw h refl)
        (λ latest k unknown. rw h unknown)
  refused now stream (inr (e, h)) =
      quiet (rw h (Quiet-refl c s indexed)) (λ latest k entry found. rw h refl)
        (λ latest k unknown. rw h unknown)

  accepted :
      (now : ℕ) (stream : List Message)
      → Accepted c s ks live v now stream
      → Effect (stores now stream)
  accepted now stream (h, rest, bytes, i, s', same_stream, collected, ran, after) =
      writes (composite_key c.sha256 h.model_id h.prefix_hash) bytes i (rw ran after)
        (λ latest. rw (ran, same_stream, collected) refl)

  -- A header that announces more than a vector can have.
  immodest :
      (now : ℕ) (h : StoreHeader) (rest : List Message)
      → isize_max < h.total_size
      → (store c now (header h ∷ rest) s ≡ panic s) ⊎ Refused c s now (header h ∷ rest)
  unfolding store store_stream store_data parse_prefix_hash
  immodest now h rest large = elim (dec_lt s.pressure_level 3) [
    | no above ↦ inr (Refused-above c s ks live v now (header h ∷ rest) (omega arith))
    | yes calm ↦ elim (Bool-cases (length h.prefix_hash == 16)) [
      | inr bad ↦ inr (Refused-parse c s ks live v now h rest calm bad)
      | inl long ↦
          let below : leb pressure_reject s.pressure_level ≡ false = ground arith in
          let sized : ltb isize_max h.total_size ≡ true = ground arith in
          inl (rw (below, store_stream, store_data, long, sized) refl)
    ]
  ]

  store-Effect :
      (now : ℕ) (stream : List Message)
      → s.allocator.pool.block_size ≤ u32
      → Effect (stores now stream)
  store-Effect now stream small = modest_or stream (λ m. answer stream m)
    where
      answer : (stream : List Message) → IsModest stream → Effect (stores now stream)
      answer stream m = elim (store_answers c s ks live v now stream small m) [
        | inl no_store ↦ refused now stream (inr no_store)
        | inr success ↦ accepted now stream success
      ]

      modest_or :
          (stream : List Message)
          → (IsModest stream → Effect (stores now stream))
          → Effect (stores now stream)
      modest_or [] go = go tt
      modest_or (chunk bytes ∷ rest) go = go tt
      modest_or (no_payload ∷ rest) go = go tt
      modest_or (failed ∷ rest) go = go tt
      modest_or (header h ∷ rest) go = elim (dec_lt isize_max h.total_size) [
        | yes large ↦ refused now (header h ∷ rest) (immodest now h rest large)
        | no modest ↦ go (omega arith)
      ]

  short_hash :
      (hash : Bytes)
      → (length hash == 16) ≡ false
      → (parse_prefix_hash hash ≡ err (invalid_argument "prefix_hash must be exactly 16 bytes"))
        × (state_after (delete c hash s) ≡ s)
  unfolding delete parse_prefix_hash
  short_hash hash bad = (rw bad refl, rw (bad, delete) refl)

  long_hash : (hash : Bytes) → (length hash == 16) ≡ true → parse_prefix_hash hash ≡ ok hash
  unfolding parse_prefix_hash
  long_hash hash long = rw long refl

  set-other :
      (hash : Key) (entry : IndexEntry) (latest : Latest) (k : Key)
      → entry_at c hash s ≡ none
      → entry_at c k s ≡ some entry
      → set hash none latest k ≡ latest k
  set-other hash entry latest k absent found = elim (Bool-cases (same hash k)) [
    | inl same_key ↦ absurd (
        let e : hash ≡ k = eq-of-same hash k same_key in
        let found' : entry_at c hash s ≡ some entry = rw e found in ground arith)
    | inr other ↦ rw other refl
  ]

  set-none :
      (hash : Key) (latest : Latest) (k : Key) → latest k ≡ none → set hash none latest k ≡ none
  set-none hash latest k unknown = elim (Bool-cases (same hash k)) [
    | inl same_key ↦ rw same_key refl
    | inr other ↦ rw other unknown
  ]

  delete-Effect : (hash : Bytes) → Effect (deletes hash)
  delete-Effect hash = elim (Bool-cases (length hash == 16)) [
    | inr bad ↦
        let (parsed, same_state) = short_hash hash bad in
        quiet (rw same_state (Quiet-refl c s indexed)) (λ latest k entry found. rw parsed refl)
          (λ latest k unknown. rw parsed unknown)
    | inl long ↦ elim (Option-cases (entry_at c hash s)) [
      | inl absent ↦
          let ran = delete_absent c s ks live v hash absent (ground arith) in
          quiet (rw ran (Quiet-refl c s indexed))
            (λ latest k entry found.
              rw (long_hash hash long) (set-other hash entry latest k absent found))
            (λ latest k unknown. rw (long_hash hash long) (set-none hash latest k unknown))
      | inr (e, found) ↦
          let (i, s', ran, held, gone) = delete-Deleted c s ks live v hash e found (ground arith) in
          frees hash i e refl found held (rw ran gone) (λ latest. rw (long_hash hash long) refl)
    ]
  ]

  tick-Quiet : Quiet c s (tick F t s)
  unfolding tick
  tick-Quiet = record { allocator = refl; map = refl; capacity = refl; indexed = indexed }

  lookups-Quiet : (req : BatchLookupRequest) → Quiet c s (state_after (batch_lookup c req s))
  unfolding batch_lookup
  lookups-Quiet req =
      batch_loop-Quiet c req.model_id req.prefix_hashes (record { found = []; blocks = [] }) s
        indexed

  -- From a state that satisfies the invariant, with blocks of at most 2^32 bytes, every event has one
  -- of the three effects.
  pub step-Effect : (e : Event) → s.allocator.pool.block_size ≤ u32 → Effect e
  step-Effect (stores now stream) small = store-Effect now stream small
  step-Effect (gets req) small =
      quiet (get-Quiet c req s indexed) (λ latest k entry found. refl) (λ latest k unknown. unknown)
  step-Effect (looks_up req) small =
      quiet (lookup-Quiet c req s indexed) (λ latest k entry found. refl)
        (λ latest k unknown. unknown)
  step-Effect (looks_up_all req) small =
      quiet (lookups-Quiet req) (λ latest k entry found. refl) (λ latest k unknown. unknown)
  step-Effect (deletes hash) small = delete-Effect hash
  step-Effect ticks small =
      quiet tick-Quiet (λ latest k entry found. refl) (λ latest k unknown. unknown)
