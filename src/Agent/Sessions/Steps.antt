-- ===== src/Agent/Sessions/Steps.antt =====
-- What one event does to the service of crates/cmx-agent/src/grpc.rs.
use cmx_rdma.Base.{
  ℕ, ◌≡◌, refl, ◌∙◌, inl, inr, Bool, true, false, Option, none, some, List, [], ◌∷◌, bytes_eq,
  nat_eq, ◌==◌, length, Bool-cases, Option-cases, Bytes, if◌then◌else◌,
}
use cmx_rdma.BlockStore.Index
use cmx_rdma.BlockStore.Index.{IndexEntry, BlockIndex}
use cmx_rdma.BlockStore.Index.Evict.{IsIndex}
use cmx_rdma.Agent.Crates.{Key, Crates}
use cmx_rdma.Agent.Service.{Service, hit, miss, parse_prefix_hash, composite_key}
use cmx_rdma.Agent.Grpc.Fetch.{GetRequest, answer_get, get}
use cmx_rdma.Agent.Grpc.Lookup.{
  remote_block, LookupRequest, BatchLookupResponse, answer_lookup, lookup_key, lookup, batch_one,
  batch_loop,
}
use cmx_rdma.Agent.Grpc.Serving.{entry_at, IsService}
use cmx_rdma.Agent.Grpc.Looked.{Indexed, IsIndex-lookup}
use cmx_rdma.Agent.Sessions.{state_after}

module _ (c : Crates) where
  -- Blocks and entries are as they were.
  pub record Quiet (s s' : Service c) : Type 0 where
    pub allocator : s'.allocator ≡ s.allocator
    pub map : s'.index.map ≡ s.index.map
    pub capacity : s'.index.capacity ≡ s.index.capacity
    pub indexed : Indexed c s'

  pub Quiet-refl : (s : Service c) → Indexed c s → Quiet s s
  Quiet-refl s i = record { allocator = refl; map = refl; capacity = refl; indexed = i }

  Quiet-trans : (s s' s'' : Service c) → Quiet s s' → Quiet s' s'' → Quiet s s''
  Quiet-trans s s' s'' q r = record {
    allocator = r.allocator ∙ q.allocator;
    map = r.map ∙ q.map;
    capacity = r.capacity ∙ q.capacity;
    indexed = r.indexed;
  }

  -- A quiet step keeps the invariant.
  pub Quiet-IsService :
      (s s' : Service c) (ks : List Key) (live : List ℕ)
      → IsService c s ks live
      → Quiet s s'
      → (ks' : List Key) × IsService c s' ks' live
  Quiet-IsService s s' ks live v q = (
    q.indexed.0,
    record {
      allocator = rw q.allocator v.allocator;
      index = q.indexed.1;
      first_pool = rw q.allocator v.first_pool;
      backed = λ k e at. rw q.allocator (v.backed k e (rw (← q.map) at));
      apart = λ k j e f at at'. v.apart k j e f (rw (← q.map) at) (rw (← q.map) at');
    },
  )

  Quiet-count :
      (s : Service c) (k : Key) (b : Bool)
      → Indexed c s
      → (index : BlockIndex c.entries) → index.map ≡ s.index.map
      → index.capacity ≡ s.index.capacity
      → ((ks : List Key) × IsIndex c.entries index ks)
      → Quiet s (if b then hit (record s { index = index }) else miss (record s { index = index }))
  unfolding hit miss
  Quiet-count s k true i index same_map same_capacity i' = record {
    allocator = refl;
    map = same_map;
    capacity = same_capacity;
    indexed = i';
  }
  Quiet-count s k false i index same_map same_capacity i' = record {
    allocator = refl;
    map = same_map;
    capacity = same_capacity;
    indexed = i';
  }

  answer_get-state :
      (found : Option IndexEntry) (s : Service c)
      → (b : Bool) × ((answer_get c found s).1 ≡ (if b then hit s else miss s))
  unfolding answer_get
  answer_get-state none s = (false, refl)
  answer_get-state (some e) s = (true, refl)

  pub get-Quiet :
      (req : GetRequest) (s : Service c) → Indexed c s → Quiet s (state_after (get c req s))
  unfolding get parse_prefix_hash
  get-Quiet req s i = elim (Bool-cases (length req.prefix_hash == 16)) [
    | inr bad ↦ rw (bad, get) (Quiet-refl s i)
    | inl long ↦
        let key = composite_key c.sha256 req.model_id req.prefix_hash in
        let (index, looked, i', same_map, same_capacity) = IsIndex-lookup c s key i in
        let (b, state) = answer_get-state (entry_at c key s) (record s { index = index }) in
        rw (long, get, looked, state) (Quiet-count s key b i index same_map same_capacity i')
  ]

  answer_lookup-state :
      (key : Key) (found : Option IndexEntry) (s : Service c)
      → (b : Bool) × ((answer_lookup c key found s).1 ≡ (if b then hit s else miss s))
  unfolding answer_lookup
  answer_lookup-state key (some e) s = (true, refl)
  answer_lookup-state key none s = elim (Option-cases (remote_block c key s)) [
    | inl unknown ↦ (false, rw (unknown, answer_lookup) refl)
    | inr (info, known) ↦ (true, rw (known, answer_lookup) refl)
  ]

  pub lookup-Quiet :
      (req : LookupRequest) (s : Service c) → Indexed c s → Quiet s (state_after (lookup c req s))
  unfolding lookup lookup_key parse_prefix_hash
  lookup-Quiet req s i = elim (Bool-cases (length req.prefix_hash == 16)) [
    | inr bad ↦ rw (bad, lookup) (Quiet-refl s i)
    | inl long ↦
        let key = composite_key c.sha256 req.model_id req.prefix_hash in
        let (index, looked, i', same_map, same_capacity) = IsIndex-lookup c s key i in
        let (b, state) = answer_lookup-state key (entry_at c key s) (record s { index = index }) in
        rw (long, lookup, lookup_key, looked, state)
          (Quiet-count s key b i index same_map same_capacity i')
  ]

  batch_one-state :
      (found : Option IndexEntry) (r : BatchLookupResponse) (s : Service c)
      → (b : Bool) × ((batch_one c found r s).1 ≡ (if b then hit s else miss s))
  unfolding batch_one
  batch_one-state none r s = (false, refl)
  batch_one-state (some e) r s = (true, refl)

  batch_loop-next :
      (model_id hash : Bytes) (rest : List Bytes) (r : BatchLookupResponse) (s : Service c)
      (found : Option IndexEntry) (index : BlockIndex c.entries)
      → (length hash == 16) ≡ true
      → Index.lookup c.entries (composite_key c.sha256 model_id hash) s.index ≡ some (found, index)
      → batch_loop c model_id (hash ∷ rest) r s ≡ (
          let x = batch_one c found r (record s { index = index }) in
          batch_loop c model_id rest x.0 x.1)
  unfolding batch_loop parse_prefix_hash
  batch_loop-next model_id hash rest r s found index long looked =
      rw (long, batch_loop, looked) refl

  pub batch_loop-Quiet :
      (model_id : Bytes) (hashes : List Bytes) (r : BatchLookupResponse) (s : Service c)
      → Indexed c s
      → Quiet s (state_after (batch_loop c model_id hashes r s))
  unfolding batch_loop parse_prefix_hash
  batch_loop-Quiet model_id [] r s i = Quiet-refl s i
  batch_loop-Quiet model_id (hash ∷ rest) r s i = elim (Bool-cases (length hash == 16)) [
    | inr bad ↦ rw (bad, batch_loop) (Quiet-refl s i)
    | inl long ↦
        let key = composite_key c.sha256 model_id hash in
        let found = entry_at c key s in
        let (index, looked, i', same_map, same_capacity) = IsIndex-lookup c s key i in
        let s₀ : Service c = record s { index = index } in
        let (b, state) = batch_one-state found r s₀ in
        let one : Quiet s (batch_one c found r s₀).1 =
          rw state (Quiet-count s key b i index same_map same_capacity i') in
        rw (batch_loop-next model_id hash rest r s found index long looked) (
          Quiet-trans s (batch_one c found r s₀).1
            (state_after
              (batch_loop c model_id rest (batch_one c found r s₀).0 (batch_one c found r s₀).1))
            one
            (batch_loop-Quiet model_id rest (batch_one c found r s₀).0 (batch_one c found r s₀).1
              one.indexed))
  ]
