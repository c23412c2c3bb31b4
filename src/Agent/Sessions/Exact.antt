-- ===== src/Agent/Sessions/Exact.antt =====
-- With an index that may have as many entries as the pool has blocks, which is what
-- crates/cmx-agent/src/main.rs chooses, the cache loses nothing: it is a map.
use cmx_rdma.Base.{
  ◌<◌, ℕ, suc, ◌≤◌, ◌≡◌, ◌≢◌, refl, ◌∙◌, sym, inl, inr, false, none, some, List, [], ◌∷◌, arith,
  has, bytes_eq, same, eq-of-same, nat_eq, length, Bool-cases, Option-cases, Bytes,
}
use cmx_rdma.Base.Outcome.{done}
use cmx_rdma.BlockStore.Block
use cmx_rdma.BlockStore.Index.{IndexEntry}
use cmx_rdma.BlockStore.Index.Refines.{dropped}
use cmx_rdma.Agent.Crates.{Key, Crates}
use cmx_rdma.Agent.Floats.{Floats}
use cmx_rdma.Agent.Pressure.{Thresholds}
use cmx_rdma.Agent.Service.{ok, err, not_found, Service, composite_key}
use cmx_rdma.Agent.Grpc.Fetch.{GetRequest, get, send_entry}
use cmx_rdma.Agent.Grpc.Serving.{entry_at, IsService}
use cmx_rdma.Agent.Grpc.Storing.{Stored}
use cmx_rdma.Agent.Grpc.Deleting.{Deleted}
use cmx_rdma.Agent.Grpc.Filling.{dropped-nil}
use cmx_rdma.Agent.Grpc.Reading.{one_block, get-Serves, get_missing}
use cmx_rdma.Agent.Sessions.{Option, Event, Latest, set, step, learn, run, learned}
use cmx_rdma.Agent.Sessions.Steps.{Quiet}
use cmx_rdma.Agent.Sessions.Effects.{Effect, quiet, writes, frees, step-Effect}
use cmx_rdma.Agent.Sessions.Faithful.{IsSession, Effect-IsSession, run-IsSession}

module _ (c : Crates) where
  -- The answer of `get` when `stored` is stored under its key: `not_found`, or else a receiver that takes two
  -- messages at least sees a header and exactly the bytes.
  abbrev pub Answers : GetRequest → (room : ℕ) → Service c → (stored : Option Bytes) → Type 0
  Answers req room s none =
      (s₂ : Service c) × (get c req s ≡ done (err (not_found "prefix hash not found in cache")) s₂)
  Answers req room s (some bytes) =
      (e : IndexEntry) × (loc : Block.BlockLocation) × (s₂ : Service c) × (get c req s
        ≡ done (ok e) s₂)
      × (send_entry c (suc (suc room)) (λ n. s₂.allocator) e ≡ one_block c loc bytes)

  -- What the index has not, was not stored; and there is an entry for every block.
  pub record IsExact (s : Service c) (latest : Latest) : Type 0 where
    pub complete : (k : Key) → entry_at c k s ≡ none → latest k ≡ none
    pub large : s.allocator.pool.total_blocks ≤ s.index.capacity

  module _ (s : Service c) (ks : List Key) (live : List ℕ) (v : IsService c s ks live)
      (latest : Latest) (x : IsExact s latest) where
    Stored-IsExact :
        (key : Key) (bytes : Bytes) (i : ℕ) (s' : Service c)
        → Stored c s ks live v bytes key i s'
        → IsExact s' (set key (some bytes) latest)
    Stored-IsExact key bytes i s' after = record {
      complete = λ j absent. elim (Bool-cases (same key j)) [
        | inl same_key ↦
            let is_key : key ≡ j = eq-of-same key j same_key in
            absurd (
              let gone : entry_at c key s' ≡ none = rw is_key absent in
              ground (arith, after.serves.found))
        | inr other ↦
            let apart : key ≢ j = λ h. ground arith in
            let spare : length live < s.allocator.pool.total_blocks =
              omega (arith, after.service.allocator.owns.counted, after.same_total) in
            let stays : has j (dropped c.entries s.index key ks) ≡ false =
              rw (dropped-nil c s ks live v key spare x.large) refl in
            rw other (x.complete j (sym (after.unchanged j apart stays) ∙ absent))
      ];
      large = omega (arith, after.same_total, after.same_capacity, x.large);
    }

    Deleted-IsExact :
        (hash : Key) (i : ℕ) (s' : Service c)
        → Deleted c s ks live v hash i s'
        → IsExact s' (set hash none latest)
    Deleted-IsExact hash i s' after = record {
      complete = λ j absent. elim (Bool-cases (same hash j)) [
        | inl same_key ↦ rw same_key refl
        | inr other ↦
            let apart : hash ≢ j = λ h. ground arith in
            rw other (x.complete j (sym (after.kept j apart) ∙ absent))
      ];
      large = omega (arith, after.same_total, after.same_capacity, x.large);
    }

    Quiet-IsExact :
        (s' : Service c) (latest' : Latest)
        → Quiet c s s'
        → ((k : Key) → latest k ≡ none → latest' k ≡ none)
        → IsExact s' latest'
    Quiet-IsExact s' latest' q unknown = record {
      complete = λ k absent. unknown k (x.complete k (rw (← q.map) absent));
      large = rw (q.allocator, q.capacity) x.large;
    }

  module _ (F : Floats) (t : Thresholds F) where
    Effect-IsExact :
        (s : Service c) (latest : Latest) (e : Event) (h : IsSession c s latest)
        → IsExact s latest
        → Effect c F t s h.keys h.live h.service e
        → IsExact (step c F t e s) (learn c F t e s latest)
    Effect-IsExact s latest e h x (quiet q _ unknown) =
        Quiet-IsExact s h.keys h.live h.service latest x (step c F t e s) (learn c F t e s latest) q
          (unknown latest)
    Effect-IsExact s latest e h x (writes key bytes i after known) =
        rw (known latest)
          (Stored-IsExact s h.keys h.live h.service latest x key bytes i (step c F t e s) after)
    Effect-IsExact s latest e h x (frees hash i old is_delete found held after known) =
        rw (known latest)
          (Deleted-IsExact s h.keys h.live h.service latest x hash i (step c F t e s) after)

    run-IsExact :
        (events : List Event) (s : Service c) (latest : Latest)
        → IsSession c s latest
        → IsExact s latest
        → IsExact (run c F t events s) (learned c F t events s latest)
    run-IsExact [] s latest h x = x
    run-IsExact (e ∷ events) s latest h x =
        let effect = step-Effect c F t s h.keys h.live h.service e h.small in
        run-IsExact events (step c F t e s) (learn c F t e s latest)
          (Effect-IsSession c F t s latest e h effect) (Effect-IsExact s latest e h x effect)

    -- When the index may have as many entries as the pool has blocks, every sequence of requests and ticks
    -- leaves a cache that is a map: for a prefix hash of 16 bytes and a model, a request to get the data
    -- is answered by what is stored under them, by a store that succeeded with no deletion since.
    pub get-exact :
        (events : List Event) (s : Service c) (latest : Latest) (req : GetRequest) (room : ℕ)
        → IsSession c s latest
        → IsExact s latest
        → length req.prefix_hash ≡ 16
        → Answers req room
            (run c F t events s)
            (learned c F t events s latest (composite_key c.sha256 req.model_id req.prefix_hash))
    get-exact events s latest req room h x sixteen =
        let s₁ = run c F t events s in
        let latest₁ = learned c F t events s latest in
        let h₁ = run-IsSession c F t events s latest h in
        let x₁ = run-IsExact events s latest h x in
        let key = composite_key c.sha256 req.model_id req.prefix_hash in
        elim (Option-cases (entry_at c key s₁)) [
          | inl absent ↦
              rw (x₁.complete key absent)
                (_, get_missing c s₁ h₁.keys h₁.live req h₁.service sixteen absent)
          | inr (e, found) ↦
              let (bytes, known, served) = h₁.faithful key e found in
              let (e', loc, s₂, got, sent, _, _) =
                get-Serves c s₁ h₁.keys h₁.live req bytes room h₁.service sixteen served in
              rw known (e', loc, s₂, got, sent)
        ]
