-- ===== src/Agent/Sessions/Faithful.antt =====
-- The cache of crates/cmx-agent/src/grpc.rs never gives back anything but what was stored last.
use cmx_rdma.Base.{
  ℕ, ◌≤◌, ◌≡◌, ◌≢◌, refl, ◌∙◌, sym, ◌⊎◌, inl, inr, none, some, List, [], ◌∷◌, arith, bytes_eq, same,
  eq-of-same, nat_eq, length, Bool-cases, Option-cases, Bytes, erase, suc,
}
use cmx_rdma.Base.Outcome.{done}
use cmx_rdma.Memory.Pool.{u32}
use cmx_rdma.BlockStore.Block
use cmx_rdma.BlockStore.Index.{IndexEntry}
use cmx_rdma.Agent.Crates.{Key, Crates}
use cmx_rdma.Agent.Floats.{Floats}
use cmx_rdma.Agent.Pressure.{Thresholds}
use cmx_rdma.Agent.Service.{ok, err, not_found, Service, composite_key}
use cmx_rdma.Agent.Grpc.Fetch.{GetRequest, get, send_entry}
use cmx_rdma.Agent.Grpc.Serving.{entry_at, IsService, Serves}
use cmx_rdma.Agent.Grpc.Storing.{Stored}
use cmx_rdma.Agent.Grpc.Deleting.{Deleted}
use cmx_rdma.Agent.Grpc.Reading.{one_block, get-Serves, get_missing}
use cmx_rdma.Agent.Sessions.{Event, Latest, set, step, learn, run, learned}
use cmx_rdma.Agent.Sessions.Steps.{Quiet, Quiet-IsService}
use cmx_rdma.Agent.Sessions.Effects.{Effect, quiet, writes, frees, step-Effect}

module _ (c : Crates) where
  -- Every entry of the index serves what was stored last under its key.
  abbrev pub IsFaithful : Service c → Latest → Type 0
  IsFaithful s latest =
      (k : Key) (e : IndexEntry)
      → entry_at c k s ≡ some e
      → (bytes : Bytes) × (latest k ≡ some bytes) × Serves c s k bytes

  -- The invariant of a run.
  pub record IsSession (s : Service c) (latest : Latest) : Type 0 where
    pub keys : List Key
    pub live : List ℕ
    pub service : IsService c s keys live
    pub faithful : IsFaithful s latest
    pub small : s.allocator.pool.block_size ≤ u32

  Serves-Quiet :
      (s s' : Service c) (k : Key) (bytes : Bytes)
      → Quiet c s s'
      → Serves c s k bytes
      → Serves c s' k bytes
  Serves-Quiet s s' k bytes q served = record {
    entry = served.entry;
    loc = served.loc;
    found = rw q.map served.found;
    single = served.single;
    intact = rw q.allocator served.intact;
  }

  module _ (s : Service c) (ks : List Key) (live : List ℕ) (v : IsService c s ks live)
      (latest : Latest) (f : IsFaithful s latest) where
    Stored-IsFaithful :
        (key : Key) (bytes : Bytes) (i : ℕ) (s' : Service c)
        → Stored c s ks live v bytes key i s'
        → IsFaithful s' (set key (some bytes) latest)
    Stored-IsFaithful key bytes i s' after j e at = elim (Bool-cases (same key j)) [
      | inl same_key ↦
          let is_key : key ≡ j = eq-of-same key j same_key in
          (bytes, rw same_key refl, rw (← is_key) after.serves)
      | inr other ↦
          let apart : key ≢ j = λ h. ground arith in
          let (old, stays) = after.remains j e apart at in
          let (data', kept, served) = f j e old in
          (data', rw other kept, after.others j data' apart stays served)
    ]

    Deleted-IsFaithful :
        (hash : Key) (i : ℕ) (s' : Service c)
        → Deleted c s ks live v hash i s'
        → IsFaithful s' (set hash none latest)
    Deleted-IsFaithful hash i s' after j e at = elim (Bool-cases (same hash j)) [
      | inl same_key ↦
          let is_key : hash ≡ j = eq-of-same hash j same_key in
          absurd
            (let there : entry_at c hash s' ≡ some e = rw is_key at in ground (arith, after.gone))
      | inr other ↦
          let apart : hash ≢ j = λ h. ground arith in
          let (data', kept, served) = f j e (sym (after.kept j apart) ∙ at) in
          (data', rw other kept, after.others j data' apart served)
    ]

    Quiet-IsFaithful :
        (s' : Service c) (latest' : Latest)
        → Quiet c s s'
        → ((k : Key) (e : IndexEntry) → entry_at c k s ≡ some e → latest' k ≡ latest k)
        → IsFaithful s' latest'
    Quiet-IsFaithful s' latest' q same_latest j e at =
        let old : entry_at c j s ≡ some e = rw (← q.map) at in
        let (bytes, kept, served) = f j e old in
        (bytes, same_latest j e old ∙ kept, Serves-Quiet s s' j bytes q served)

  module _ (F : Floats) (t : Thresholds F) where
    pub Effect-IsSession :
        (s : Service c) (latest : Latest) (e : Event) (h : IsSession s latest)
        → Effect c F t s h.keys h.live h.service e
        → IsSession (step c F t e s) (learn c F t e s latest)
    Effect-IsSession s latest e h (quiet q same_latest _) =
        let (ks, v) = Quiet-IsService c s (step c F t e s) h.keys h.live h.service q in
        record {
          keys = ks;
          live = h.live;
          service = v;
          faithful =
              Quiet-IsFaithful s h.keys h.live h.service latest h.faithful (step c F t e s)
                (learn c F t e s latest) q (same_latest latest);
          small = rw q.allocator h.small;
        }
    Effect-IsSession s latest e h (writes key bytes i after known) = record {
      keys = _;
      live = i ∷ h.live;
      service = after.service;
      faithful = rw (known latest) (
          Stored-IsFaithful s h.keys h.live h.service latest h.faithful key bytes i (step c F t e s)
            after);
      small = rw after.same_size h.small;
    }
    Effect-IsSession s latest e h (frees hash i old is_delete found held after known) = record {
      keys = _;
      live = erase i h.live;
      service = after.service;
      faithful = rw (known latest) (
          Deleted-IsFaithful s h.keys h.live h.service latest h.faithful hash i (step c F t e s)
            after);
      small = rw after.same_size h.small;
    }

    pub run-IsSession :
        (events : List Event) (s : Service c) (latest : Latest)
        → IsSession s latest
        → IsSession (run c F t events s) (learned c F t events s latest)
    run-IsSession [] s latest h = h
    run-IsSession (e ∷ events) s latest h =
        run-IsSession events (step c F t e s) (learn c F t e s latest)
          (Effect-IsSession s latest e h (step-Effect c F t s h.keys h.live h.service e h.small))

    -- In every sequence of requests and ticks, from a session on, a request to get the data of a prefix
    -- hash of 16 bytes and a model does not panic: either the answer is `not_found`, or a receiver that takes two
    -- messages sees a header and exactly the bytes that were stored last under the hash and the model
    -- by a store that succeeded, with no deletion since.
    pub get-latest :
        (events : List Event) (s : Service c) (latest : Latest) (req : GetRequest) (room : ℕ)
        → IsSession s latest
        → length req.prefix_hash ≡ 16
        → (let s₁ = run c F t events s in
            ((s₂ : Service c) × (get c req s₁
                ≡ done (err (not_found "prefix hash not found in cache")) s₂))
            ⊎ ((bytes : Bytes) × (e : IndexEntry) × (loc : Block.BlockLocation) × (s₂ : Service c)
                × (learned c F t events s latest
                      (composite_key c.sha256 req.model_id req.prefix_hash)
                    ≡ some bytes)
                × (get c req s₁ ≡ done (ok e) s₂)
                × (send_entry c (suc (suc room)) (λ n. s₂.allocator) e ≡ one_block c loc bytes)))
    get-latest events s latest req room h sixteen =
        let s₁ = run c F t events s in
        let h₁ = run-IsSession events s latest h in
        let key = composite_key c.sha256 req.model_id req.prefix_hash in
        elim (Option-cases (entry_at c key s₁)) [
          | inl absent ↦ inl (_, get_missing c s₁ h₁.keys h₁.live req h₁.service sixteen absent)
          | inr (e, found) ↦
              let (bytes, known, served) = h₁.faithful key e found in
              let (e', loc, s₂, got, sent, _, _) =
                get-Serves c s₁ h₁.keys h₁.live req bytes room h₁.service sixteen served in
              inr (bytes, e', loc, s₂, known, got, sent)
        ]
