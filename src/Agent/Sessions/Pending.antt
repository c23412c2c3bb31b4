-- ===== src/Agent/Sessions/Pending.antt =====
-- A call of `get` of crates/cmx-agent/src/grpc.rs spawns a task that reads the block later, when other
-- requests may have changed the service.
use cmx_rdma.Base.{
  ◌≤◌, erase, ℕ, suc, ◌≡◌, ◌≢◌, refl, ap, ◌∙◌, sym, some, List, [], ◌∷◌, arith, bytes_eq, nat_eq,
  length, All, Bytes,
}
use cmx_rdma.Base.Outcome.{done}
use cmx_rdma.Memory.Pool.{u32}
use cmx_rdma.BlockStore.Block
use cmx_rdma.BlockStore.Allocator.{read_verified}
use cmx_rdma.BlockStore.Index.{IndexEntry}
use cmx_rdma.BlockStore.Index.Refines.{lookup_hit}
use cmx_rdma.Agent.Crates.{Key, Crates}
use cmx_rdma.Agent.Floats.{Floats}
use cmx_rdma.Agent.Pressure.{Thresholds}
use cmx_rdma.Agent.Service.{fetch_add, hit, ok, Service, composite_key}
use cmx_rdma.Agent.Grpc.Fetch.{answer_get, handle_of, GetRequest, get, send_entry}
use cmx_rdma.Agent.Grpc.Serving.{entry_at, IsService}
use cmx_rdma.Agent.Grpc.Reading.{get_reaches_index, one_block, send_entry-one}
use cmx_rdma.Agent.Sessions.{Event, deletes, Latest, step, run}
use cmx_rdma.Agent.Sessions.Steps.{Quiet, Quiet-IsService}
use cmx_rdma.Agent.Sessions.Effects.{Effect, quiet, writes, frees, step-Effect}
use cmx_rdma.Agent.Sessions.Faithful.{IsSession}
use cmx_rdma.Agent.Sessions.Held.{
  IsPending, Quiet-IsPending, Stored-IsPending, Deleted-IsPending, Serves-IsPending,
}

module _ (c : Crates) (key : Key) (loc : Block.BlockLocation) (bytes : Bytes) (F : Floats)
    (t : Thresholds F) where
  -- A service of blocks of at most 2^32 bytes in which the block is pending.
  record IsWaiting (s : Service c) : Type 0 where
    keys : List Key
    live : List ℕ
    service : IsService c s keys live
    small : s.allocator.pool.block_size ≤ u32
    pending : IsPending c key loc bytes s live

  IsWaiting-Quiet :
      (s s' : Service c) (ks : List Key) (live : List ℕ) (v : IsService c s ks live)
      → s.allocator.pool.block_size ≤ u32
      → IsPending c key loc bytes s live
      → Quiet c s s'
      → IsWaiting s'
  IsWaiting-Quiet s s' ks live v small p q =
      let (ks', v') = Quiet-IsService c s s' ks live v q in
      record {
        keys = ks';
        live = live;
        service = v';
        small = rw q.allocator small;
        pending = Quiet-IsPending c key loc bytes s ks live v p s' q;
      }

  step-IsWaiting :
      (e : Event) (s : Service c) (w : IsWaiting s)
      → e ≢ deletes key
      → Effect c F t s w.keys w.live w.service e
      → IsWaiting (step c F t e s)
  step-IsWaiting e s w spared (quiet q _ _) =
      IsWaiting-Quiet s (step c F t e s) w.keys w.live w.service w.small w.pending q
  step-IsWaiting e s w spared (writes new data' i after _) = record {
    keys = _;
    live = i ∷ w.live;
    service = after.service;
    small = rw after.same_size w.small;
    pending =
        Stored-IsPending c key loc bytes s w.keys w.live w.service w.pending new data' i
          (step c F t e s) after;
  }
  step-IsWaiting e s w spared (frees hash i old is_delete found held after _) = record {
    keys = _;
    live = erase i w.live;
    service = after.service;
    small = rw after.same_size w.small;
    pending =
        Deleted-IsPending c key loc bytes s w.keys w.live w.service w.pending hash i old
          (step c F t e s) (λ same_key. spared (is_delete ∙ ap deletes (sym same_key))) found after;
  }

  run-intact :
      (events : List Event) (s : Service c)
      → IsWaiting s
      → All (λ e. e ≢ deletes key) events
      → read_verified c.crc (handle_of loc) (run c F t events s).allocator ≡ some (some bytes)
  run-intact [] s w spare = w.pending.intact
  run-intact (e ∷ events) s w (spared, spare) =
      run-intact events (step c F t e s)
        (step-IsWaiting e s w spared (step-Effect c F t s w.keys w.live w.service e w.small)) spare

module _ (c : Crates) (F : Floats) (t : Thresholds F) where
  -- A task that `get` has spawned reads the block when any further requests and ticks have passed, among
  -- them stores that replace or evict the entry, but no deletion of its key. Then a receiver that takes
  -- two messages sees a header and exactly the bytes that were stored last when `get` was called.
  pub get-undisturbed :
      (events : List Event) (s : Service c) (latest : Latest) (req : GetRequest) (room : ℕ)
      (entry : IndexEntry) (bytes : Bytes)
      → IsSession c s latest
      → length req.prefix_hash ≡ 16
      → entry_at c (composite_key c.sha256 req.model_id req.prefix_hash) s ≡ some entry
      → latest (composite_key c.sha256 req.model_id req.prefix_hash) ≡ some bytes
      → All (λ e. e ≢ deletes (composite_key c.sha256 req.model_id req.prefix_hash)) events
      → (e : IndexEntry) × (loc : Block.BlockLocation) × (s₁ : Service c) × (get c req s
          ≡ done (ok e) s₁)
        × (send_entry c (suc (suc room)) (λ n. (run c F t events s₁).allocator) e
            ≡ one_block c loc bytes)
  unfolding answer_get hit
  get-undisturbed events s latest req room entry bytes h sixteen found known spare =
      let key = composite_key c.sha256 req.model_id req.prefix_hash in
      let (data', kept, served) = h.faithful key entry found in
      let same_data : data' ≡ bytes = ground arith in
      let (index, looked, i, same_map, same_capacity) =
        lookup_hit c.entries s.index h.keys h.service.index key served.entry served.found in
      let s₁ : Service c = record s { index = index; cache_hits = fetch_add s.cache_hits 1 } in
      let waiting =
        IsWaiting-Quiet c key served.loc data' F t s s₁ h.keys h.live h.service h.small
          (Serves-IsPending c s h.keys h.live h.service key data' served)
          (record {
            allocator = refl;
            map = same_map;
            capacity = same_capacity;
            indexed = (key ∷ erase key h.keys, i);
          }) in
      (
        served.entry,
        served.loc,
        s₁,
        get_reaches_index c req s (some served.entry) index sixteen looked,
        send_entry-one c room (λ n. (run c F t events s₁).allocator) served.entry served.loc data'
              served.single (run-intact c key served.loc data' F t events s₁ waiting spare)
            ∙ ap (one_block c served.loc) same_data,
      )
