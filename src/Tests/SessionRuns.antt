-- ===== src/Tests/SessionRuns.antt =====
-- Runs of sequences of requests.
use cmx_rdma.Base.{
  sym, ◌≡◌, ◌≢◌, refl, ◌⊎◌, true, none, some, List, [], ◌∷◌, arith, same_refl, bytes_eq, Bytes,
}
use cmx_rdma.Base.Outcome.{done}
use cmx_rdma.BlockStore.Block.{BlockLocation}
use cmx_rdma.BlockStore.Index.{IndexEntry}
use cmx_rdma.Agent.Service.{Service, ok, err, not_found, composite_key}
use cmx_rdma.Agent.Grpc.Store
use cmx_rdma.Agent.Grpc.Store.{store}
use cmx_rdma.Agent.Grpc.Fetch.{GetRequest, get, send_entry}
use cmx_rdma.Agent.Grpc.Admin.{delete}
use cmx_rdma.Agent.Grpc.Serving.{Serves}
use cmx_rdma.Agent.Grpc.Reading.{one_block}
use cmx_rdma.Agent.Sessions.{Event, stores, deletes, ticks, gets, Latest, set, run, learned}
use cmx_rdma.Agent.Sessions.Faithful.{IsSession, get-latest}
use cmx_rdma.Agent.Sessions.Pending.{get-undisturbed}
use cmx_rdma.Agent.Sessions.Recovery.{store-delete}
use cmx_rdma.Tests.Data.{crates, hundredths}
use cmx_rdma.Tests.AgentRuns.{thresholds}
use cmx_rdma.Tests.ServiceRuns.{
  hash, other_hash, service, stored_entry, request, chunks, service-IsService, found, collected,
  service-Serves,
}

-- The service holds no data under one key.
abbrev latest : Latest
latest = set hash (some []) (λ k. none)

service-IsSession : IsSession crates service latest
service-IsSession = record {
  keys = hash ∷ [];
  live = 1 ∷ [];
  service = service-IsService;
  faithful = λ k e at.
      let is_key : hash ≡ k = ground arith in
      ([], rw (sym is_key, same_refl hash) refl, rw (sym is_key) service-Serves);
  small = omega arith;
}

abbrev get_request : GetRequest
get_request = record { prefix_hash = hash; model_id = [] }

-- Another key is stored, and the pool is then exhausted.
abbrev two_stores : List Event
two_stores =
    stores 6 (Store.header request ∷ chunks)
    ∷ ticks
    ∷ gets get_request
    ∷ stores 7 (Store.header request ∷ chunks)
    ∷ []

get-latest_example :
    (let s₁ = run crates hundredths thresholds two_stores service in
      ((s₂ : Service crates) × (get crates get_request s₁
          ≡ done (err (not_found "prefix hash not found in cache")) s₂))
      ⊎ ((bytes : Bytes) × (e : IndexEntry) × (loc : BlockLocation) × (s₂ : Service crates)
          × (learned crates hundredths thresholds two_stores service latest
                (composite_key crates.sha256 [] hash)
              ≡ some bytes)
          × (get crates get_request s₁ ≡ done (ok e) s₂)
          × (send_entry crates 2 (λ n. s₂.allocator) e ≡ one_block crates loc bytes)))
get-latest_example =
    get-latest crates hundredths thresholds two_stores service latest get_request 0
      service-IsSession refl

abbrev store_and_delete : List Event
store_and_delete = stores 6 (Store.header request ∷ chunks) ∷ deletes other_hash ∷ []

store_spares : stores 6 (Store.header request ∷ chunks) ≢ deletes hash
store_spares h = ground arith

delete_spares : deletes other_hash ≢ deletes hash
delete_spares h = ground arith

get-undisturbed_example :
    (e : IndexEntry) × (loc : BlockLocation) × (s₁ : Service crates) × (get crates get_request
        service
      ≡ done (ok e) s₁)
    × (send_entry crates 2 (λ n. (run crates hundredths thresholds store_and_delete s₁).allocator) e
        ≡ one_block crates loc [])
unfolding composite_key
get-undisturbed_example =
    get-undisturbed crates hundredths thresholds store_and_delete service latest get_request 0
      stored_entry [] service-IsSession refl found (rw (same_refl hash) refl)
      (store_spares, (delete_spares, tt))

store-delete_example :
    (s₁ : Service crates) × (s₂ : Service crates) × (delete crates hash service
      ≡ done (ok (record { success = true; blocks_freed = 1 })) s₁)
    × (store crates 6 (Store.header request ∷ chunks) s₁
        ≡ done (ok (record { success = true; generation_id = s₁.allocator.generation })) s₂)
    × Serves crates s₂ (composite_key crates.sha256 [] other_hash) (97 ∷ 98 ∷ 99 ∷ [])
store-delete_example =
    store-delete crates service (hash ∷ []) (1 ∷ []) hash stored_entry 6 request chunks
      (97 ∷ 98 ∷ 99 ∷ []) service-IsService found refl (omega arith) refl (omega arith) collected
      (omega arith) (omega arith)
