-- ===== src/Tests/ServiceRuns.antt =====
-- Runs of the service.
use cmx_rdma.Base.{
  ℕ, ◌+◌, ◌≤◌, ◌≡◌, refl, ◌⊎◌, true, false, none, some, List, [], ◌∷◌, arith, has, nat_eq, bytes_eq,
  Bytes,
}
use cmx_rdma.Base.Outcome.{done}
use cmx_rdma.BlockStore.Block.{BlockLocation}
use cmx_rdma.BlockStore.Allocator.{read_verified}
use cmx_rdma.BlockStore.Eviction
use cmx_rdma.BlockStore.Eviction.{LruInner, entry}
use cmx_rdma.BlockStore.Eviction.Tracking.{Holds}
use cmx_rdma.BlockStore.Eviction.Refines.{new-Holds, touch-Holds}
use cmx_rdma.BlockStore.Index.{IndexEntry}
use cmx_rdma.BlockStore.Index.Evict.{IsIndex}
use cmx_rdma.Agent.Service.{Service, Reply, ok, composite_key}
use cmx_rdma.Agent.Grpc.Store
use cmx_rdma.Agent.Grpc.Store.{StoreHeader, StoreResponse, Message, collect_chunks, store}
use cmx_rdma.Agent.Grpc.Fetch.{get, send_entry, handle_of}
use cmx_rdma.Agent.Grpc.Admin.{delete}
use cmx_rdma.Agent.Grpc.Serving.{entry_at, IsService, Serves}
use cmx_rdma.Agent.Grpc.Storing.{Stored, store-Stored}
use cmx_rdma.Agent.Grpc.Reading.{one_block, get-store}
use cmx_rdma.Agent.Grpc.Refusing.{Refused, Accepted, store_answers}
use cmx_rdma.Agent.Grpc.Deleting.{Deleted, delete-Deleted}
use cmx_rdma.Agent.Grpc.Filling.{successes, successes-le, store-evictions}
use cmx_rdma.Agent.Grpc.Lookup.{LookupResponse, lookup, batch_lookup}
use cmx_rdma.Agent.Grpc.Looked.{Indexed}
use cmx_rdma.Agent.Grpc.Looking.{Answered, first_known, lookup-response}
use cmx_rdma.Agent.Grpc.Batching.{entry_of, all_blocks, batch_lookup-extended}
use cmx_rdma.Base.{map, is_some}
use cmx_rdma.Tests.Data.{crates, repeat, half_allocator, half_allocator-IsAllocator, block_1_held}

abbrev pub hash : Bytes
hash = repeat 16 7

abbrev pub other_hash : Bytes
other_hash = repeat 16 8

-- One entry, whose block holds no data.
abbrev pub location : BlockLocation
location = record { node_id = 0; block_index = 1; offset = 32; block_size = 32; generation = 1 }

abbrev pub stored_entry : IndexEntry
stored_entry = record { blocks = location ∷ []; created_at = 5 }

abbrev one_key : LruInner Bytes
one_key = record {
  entries = entry hash none none ∷ [];
  free_indices = [];
  index = (hash, 0) ∷ [];
  head = some 0;
  tail = some 0;
}

touch-hash : Eviction.touch hash Eviction.new ≡ some one_key
unfolding Eviction.touch Eviction.new Eviction.alloc_entry Eviction.push_front Eviction.set_prev
    Eviction.set_next
touch-hash = refl

one_key-Holds : Holds one_key (hash ∷ [])
one_key-Holds =
    let (s', ran, h) = touch-Holds Eviction.new hash [] new-Holds in
    let same_state : one_key ≡ s' = ground (arith, ran, touch-hash) in rw same_state h

abbrev pub service : Service crates
service = record {
  allocator = half_allocator;
  index = record { map = ((hash, stored_entry) ∷ [], (refl, tt)); lru = one_key; capacity = 2 };
  node_id = 110 ∷ [];
  metadata = false;
  published = [];
  pressure_level = 1;
  remote_index = none;
  hash_ring = none;
  cache_hits = 0;
  cache_misses = 0;
  evictions = 0;
}

pub service-IsIndex : IsIndex crates.entries service.index (hash ∷ [])
service-IsIndex = record {
  holds = one_key-Holds;
  distinct = (refl, tt);
  known = λ k. ground arith;
  counted = refl;
}

rebuilt : handle_of location ≡ record { pool_id = 0; block_index = 1; offset = 32; size = 32 }
unfolding handle_of
rebuilt = refl

pub service-IsService : IsService crates service (hash ∷ []) (1 ∷ [])
service-IsService = record {
  allocator = half_allocator-IsAllocator;
  index = service-IsIndex;
  first_pool = refl;
  backed = λ k e at.
      let is_entry : stored_entry ≡ e = ground arith in
      rw (← is_entry)
        (record { loc = location; single = refl; handle = rebuilt; held = block_1_held });
  apart = λ k j e f at at' h. ground arith;
}

pub found : entry_at crates hash service ≡ some stored_entry
found = ground arith

reads : read_verified crates.crc (handle_of location) half_allocator ≡ some (some [])
unfolding read_verified handle_of
reads = refl

pub service-Serves : Serves crates service hash []
service-Serves = record {
  entry = stored_entry;
  loc = location;
  found = found;
  single = refl;
  intact = reads;
}

abbrev pub request : StoreHeader
request = record { prefix_hash = other_hash; total_size = 3; model_id = [] }

abbrev pub chunks : List Message
chunks = Store.chunk (97 ∷ 98 ∷ []) ∷ Store.no_payload ∷ Store.chunk (99 ∷ []) ∷ []

pub collected : collect_chunks [] chunks ≡ ok (97 ∷ 98 ∷ 99 ∷ [])
unfolding collect_chunks
collected = refl

store-Stored_example :
    (i : ℕ) × (s' : Service crates) × (store crates 6 (Store.header request ∷ chunks) service
      ≡ done (ok (record { success = true; generation_id = 2 })) s')
    × Stored crates service
        (hash ∷ [])
        (1 ∷ [])
        service-IsService
        (97 ∷ 98 ∷ 99 ∷ [])
        (composite_key crates.sha256 [] other_hash)
        i
        s'
store-Stored_example =
    store-Stored crates service (hash ∷ []) (1 ∷ []) service-IsService (97 ∷ 98 ∷ 99 ∷ []) 6 request
      chunks (omega arith) refl (omega arith) collected (omega arith) (omega arith) (omega arith)

get-store_example :
    (s₁ : Service crates) × (s₂ : Service crates) × (e : IndexEntry) × (loc : BlockLocation)
    × (store crates 6 (Store.header request ∷ chunks) service
        ≡ done (ok (record { success = true; generation_id = 2 })) s₁)
    × (get crates (record { prefix_hash = other_hash; model_id = [] }) s₁ ≡ done (ok e) s₂)
    × (send_entry crates 3 (λ n. s₂.allocator) e ≡ one_block crates loc (97 ∷ 98 ∷ 99 ∷ []))
get-store_example =
    get-store crates service (hash ∷ []) (1 ∷ []) 6 request chunks (97 ∷ 98 ∷ 99 ∷ []) 1
      service-IsService (omega arith) refl (omega arith) collected (omega arith) (omega arith)
      (omega arith)

delete-Deleted_example :
    (i : ℕ) × (s' : Service crates) × (delete crates hash service
      ≡ done (ok (record { success = true; blocks_freed = 1 })) s')
    × (has i (1 ∷ []) ≡ true)
    × Deleted crates service (hash ∷ []) (1 ∷ []) service-IsService hash i s'
delete-Deleted_example =
    delete-Deleted crates service (hash ∷ []) (1 ∷ []) service-IsService hash stored_entry found
      refl

store_answers_example :
    Refused crates service 6 (Store.header request ∷ chunks)
    ⊎ Accepted crates service
        (hash ∷ [])
        (1 ∷ [])
        service-IsService
        6
        (Store.header request ∷ chunks)
store_answers_example =
    store_answers crates service (hash ∷ []) (1 ∷ []) service-IsService 6
      (Store.header request ∷ chunks) (omega arith) (omega arith)

successes-le_example :
    successes crates ((6, Store.header request ∷ chunks) ∷ (7, []) ∷ []) service + 1 ≤ 2
successes-le_example =
    successes-le crates ((6, Store.header request ∷ chunks) ∷ (7, []) ∷ []) service (hash ∷ [])
      (1 ∷ []) service-IsService (omega arith) (omega arith, (tt, tt))

store-evictions_example :
    (reply : Reply StoreResponse) × (s' : Service crates) × (store crates 6
        (Store.header request ∷ chunks)
        service
      ≡ done reply s')
    × (s'.evictions ≡ 0)
store-evictions_example =
    store-evictions crates service (hash ∷ []) (1 ∷ []) 6 (Store.header request ∷ chunks)
      service-IsService (omega arith) (omega arith) (omega arith) (omega arith)

lookup-response_example :
    (r : LookupResponse) × (s' : Service crates) × (lookup crates
        (record { prefix_hash = hash; model_id = [] })
        service
      ≡ done (ok r) s')
    × Answered crates service
        (entry_at crates (composite_key crates.sha256 [] hash) service)
        (first_known crates (composite_key crates.sha256 [] hash) none)
        r
        s'
lookup-response_example =
    lookup-response crates (record { prefix_hash = hash; model_id = [] }) service
      (hash ∷ [], service-IsIndex) refl

batch_lookup-extended_example :
    (s' : Service crates) × (batch_lookup crates
        (record { prefix_hashes = hash ∷ other_hash ∷ []; model_id = [] })
        service
      ≡ done
          (ok (record {
            found =
                map
                  (λ h. is_some (entry_of crates [] service.index.map h))
                  (hash ∷ other_hash ∷ []);
            blocks =
                all_blocks crates [] service.node_id service.index.map (hash ∷ other_hash ∷ []);
          }))
          s')
    × (s'.index.map ≡ service.index.map)
    × Indexed crates s'
batch_lookup-extended_example =
    batch_lookup-extended crates [] (hash ∷ other_hash ∷ []) service (hash ∷ [], service-IsIndex)
      (refl, (refl, tt))
