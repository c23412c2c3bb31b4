-- ===== src/Agent/Grpc/Reading.antt =====
-- What `get` of crates/cmx-agent/src/grpc.rs sends for data that is served.
use cmx_rdma.Base.{
  ℕ, zero, suc, ◌+◌, ◌%◌, ◌<◌, ◌≤◌, ◌≡◌, refl, true, Option, none, some, List, [], ◌∷◌, arith,
  erase, nat_eq, bytes_eq, length, Bytes, ◌==◌,
}
use cmx_rdma.Base.Outcome.{done}
use cmx_rdma.Memory.Pool.{u32, u64}
use cmx_rdma.BlockStore.Block
use cmx_rdma.BlockStore.Block.{header_size}
use cmx_rdma.BlockStore.Allocator.{BlockAllocator, read_verified}
use cmx_rdma.BlockStore.Index
use cmx_rdma.BlockStore.Index.{IndexEntry, BlockIndex}
use cmx_rdma.BlockStore.Index.Evict.{IsIndex}
use cmx_rdma.BlockStore.Index.Refines.{lookup_hit, lookup_miss}
use cmx_rdma.Agent.Crates.{Key, Crates}
use cmx_rdma.Agent.Service.{
  ok, err, not_found, Service, fetch_add, hit, miss, parse_prefix_hash, composite_key,
}
use cmx_rdma.Agent.Grpc.Fetch.{
  GetRequest, GetResponse, header, payload, sum_sizes, first_generation, handle_of, send_blocks,
  send_entry, answer_get, get,
}
use cmx_rdma.Agent.Grpc.Store
use cmx_rdma.Agent.Grpc.Serving.{entry_at, IsService, Serves}
use cmx_rdma.Agent.Grpc.Storing.{store-Stored}

module _ (c : Crates) where
  send_none : (room n : ℕ) (states : ℕ → BlockAllocator) → send_blocks c room n states [] ≡ []
  unfolding send_blocks
  send_none zero n states = refl
  send_none (suc room) n states = refl

  send_one :
      (room n : ℕ) (states : ℕ → BlockAllocator) (loc : Block.BlockLocation) (bytes : Bytes)
      → read_verified c.crc (handle_of loc) (states n) ≡ some (some bytes)
      → send_blocks c (suc room) n states (loc ∷ []) ≡ payload bytes ∷ []
  unfolding send_blocks
  send_one room n states loc bytes intact = rw (intact, send_blocks, send_none room (suc n) states)

  -- The messages for an entry of one block.
  abbrev pub one_block : Block.BlockLocation → Bytes → List GetResponse
  one_block loc bytes =
      header (record {
        total_size = loc.block_size % u64;
        num_blocks = 1;
        generation_id = loc.generation;
      })
      ∷ payload bytes
      ∷ []

  pub send_entry-one :
      (room : ℕ) (states : ℕ → BlockAllocator) (e : IndexEntry) (loc : Block.BlockLocation)
      (bytes : Bytes)
      → e.blocks ≡ loc ∷ []
      → read_verified c.crc (handle_of loc) (states 0) ≡ some (some bytes)
      → send_entry c (suc (suc room)) states e ≡ one_block loc bytes
  unfolding send_entry sum_sizes first_generation
  send_entry-one room states e loc bytes single intact =
      rw (single, send_one room 0 states loc bytes intact) (ground arith)

  pub get_reaches_index :
      (req : GetRequest) (s : Service c) (found : Option IndexEntry) (index : BlockIndex c.entries)
      → length req.prefix_hash ≡ 16
      → Index.lookup c.entries (composite_key c.sha256 req.model_id req.prefix_hash) s.index
        ≡ some (found, index)
      → get c req s
        ≡ (let (reply, s') = answer_get c found (record s { index = index }) in done reply s')
  unfolding get parse_prefix_hash
  get_reaches_index req s found index sixteen looked =
      let long : (length req.prefix_hash == 16) ≡ true = ground arith in rw (long, get, looked)

  -- A hit changes the order of use and the counter only.
  hit-IsService :
      (s : Service c) (ks : List Key) (live : List ℕ) (k : Key) (index : BlockIndex c.entries)
      → IsService c s ks live
      → IsIndex c.entries index (k ∷ erase k ks)
      → index.map ≡ s.index.map
      → IsService c
          (record s { index = index; cache_hits = fetch_add s.cache_hits 1 })
          (k ∷ erase k ks)
          live
  hit-IsService s ks live k index v i same_map = record {
    allocator = v.allocator;
    index = i;
    first_pool = v.first_pool;
    backed = λ j e at. v.backed j e (rw (← same_map) at);
    apart = λ j l e f at at'. v.apart j l e f (rw (← same_map) at) (rw (← same_map) at');
  }

  -- From a state that satisfies the invariant, for a hash of 16 bytes: data that is served under the key
  -- of the request is sent, intact and behind its header, to a receiver that takes two messages, if
  -- the allocator has not changed when it is read; the request counts as a hit, modulo 2^64, and the
  -- invariant holds with the key most recently used.
  pub get-Serves :
      (s : Service c) (ks : List Key) (live : List ℕ) (req : GetRequest) (bytes : Bytes) (room : ℕ)
      → IsService c s ks live
      → length req.prefix_hash ≡ 16
      → Serves c s (composite_key c.sha256 req.model_id req.prefix_hash) bytes
      → (e : IndexEntry) × (loc : Block.BlockLocation) × (s' : Service c) × (get c req s
          ≡ done (ok e) s')
        × (send_entry c (suc (suc room)) (λ n. s'.allocator) e ≡ one_block loc bytes)
        × (s'.cache_hits ≡ fetch_add s.cache_hits 1)
        × IsService c s'
            (composite_key c.sha256 req.model_id req.prefix_hash
              ∷ erase (composite_key c.sha256 req.model_id req.prefix_hash) ks)
            live
  unfolding answer_get hit
  get-Serves s ks live req bytes room v sixteen served =
      let k = composite_key c.sha256 req.model_id req.prefix_hash in
      let (index, looked, i, same_map, _) =
        lookup_hit c.entries s.index ks v.index k served.entry served.found in
      (
        served.entry,
        served.loc,
        record s { index = index; cache_hits = fetch_add s.cache_hits 1 },
        get_reaches_index req s (some served.entry) index sixteen looked,
        send_entry-one room (λ n. s.allocator) served.entry served.loc bytes served.single
            served.intact,
        refl,
        hit-IsService s ks live k index v i same_map,
      )

  -- From a state that satisfies the invariant, for a hash of 16 bytes: a request for a key that the index
  -- has not is answered with `not_found`, counts as a miss, modulo 2^64, and changes nothing else.
  pub get_missing :
      (s : Service c) (ks : List Key) (live : List ℕ) (req : GetRequest)
      → IsService c s ks live
      → length req.prefix_hash ≡ 16
      → entry_at c (composite_key c.sha256 req.model_id req.prefix_hash) s ≡ none
      → get c req s
        ≡ done
            (err (not_found "prefix hash not found in cache"))
            (record s { cache_misses = fetch_add s.cache_misses 1 })
  unfolding answer_get miss
  get_missing s ks live req v sixteen absent =
      let k = composite_key c.sha256 req.model_id req.prefix_hash in
      get_reaches_index req s none s.index sixteen
        (lookup_miss c.entries s.index ks v.index k absent)

  -- From a state that satisfies the invariant, below the reject level and with a free block, a stream of
  -- a header whose prefix hash has 16 bytes and chunks that together fit a block is stored, and a `get`
  -- under the same prefix hash and model that comes next finds it: a receiver that takes two messages
  -- sees a header and exactly the data.
  pub get-store :
      (s : Service c) (ks : List Key) (live : List ℕ) (now : ℕ) (h : Store.StoreHeader)
      (rest : List Store.Message) (bytes : Bytes) (room : ℕ)
      → IsService c s ks live
      → s.pressure_level < 3
      → length h.prefix_hash ≡ 16
      → h.total_size ≤ Store.isize_max
      → Store.collect_chunks [] rest ≡ ok bytes
      → length bytes < u32
      → header_size + length bytes ≤ s.allocator.pool.block_size
      → length live < s.allocator.pool.total_blocks
      → (s₁ : Service c) × (s₂ : Service c) × (e : IndexEntry) × (loc : Block.BlockLocation)
        × (Store.store c now (Store.header h ∷ rest) s
            ≡ done (ok (record { success = true; generation_id = s.allocator.generation })) s₁)
        × (get c (record { prefix_hash = h.prefix_hash; model_id = h.model_id }) s₁
            ≡ done (ok e) s₂)
        × (send_entry c (suc (suc room)) (λ n. s₂.allocator) e ≡ one_block loc bytes)
  get-store s ks live now h rest bytes room v calm sixteen modest collected short fits spare =
      let (i, s₁, stored, after) =
        store-Stored c s ks live v bytes now h rest calm sixteen modest collected short fits
          spare in
      let (e, loc, s₂, got, sent, _, _) =
        get-Serves s₁ _ _ (record { prefix_hash = h.prefix_hash; model_id = h.model_id }) bytes room
          after.service sixteen after.serves in
      (s₁, s₂, e, loc, stored, got, sent)
