-- ===== src/Agent/Grpc/Storing.antt =====
-- What `store` of crates/cmx-agent/src/grpc.rs does to the invariant and to the data that is served.
use mathlib.Core.List.{reverse}
use cmx_rdma.Base.{
  same_refl, Bool-cases, ◌==◌, ℕ, ◌+◌, ◌≤◌, ◌<◌, ◌≡◌, ◌≢◌, refl, ap, ◌∙◌, sym, inl, inr, true,
  false, some, List, [], ◌∷◌, ◌++◌, arith, has, erase, nat_eq, bytes_eq, ltb, leb, if◌then◌else◌,
  length, Bytes,
}
use cmx_rdma.Base.Outcome.{done}
use cmx_rdma.Memory.Pool.{u32}
use cmx_rdma.Memory.Pool.Ownership.{issued}
use cmx_rdma.BlockStore.Block
use cmx_rdma.BlockStore.Block.{header_size}
use cmx_rdma.BlockStore.Allocator.{BlockAllocator, read_verified, allocate_and_write}
use cmx_rdma.BlockStore.Allocator.Integrity.{Written, located, allocate_and_write_lem}
use cmx_rdma.BlockStore.Index
use cmx_rdma.BlockStore.Index.{IndexEntry, BlockIndex}
use cmx_rdma.BlockStore.Index.Refines.{Inserted, insert-Inserted, dropped, kept, index_entry}
use cmx_rdma.Agent.Crates.{Key, Crates}
use cmx_rdma.Agent.Service.{ok, Service, Publication, fetch_add, parse_prefix_hash, composite_key}
use cmx_rdma.Agent.Grpc.Fetch.{handle_of}
use cmx_rdma.Agent.Grpc.Store.{
  StoreHeader, Message, header, collect_chunks, isize_max, record_block, store_block, store_data,
  store_stream, store, pressure_reject,
}
use cmx_rdma.Agent.Grpc.Serving.{entry_at, Backed, first_block, IsService, Serves, entry-cases}

-- What `store` comes down to for a stream that it takes.
pub store_reaches_block :
    (c : Crates) (s : Service c) (now : ℕ) (h : StoreHeader) (rest : List Message) (payload : Bytes)
    → s.pressure_level < 3
    → length h.prefix_hash ≡ 16
    → h.total_size ≤ isize_max
    → collect_chunks [] rest ≡ ok payload
    → store c now (header h ∷ rest) s
      ≡ store_block c now (composite_key c.sha256 h.model_id h.prefix_hash) payload s
unfolding store store_stream store_data parse_prefix_hash
store_reaches_block c s now h rest payload calm sixteen modest collected =
    let below : leb pressure_reject s.pressure_level ≡ false = ground arith in
    let long : (length h.prefix_hash == 16) ≡ true = ground arith in
    let sized : ltb isize_max h.total_size ≡ false = ground arith in
    rw (below, store_stream, store_data, parse_prefix_hash, long, sized, collected)

module _ (c : Crates) (s : Service c) (ks : List Key) (live : List ℕ) (v : IsService c s ks live)
    (payload : Bytes) where
  -- What a successful `store` of `payload` under `key` leaves behind, in block `i`.
  pub record Stored (key : Key) (i : ℕ) (s' : Service c) : Type 0 where
    pub service : IsService c s' (key ∷ erase key (kept c.entries s.index key ks)) (i ∷ live)
    pub fresh : has i live ≡ false
    pub serves : Serves c s' key payload
    pub others :
        (j : Key) (bytes : Bytes)
        → key ≢ j
        → has j (dropped c.entries s.index key ks) ≡ false
        → Serves c s j bytes
        → Serves c s' j bytes
    pub remains :
        (j : Key) (e : IndexEntry)
        → key ≢ j
        → entry_at c j s' ≡ some e
        → (entry_at c j s ≡ some e) × (has j (dropped c.entries s.index key ks) ≡ false)
    pub unchanged :
        (j : Key)
        → key ≢ j
        → has j (dropped c.entries s.index key ks) ≡ false
        → entry_at c j s' ≡ entry_at c j s
    pub new_block : (e : IndexEntry) → entry_at c key s' ≡ some e → first_block e.blocks ≡ i
    pub blocks :
        (j : ℕ)
        → has j live ≡ true
        → read_verified c.crc (issued s.allocator.pool j) s'.allocator
          ≡ read_verified c.crc (issued s.allocator.pool j) s.allocator
    pub same_pool : s'.allocator.pool.pool_id ≡ s.allocator.pool.pool_id
    pub level : s'.pressure_level ≡ s.pressure_level
    pub same_size : s'.allocator.pool.block_size ≡ s.allocator.pool.block_size
    pub same_total : s'.allocator.pool.total_blocks ≡ s.allocator.pool.total_blocks
    pub same_capacity : s'.index.capacity ≡ s.index.capacity
    pub evictions :
        s'.evictions ≡ fetch_add s.evictions (length (reverse (dropped c.entries s.index key ks)))

  Backed-Written :
      (i : ℕ) (a' : BlockAllocator) (e : IndexEntry)
      → Written c.crc payload i live s.allocator a'
      → Backed s.allocator live e
      → Backed a' (i ∷ live) e
  Backed-Written i a' e w b = record {
    loc = b.loc;
    single = b.single;
    handle = ground (arith, b.handle, w.same_pool, w.same_size);
    held = ground (arith, b.held);
  }

  -- The publications once a location is handed to the metadata client, if there is one.
  abbrev pub announced : Key → Block.BlockLocation → List Publication
  announced key loc =
      if s.metadata
      then s.published
        ++ record {
          prefix_hash = key;
          offset = loc.offset;
          size = loc.block_size;
          generation = loc.generation;
        }
          ∷ []
      else s.published

  -- The state after a store that succeeds.
  abbrev pub stored :
      Key → Block.BlockLocation → BlockAllocator → List Key → BlockIndex c.entries → Service c
  stored key loc a evicted index = record s {
    allocator = a;
    index = index;
    evictions = fetch_add s.evictions (length evicted);
    published = announced key loc;
  }

  store_block-ok :
      (now : ℕ) (key : Key) (i : ℕ) (a : BlockAllocator) (evicted : List Key)
      (index : BlockIndex c.entries)
      → allocate_and_write c.crc c.padding payload s.allocator
        ≡ done (some (located s.allocator i, issued s.allocator.pool i)) a
      → Index.insert c.entries key (located s.allocator i ∷ []) now s.index ≡ some (evicted, index)
      → store_block c now key payload s
        ≡ done
            (ok (record { success = true; generation_id = s.allocator.generation }))
            (stored key (located s.allocator i) a evicted index)
  unfolding store_block record_block
  store_block-ok now key i a evicted index wrote inserted =
      rw (wrote, store_block, inserted, record_block)

  handle_of-located : (i : ℕ) → handle_of (located s.allocator i) ≡ issued s.allocator.pool i
  unfolding handle_of
  handle_of-located i = ground (arith, v.first_pool)

  not_live :
      (i : ℕ) (e f : IndexEntry) {now : ℕ}
      → has i live ≡ false
      → index_entry (located s.allocator i ∷ []) now ≡ e
      → first_block e.blocks ≡ first_block f.blocks
      → Backed s.allocator live f
      → ⊥
  not_live i e f fresh is_new same_block b =
      let at : i ≡ first_block e.blocks = ap (λ x. first_block x.blocks) is_new in
      let at' : first_block f.blocks ≡ b.loc.block_index = ap first_block b.single in
      let held : has i live ≡ true = rw (at ∙ same_block ∙ at') b.held in
      ground (arith, held, fresh)

  still_intact :
      (i : ℕ) (a : BlockAllocator) (bytes : Bytes) (loc : Block.BlockLocation) (e : IndexEntry)
      → Written c.crc payload i live s.allocator a
      → Backed s.allocator live e
      → e.blocks ≡ loc ∷ []
      → read_verified c.crc (handle_of loc) s.allocator ≡ some (some bytes)
      → read_verified c.crc (handle_of loc) a ≡ some (some bytes)
  still_intact i a bytes loc e w b single intact =
      let same_loc : loc ≡ b.loc = ground (arith, b.single) in
      let handle : handle_of loc ≡ issued s.allocator.pool b.loc.block_index =
        rw same_loc b.handle in
      rw handle (w.others b.loc.block_index b.held ∙ rw (← handle) intact)

  stored-Stored :
      (now : ℕ) (key : Key) (i : ℕ) (a : BlockAllocator) (index : BlockIndex c.entries)
      → Written c.crc payload i live s.allocator a
      → Inserted c.entries s.index index ks key (index_entry (located s.allocator i ∷ []) now)
      → Stored key i
          (stored key (located s.allocator i) a (reverse (dropped c.entries s.index key ks)) index)
  stored-Stored now key i a index w ins =
      let s' =
        stored key (located s.allocator i) a (reverse (dropped c.entries s.index key ks)) index in
      let new = index_entry (located s.allocator i ∷ []) now in
      let cases = entry-cases c s s' ks key new ins in
      record {
        service = record {
          allocator = w.allocator;
          index = ins.index;
          first_pool = w.same_pool ∙ v.first_pool;
          backed = λ j e at. elim (cases j e at) [
            | inl (same_key, same_entry) ↦ rw (← same_entry) (record {
              loc = located s.allocator i;
              single = refl;
              handle = ground (arith, handle_of-located i, w.same_pool, w.same_size);
              held = ground arith;
            })
            | inr (other, old) ↦ Backed-Written i a e w (v.backed j e old)
          ];
          apart = λ k j e f at_k at_j same_block. elim (cases k e at_k) [
            | inl (same_k, is_new) ↦ elim (cases j f at_j) [
              | inl (same_j, _) ↦ sym same_k ∙ same_j
              | inr (_, old) ↦ absurd (not_live i e f w.fresh is_new same_block (v.backed j f old))
            ]
            | inr (_, old_k) ↦ elim (cases j f at_j) [
              | inl (_, is_new) ↦
                  absurd (not_live i f e w.fresh is_new (sym same_block) (v.backed k e old_k))
              | inr (_, old_j) ↦ v.apart k j e f old_k old_j same_block
            ]
          ];
        };
        fresh = w.fresh;
        serves = record {
          entry = new;
          loc = located s.allocator i;
          found = ground (arith, ins.get key);
          single = refl;
          intact = rw (handle_of-located i) w.intact;
        };
        others = λ j bytes other stays old. record {
          entry = old.entry;
          loc = old.loc;
          found = ground (arith, ins.get j, old.found);
          single = old.single;
          intact =
              still_intact i a bytes old.loc old.entry w (v.backed j old.entry old.found) old.single
                old.intact;
        };
        remains = λ j e other at. elim (Bool-cases (has j (dropped c.entries s.index key ks))) [
          | inl gone ↦ absurd (ground (arith, ins.get j))
          | inr stays ↦ (ground (arith, ins.get j), stays)
        ];
        unchanged = λ j other stays. ground (arith, ins.get j);
        new_block = λ e at.
            let same_entry : new ≡ e = ground (arith, ins.get key, same_refl key) in
            sym (ap (λ x. first_block x.blocks) same_entry);
        blocks = w.others;
        same_pool = w.same_pool;
        level = refl;
        same_size = w.same_size;
        same_total = w.same_total;
        same_capacity = ins.capacity;
        evictions = refl;
      }

  -- From a state that satisfies the invariant, below the reject level and with a free block, a
  -- stream of a header whose prefix hash has 16 bytes and chunks that together fit a block is
  -- stored: the reply is a success, the data is served under the key of the request, the data of
  -- every other key that is not evicted is still served, the invariant holds, and exactly one more
  -- block is held, whatever was evicted or replaced.
  pub store-Stored :
      (now : ℕ) (h : StoreHeader) (rest : List Message)
      → s.pressure_level < 3
      → length h.prefix_hash ≡ 16
      → h.total_size ≤ isize_max
      → collect_chunks [] rest ≡ ok payload
      → length payload < u32
      → header_size + length payload ≤ s.allocator.pool.block_size
      → length live < s.allocator.pool.total_blocks
      → (i : ℕ) × (s' : Service c) × (store c now (header h ∷ rest) s
          ≡ done (ok (record { success = true; generation_id = s.allocator.generation })) s')
        × Stored (composite_key c.sha256 h.model_id h.prefix_hash) i s'
  store-Stored now h rest calm sixteen modest collected short fits spare =
      let key = composite_key c.sha256 h.model_id h.prefix_hash in
      let (i, a, wrote, w) =
        allocate_and_write_lem c.crc c.padding c.padding_size s.allocator live v.allocator payload
          (c.crc_u32 payload) short fits spare in
      let (index, inserted, ins) =
        insert-Inserted c.entries s.index ks key (located s.allocator i ∷ []) now v.index in
      let evicted = reverse (dropped c.entries s.index key ks) in
      (
        i,
        stored key (located s.allocator i) a evicted index,
        store_reaches_block c s now h rest payload calm sixteen modest collected
            ∙ store_block-ok now key i a evicted index wrote inserted,
        stored-Stored now key i a index w ins,
      )
