-- ===== src/Agent/Grpc/Deleting.antt =====
-- What `delete` of crates/cmx-agent/src/grpc.rs does to the invariant and to the blocks.
use cmx_rdma.Base.{
  ℕ, ◌≡◌, ◌≢◌, refl, ap, ◌∙◌, sym, inl, inr, true, false, Option, none, some, List, [], ◌∷◌, arith,
  same, has, has-erase_ne, erase, nat_eq, bytes_eq, length, Bytes, Bool-cases, ◌==◌,
}
use cmx_rdma.Base.Outcome.{done}
use cmx_rdma.Memory.Pool.{BlockHandle, get_slice, get_ptr}
use cmx_rdma.Memory.Pool
use cmx_rdma.BlockStore.Block
use cmx_rdma.BlockStore.Allocator
use cmx_rdma.BlockStore.Allocator.{BlockAllocator, read_verified, verified}
use cmx_rdma.BlockStore.Allocator.Integrity.{IsAllocator, deallocate-IsAllocator}
use cmx_rdma.BlockStore.Index
use cmx_rdma.BlockStore.Index.{IndexEntry, BlockIndex}
use cmx_rdma.BlockStore.Index.Evict.{IsIndex}
use cmx_rdma.BlockStore.Index.Refines.{remove_hit, remove_miss}
use cmx_rdma.Agent.Crates.{Key, Crates}
use cmx_rdma.Agent.Service.{ok, Service, parse_prefix_hash}
use cmx_rdma.Agent.Grpc.Fetch.{handle_of}
use cmx_rdma.Agent.Grpc.Admin.{free_blocks, answer_delete, delete}
use cmx_rdma.Agent.Grpc.Serving.{first_block, entry_at, IsService, Serves}

free_blocks-one :
    (loc : Block.BlockLocation) (a a' : BlockAllocator)
    → Allocator.deallocate (handle_of loc) a ≡ done tt a'
    → free_blocks (loc ∷ []) a ≡ done tt a'
unfolding free_blocks
free_blocks-one loc a a' e = rw (e, free_blocks)

pub read_verified-same :
    (crc : Bytes → ℕ) (handle : BlockHandle) (a a' : BlockAllocator)
    → a'.pool.region ≡ a.pool.region
    → a'.pool.pool_id ≡ a.pool.pool_id
    → a'.pool.block_size ≡ a.pool.block_size
    → read_verified crc handle a' ≡ read_verified crc handle a
unfolding read_verified Pool.get_slice Pool.get_ptr
read_verified-same crc handle a a' r p b = rw (r, p, b, get_slice, get_ptr)

deallocate-total_blocks :
    (handle : BlockHandle) (a a' : BlockAllocator)
    → Allocator.deallocate handle a ≡ done tt a'
    → a'.pool.total_blocks ≡ a.pool.total_blocks
unfolding Allocator.deallocate Pool.deallocate
deallocate-total_blocks handle a a' h = ground arith

remove-capacity :
    (c : Crates) (s : BlockIndex c.entries) (hash : Key) (found : Option IndexEntry)
    (index : BlockIndex c.entries)
    → Index.remove c.entries hash s ≡ some (found, index)
    → index.capacity ≡ s.capacity
unfolding Index.remove
remove-capacity c s hash found index h = ground arith

module _ (c : Crates) (s : Service c) where
  delete_reaches_index :
      (hash : Bytes) (found : Option IndexEntry) (index : BlockIndex c.entries)
      → length hash ≡ 16
      → Index.remove c.entries hash s.index ≡ some (found, index)
      → delete c hash s ≡ answer_delete c found (record s { index = index })
  unfolding delete parse_prefix_hash
  delete_reaches_index hash found index sixteen removed =
      let long : (length hash == 16) ≡ true = ground arith in rw (long, delete, removed)

  answer_delete-one :
      (e : IndexEntry) (loc : Block.BlockLocation) (index : BlockIndex c.entries)
      (a : BlockAllocator)
      → e.blocks ≡ loc ∷ []
      → free_blocks (loc ∷ []) s.allocator ≡ done tt a
      → answer_delete c (some e) (record s { index = index })
        ≡ done
            (ok (record { success = true; blocks_freed = 1 }))
            (record s { index = index; allocator = a })
  unfolding answer_delete
  answer_delete-one e loc index a single freed = rw (single, freed, answer_delete, single)

  module _ (ks : List Key) (live : List ℕ) (v : IsService c s ks live) (hash : Bytes) where
    -- What a `delete` that finds an entry leaves behind, the entry's block being `i`.
    pub record Deleted (i : ℕ) (s' : Service c) : Type 0 where
      pub service : IsService c s' (erase hash ks) (erase i live)
      pub gone : entry_at c hash s' ≡ none
      pub others : (j : Key) (bytes : Bytes) → hash ≢ j → Serves c s j bytes → Serves c s' j bytes
      pub kept : (j : Key) → hash ≢ j → entry_at c j s' ≡ entry_at c j s
      pub owned : (e : IndexEntry) → entry_at c hash s ≡ some e → first_block e.blocks ≡ i
      pub blocks :
          (handle : BlockHandle)
          → read_verified c.crc handle s'.allocator ≡ read_verified c.crc handle s.allocator
      pub same_pool : s'.allocator.pool.pool_id ≡ s.allocator.pool.pool_id
      pub same_size : s'.allocator.pool.block_size ≡ s.allocator.pool.block_size
      pub same_total : s'.allocator.pool.total_blocks ≡ s.allocator.pool.total_blocks
      pub same_capacity : s'.index.capacity ≡ s.index.capacity
      pub level : s'.pressure_level ≡ s.pressure_level

    module _ (e : IndexEntry) (found : entry_at c hash s ≡ some e) (index : BlockIndex c.entries)
        (a : BlockAllocator) (mapped : index.map ≡ c.entries.remove hash s.index.map)
        (same_region : a.pool.region ≡ s.allocator.pool.region)
        (same_pool : a.pool.pool_id ≡ s.allocator.pool.pool_id)
        (same_size : a.pool.block_size ≡ s.allocator.pool.block_size) where
      -- The state with the index and the allocator replaced.
      abbrev after : Service c
      after = record s { index = index; allocator = a }

      stays : (j : Key) → hash ≢ j → entry_at c j after ≡ entry_at c j s
      stays j other = ground (arith, mapped, c.entries.get-remove hash j s.index.map)

      left :
          (j : Key) (f : IndexEntry)
          → entry_at c j after ≡ some f
          → (hash ≢ j) × (entry_at c j s ≡ some f)
      left j f at = elim (Bool-cases (same hash j)) [
        | inl yes' ↦ absurd (ground (arith, mapped, c.entries.get-remove hash j s.index.map))
        | inr no' ↦
            ((λ h. ground arith), ground (arith, mapped, c.entries.get-remove hash j s.index.map))
      ]

      another :
          (j : Key) (f : IndexEntry) (old : entry_at c j s ≡ some f)
          → hash ≢ j
          → (v.backed j f old).loc.block_index ≢ (v.backed hash e found).loc.block_index
      another j f old other same_block = other (
          v.apart hash j e f found old (
            ap first_block (v.backed hash e found).single
            ∙ sym same_block
            ∙ sym (ap first_block (v.backed j f old).single)))

      after-Deleted :
          IsIndex c.entries index (erase hash ks)
          → IsAllocator a (erase (v.backed hash e found).loc.block_index live)
          → a.pool.total_blocks ≡ s.allocator.pool.total_blocks
          → index.capacity ≡ s.index.capacity
          → Deleted (v.backed hash e found).loc.block_index after
      after-Deleted ix al total capacity = record {
        service = record {
          allocator = al;
          index = ix;
          first_pool = same_pool ∙ v.first_pool;
          backed = λ j f at.
              let (other, old) = left j f at in
              let bf = v.backed j f old in
              record {
                loc = bf.loc;
                single = bf.single;
                handle = ground (arith, bf.handle, same_pool, same_size);
                held =
                    has-erase_ne bf.loc.block_index (v.backed hash e found).loc.block_index live
                      (another j f old other)
                    ∙ bf.held;
              };
          apart = λ j k f g at at'. v.apart j k f g (left j f at).1 (left k g at').1;
        };
        gone = ground (arith, mapped, c.entries.get-remove hash hash s.index.map);
        others = λ j bytes other old. record {
          entry = old.entry;
          loc = old.loc;
          found = stays j other ∙ old.found;
          single = old.single;
          intact =
              read_verified-same c.crc (handle_of old.loc) s.allocator a same_region same_pool
                same_size
              ∙ old.intact;
        };
        kept = stays;
        owned = λ f at.
            let same_entry : f ≡ e = ground arith in
            ap (λ x. first_block x.blocks) same_entry
            ∙ ap first_block (v.backed hash e found).single;
        blocks =
            λ handle. read_verified-same c.crc handle s.allocator a same_region same_pool same_size;
        same_pool = same_pool;
        same_size = same_size;
        same_total = total;
        same_capacity = capacity;
        level = refl;
      }

    -- From a state that satisfies the invariant, `delete` of a hash of 16 bytes under which the index
    -- has an entry succeeds without a panic: it gives back one block that was held, the entry is
    -- gone, all others are as they were and what they serve is still served, and the invariant holds.
    pub delete-Deleted :
        (e : IndexEntry)
        → entry_at c hash s ≡ some e
        → length hash ≡ 16
        → (i : ℕ) × (s' : Service c) × (delete c hash s
            ≡ done (ok (record { success = true; blocks_freed = 1 })) s')
          × (has i live ≡ true)
          × Deleted i s'
    delete-Deleted e found sixteen =
        let b = v.backed hash e found in
        let i = b.loc.block_index in
        let (index, removed, ix, mapped) = remove_hit c.entries s.index ks v.index hash e found in
        let (a, freed, al, same_region, same_pool, same_size) =
          deallocate-IsAllocator s.allocator live i v.allocator b.held in
        (
          i,
          after e found index a mapped same_region same_pool same_size,
          delete_reaches_index hash (some e) index sixteen removed
              ∙ answer_delete-one e b.loc index a b.single
                  (free_blocks-one b.loc s.allocator a (rw b.handle freed)),
          b.held,
          after-Deleted e found index a mapped same_region same_pool same_size ix al
              (deallocate-total_blocks _ s.allocator a freed)
              (remove-capacity c s.index hash (some e) index removed),
        )

    -- A hash of 16 bytes that the index has not is answered without success, and nothing changes.
    pub delete_absent :
        entry_at c hash s ≡ none
        → length hash ≡ 16
        → delete c hash s ≡ done (ok (record { success = false; blocks_freed = 0 })) s
    unfolding answer_delete
    delete_absent absent sixteen =
        delete_reaches_index hash none s.index sixteen
          (remove_miss c.entries s.index ks v.index hash absent)
