-- ===== src/Agent/Threads/Safe.antt =====
-- The owners of blocks under interleavings of the handlers of crates/cmx-agent/src/grpc.rs.
use cmx_rdma.Base.{
  ◌≢◌, true, Distinct, false, has, ap, ◌∙◌, ◌≤◌, ℕ, ◌≡◌, refl, sym, Option, some, List, [], ◌∷◌,
  arith, erase, nat_eq, bytes_eq, Bytes,
}
use cmx_rdma.Base.Outcome.{done}
use cmx_rdma.Memory.Pool.{u32, BlockHandle}
use cmx_rdma.BlockStore.Block
use cmx_rdma.BlockStore.Allocator.{BlockAllocator, allocate_and_write, deallocate, read_verified}
use cmx_rdma.BlockStore.Allocator.Integrity.{IsAllocator, deallocate-IsAllocator}
use cmx_rdma.BlockStore.Index.{IndexEntry}
use cmx_rdma.Agent.Crates.{Key, Crates}
use cmx_rdma.Agent.Grpc.Fetch.{handle_of}
use cmx_rdma.Agent.Threads.{
  idle, freeing, Threads, Move, stores, deletes, writes, files, evicts, takes, frees, ends, Reach,
  start, next, started,
}
use cmx_rdma.Agent.Threads.Owners.{
  one_task_block, single_block, held_not_free, task_block, task_blocks, indices, IsHeld, IsSafe,
}
use cmx_rdma.Agent.Threads.Tasks.{wrote}
use cmx_rdma.Agent.Threads.Tasks.{written}
use cmx_rdma.Agent.Threads.Writes.{writes-IsSafe}
use cmx_rdma.Agent.Threads.Entries.{rests-IsSafe, evicts-IsSafe, takes-IsSafe, files-IsSafe}
use cmx_rdma.Agent.Threads.Frees.{frees-IsSafe}

module _ (c : Crates) where
  Move-IsSafe :
      (s s' : Threads c) (live : List ℕ)
      → IsSafe c s live
      → Move c s s'
      → (live' : List ℕ) × IsSafe c s' live'
  Move-IsSafe s s' live h (stores (writes t key bytes loc handle a free ran is_next)) =
      let (i, same_loc, w) = wrote c s live h bytes loc handle a ran in
      (i ∷ live, rw (is_next, sym same_loc) (writes-IsSafe c s live h t key bytes i a free w))
  Move-IsSafe s s' live h (stores (files t key loc now busy is_next)) =
      (live, rw is_next (files-IsSafe c s live h t key loc now busy))
  Move-IsSafe s s' live h (evicts key is_next) = (live, rw is_next (evicts-IsSafe c s live h key))
  Move-IsSafe s s' live h (deletes (takes t key entry free found is_next)) =
      (live, rw is_next (takes-IsSafe c s live h t key entry found))
  Move-IsSafe s s' live h (deletes (frees t loc rest a busy ran is_next)) =
      (erase loc.block_index live, rw is_next (frees-IsSafe c s live h t loc rest a busy ran))
  Move-IsSafe s s' live h (deletes (ends t busy is_next)) =
      (live, rw is_next (rests-IsSafe c s live h t idle refl tt))

  pub Reach-IsSafe :
      (s s' : Threads c) (live : List ℕ)
      → IsSafe c s live
      → Reach c s s'
      → (live' : List ℕ) × IsSafe c s' live'
  Reach-IsSafe s s' live h start = (live, h)
  Reach-IsSafe s s' live h (next {t} r m) =
      let (live', h') = Reach-IsSafe s t live h r in Move-IsSafe t s' live' h' m

  started-IsSafe :
      (a : BlockAllocator) (live : List ℕ)
      → IsAllocator a live
      → a.pool.pool_id ≡ 0
      → a.pool.block_size ≤ u32
      → IsSafe c (started c a) live
  started-IsSafe a live al first small = record {
    allocator = al;
    first_pool = first;
    small = small;
    entries = λ k e at. absurd (ground (arith, c.entries.get-empty k));
    tasks = λ t. tt;
    entries_apart = λ k j e f at at' _. absurd (ground (arith, c.entries.get-empty k));
    tasks_apart = λ t u i at at'. absurd (ground arith);
    apart = λ k e t at. absurd (ground (arith, c.entries.get-empty k));
  }

  module _ (a : BlockAllocator) (live : List ℕ) (al : IsAllocator a live)
      (first : a.pool.pool_id ≡ 0) (small : a.pool.block_size ≤ u32) (s : Threads c)
      (run : Reach c (started c a) s) where
    reached : (live' : List ℕ) × IsSafe c s live'
    reached = Reach-IsSafe (started c a) s live (started-IsSafe a live al first small) run

    -- From an empty index and idle threads, over an allocator that satisfies its invariant, of the
    -- pool 0 and with blocks of at most 2^32 bytes, and after any interleaving of the steps of any
    -- threads, an entry of the index has one block, the block was written last for the key of that
    -- entry, and a read of it gives exactly the bytes that were written then.
    pub Reach-keeps :
        (key : Key) (entry : IndexEntry)
        → c.entries.get key s.entries ≡ some entry
        → (loc : Block.BlockLocation) × (bytes : Bytes) × (entry.blocks ≡ loc ∷ [])
          × (s.journal loc.block_index ≡ some (key, bytes))
          × (read_verified c.crc (handle_of loc) s.allocator ≡ some (some bytes))
    Reach-keeps key entry found =
        let n = (reached.1).entries key entry found in
        (n.loc, n.keeps.bytes, n.single, n.keeps.noted, n.keeps.intact)

    -- In every state that any interleaving of any threads reaches from an empty index and idle
    -- threads, over an allocator that satisfies its invariant, of the pool 0 and with blocks of at
    -- most 2^32 bytes, a thread that is about to give a block of a `delete` back has no other
    -- block to give back; the block is not on the free list, is in no entry of the index and is no
    -- block that another thread works on. Giving it back does not panic and leaves no block on the
    -- free list twice, and no write panics.
    pub Reach-frees :
        (t : ℕ) (loc : Block.BlockLocation) (others : List Block.BlockLocation) (bytes : Bytes)
        → s.tasks t ≡ freeing (loc ∷ others)
        → (others ≡ [])
          × (has loc.block_index s.allocator.pool.free_list ≡ false)
          × ((a' : BlockAllocator) × (deallocate (handle_of loc) s.allocator ≡ done tt a')
              × Distinct a'.pool.free_list)
          × (¬ (
              (k : Key) × (e : IndexEntry) × (c.entries.get k s.entries ≡ some e)
              × (has loc.block_index (indices e.blocks) ≡ true)))
          × (¬ ((u : ℕ) × (t ≢ u) × (has loc.block_index (task_blocks (s.tasks u)) ≡ true)))
          × ((taken : Option (Block.BlockLocation × BlockHandle)) × (a' : BlockAllocator)
              × (allocate_and_write c.crc c.padding bytes s.allocator ≡ done taken a'))
    Reach-frees t loc others bytes busy =
        let (live', h) = reached in
        let (held, last) : IsHeld c s.allocator live' loc × (others ≡ []) =
          rw busy at (h.tasks t) in
        let (a', given, al, _, _, _) =
          deallocate-IsAllocator s.allocator live' loc.block_index h.allocator held.held in
        let mine : task_block (s.tasks t) ≡ some loc.block_index = ap task_block busy in
        (
          last,
          held_not_free s.allocator live' loc.block_index h.allocator held.held,
          (a', rw held.handle given, al.owns.free_distinct),
          (λ (k, e, found, at).
              h.apart k e t found (mine ∙ ap some (sym (single_block c (h.entries k e found) at)))),
          (λ (u, other, at). other (
              h.tasks_apart t u loc.block_index mine
                (one_task_block c s.allocator live' s.journal (s.tasks u) (h.tasks u) at))),
          written c s live' h bytes,
        )
