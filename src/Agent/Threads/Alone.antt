-- ===== src/Agent/Threads/Alone.antt =====
-- `store` and `delete` of crates/cmx-agent/src/grpc.rs, each run by one thread, as steps of it.
use cmx_rdma.Base.{
  ℕ, zero, suc, ◌≡◌, refl, sym, inl, inr, none, some, List, [], ◌∷◌, ◌++◌, arith, leb, Bool-cases,
  Option-cases, bytes_eq, Bytes,
}
use cmx_rdma.Base.Outcome.{done, Outcome-cases}
use cmx_rdma.BlockStore.Block
use cmx_rdma.BlockStore.Allocator.{BlockAllocator, deallocate}
use cmx_rdma.BlockStore.Eviction
use cmx_rdma.BlockStore.Index.{BlockIndex, evict_loop, make_room}
use cmx_rdma.Base.DashMap.{contains_key}
use cmx_rdma.Agent.Crates.{Key, Crates}
use cmx_rdma.Agent.Service.{ok, Service}
use cmx_rdma.Agent.Grpc.Store.{Message, StoreResponse, store}
use cmx_rdma.Agent.Grpc.Admin.{DeleteResponse, free_blocks, delete}
use cmx_rdma.Agent.Grpc.Fetch.{handle_of}
use cmx_rdma.Agent.Threads.{
  Task, idle, storing, freeing, set_task, Journal, note, Threads, stores, deletes, writes, files,
  evicts, takes, frees, ends, Reach, start, next,
}
use cmx_rdma.Agent.Threads.Tasks.{set_task-same, set_task-twice, idle_again}
use cmx_rdma.Agent.Threads.Taken.{
  store_block_taken, store_stream_taken, store_taken, record_block_taken, delete_taken,
}

module _ (c : Crates) where
  -- The blocks and the index of a service whose threads are at `tasks`.
  abbrev pub threads_of : Service c → (ℕ → Task) → Journal → Threads c
  threads_of s tasks journal = record {
    allocator = s.allocator;
    entries = s.index.map;
    tasks = tasks;
    journal = journal;
  }

  -- What the eviction loop takes out of the index.
  evict_loop-Reach :
      (fuel : ℕ) (s t : Threads c) (index index' : BlockIndex c.entries)
      (evicted evicted' : List Key)
      → Reach c s (record t { entries = index.map })
      → evict_loop c.entries fuel index evicted ≡ some (evicted', index')
      → Reach c s (record t { entries = index'.map })
  unfolding evict_loop
  evict_loop-Reach zero s t index index' evicted evicted' r ran = ground arith
  evict_loop-Reach (suc fuel) s t index index' evicted evicted' r ran =
      elim (Bool-cases (leb index.capacity (c.entries.len index.map))) [
        | inl full ↦ elim (Option-cases (Eviction.evict_lru index.lru)) [
          | inl broken ↦ absurd (ground arith)
          | inr ((none, lru), got) ↦
              let same_map : index.map ≡ index'.map = ground arith in rw (sym same_map) r
          | inr ((some victim, lru), got) ↦
              let index₁ = record index { map = c.entries.remove victim index.map; lru = lru } in
              let again : evict_loop c.entries fuel index₁ (evicted ++ victim ∷ [])
                  ≡ some (evicted', index') =
                ground arith in
              evict_loop-Reach fuel s t index₁ index' (evicted ++ victim ∷ []) evicted'
                (next r (evicts victim refl)) again
        ]
        | inr roomy ↦ let same_map : index.map ≡ index'.map = ground arith in rw (sym same_map) r
      ]

  make_room-Reach :
      (s t : Threads c) (key : Key) (index index' : BlockIndex c.entries) (evicted : List Key)
      → Reach c s (record t { entries = index.map })
      → make_room c.entries key index ≡ some (evicted, index')
      → Reach c s (record t { entries = index'.map })
  unfolding make_room
  make_room-Reach s t key index index' evicted r ran =
      elim (Bool-cases (contains_key c.entries key index.map)) [
        | inl present ↦ let same_map : index.map ≡ index'.map = ground arith in rw (sym same_map) r
        | inr new' ↦
            let looped : evict_loop c.entries (suc (c.entries.len index.map)) index []
                ≡ some (evicted, index') =
              ground arith in
            evict_loop-Reach (suc (c.entries.len index.map)) s t index index' [] evicted r looped
      ]

  same_threads :
      (s : Service c) (a : BlockAllocator) (map : c.entries.Map) (tasks tasks' : ℕ → Task)
      (journal : Journal)
      → s.allocator ≡ a
      → s.index.map ≡ map
      → tasks ≡ tasks'
      → threads_of s tasks' journal
        ≡ record { allocator = a; entries = map; tasks = tasks; journal = journal }
  same_threads s a map tasks tasks' journal same_allocator same_map over =
      rw (same_allocator, same_map, over) refl

  -- A `store` that succeeds on a thread that has no other work is a sequence of the steps of the
  -- threads, from its state to the state that it leaves, and it leaves all threads where they
  -- were.
  pub store-Reach :
      (t now : ℕ) (stream : List Message) (s s' : Service c) (reply : StoreResponse)
      (tasks : ℕ → Task) (journal : Journal)
      → tasks t ≡ idle
      → store c now stream s ≡ done (ok reply) s'
      → (journal' : Journal) × Reach c (threads_of s tasks journal) (threads_of s' tasks journal')
  store-Reach t now stream s s' reply tasks journal free ran =
      let (key, bytes, one) =
        store_stream_taken c now stream s s' reply (store_taken c now stream s s' reply ran) in
      let (loc, handle, a, wrote, recorded) = store_block_taken c now key bytes s s' reply one in
      let (evicted, index, roomy, same_map, same_allocator) =
        record_block_taken c now key loc (record s { allocator = a }) s' reply recorded in
      let s₀ = threads_of s tasks journal in
      let s₁ : Threads c = record {
        allocator = a;
        entries = s.index.map;
        tasks = set_task t (storing key loc) tasks;
        journal = note loc.block_index key bytes journal;
      } in
      let made =
        make_room-Reach s₀ s₁ key s.index index evicted
          (next start (stores (writes t key bytes loc handle a free wrote refl))) roomy in
      (
        s₁.journal,
        next made (
            stores (
              files t key loc now (set_task-same t (storing key loc) tasks) (
                same_threads s' a _ _ tasks s₁.journal same_allocator same_map
                  (idle_again t (storing key loc) tasks free)))),
      )

  -- The loop that gives blocks back.
  free_blocks-Reach :
      (t : ℕ) (s u : Threads c) (locs : List Block.BlockLocation) (a a' : BlockAllocator)
      → Reach c s (record u { allocator = a; tasks = set_task t (freeing locs) u.tasks })
      → free_blocks locs a ≡ done tt a'
      → Reach c s (record u { allocator = a'; tasks = set_task t (freeing []) u.tasks })
  unfolding free_blocks
  free_blocks-Reach t s u [] a a' r ran =
      let same_state : a ≡ a' = ground arith in rw (sym same_state) r
  free_blocks-Reach t s u (loc ∷ others) a a' r ran =
      elim (Outcome-cases (deallocate (handle_of loc) a)) [
        | inl (a₁, broken) ↦ absurd (ground arith)
        | inr (tt, a₁, given) ↦
            free_blocks-Reach t s u others a₁ a'
              (next r (
                deletes (
                  frees t loc others a₁ (set_task-same t (freeing (loc ∷ others)) u.tasks) given (
                    rw (set_task-twice t (freeing (loc ∷ others)) (freeing others) u.tasks) refl))))
              (ground arith)
      ]

  -- A `delete` that is answered on a thread that has no other work, whether it finds an entry or
  -- not, is a sequence of the steps of the threads, from its state to the state that it leaves,
  -- and it leaves all threads where they were and what was written into the blocks as it was.
  pub delete-Reach :
      (t : ℕ) (hash : Bytes) (s s' : Service c) (reply : DeleteResponse) (tasks : ℕ → Task)
      (journal : Journal)
      → tasks t ≡ idle
      → delete c hash s ≡ done (ok reply) s'
      → Reach c (threads_of s tasks journal) (threads_of s' tasks journal)
  delete-Reach t hash s s' reply tasks journal free ran =
      elim (delete_taken c hash s s' reply ran) [
        | inl (same_allocator, same_map) ↦ rw (same_allocator, same_map) start
        | inr (entry, found, freed, cut) ↦
            let s₀ = threads_of s tasks journal in
            let u = record s₀ { entries = c.entries.remove hash s.index.map } in
            let given =
              free_blocks-Reach t s₀ u entry.blocks s.allocator s'.allocator
                (next start (deletes (takes t hash entry free found refl))) freed in
            next given (
              deletes (
                ends t (set_task-same t (freeing []) tasks)
                  (rw (cut, idle_again t (freeing []) tasks free) refl)))
      ]
