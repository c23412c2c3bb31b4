-- ===== src/Tests/ThreadRuns.antt =====
-- Runs of handlers on several threads, and of `store` and `delete` on one.
use cmx_rdma.Base.{
  List, ◌≢◌, Distinct, false, has, true, ℕ, ◌≡◌, refl, Option, none, some, [], ◌∷◌, arith, nat_eq,
  bytes_eq, Bytes,
}
use cmx_rdma.Base.Outcome.{done}
use cmx_rdma.Memory.Pool.{BlockHandle}
use cmx_rdma.Memory.Pool.Ownership.{issued}
use cmx_rdma.BlockStore.Block
use cmx_rdma.BlockStore.Allocator.{BlockAllocator, allocate_and_write, deallocate, read_verified}
use cmx_rdma.BlockStore.Allocator.Integrity.{located, allocate_and_write_lem}
use cmx_rdma.BlockStore.Index.{IndexEntry}
use cmx_rdma.Agent.Service.{ok, Service}
use cmx_rdma.Agent.Grpc.Store
use cmx_rdma.Agent.Grpc.Store.{store}
use cmx_rdma.Agent.Grpc.Storing.{store-Stored}
use cmx_rdma.Agent.Grpc.Admin.{delete}
use cmx_rdma.Agent.Grpc.Deleting.{delete-Deleted}
use cmx_rdma.Agent.Grpc.Fetch.{handle_of}
use cmx_rdma.Agent.Threads.{
  Task, idle, storing, freeing, set_task, Journal, note, Threads, stores, deletes, writes, files,
  takes, Reach, start, next, started,
}
use cmx_rdma.Agent.Threads.Safe.{Reach-keeps, Reach-frees}
use cmx_rdma.Agent.Threads.Alone.{threads_of, store-Reach, delete-Reach}
use cmx_rdma.Agent.Threads.Owners.{indices, task_blocks}
use cmx_rdma.Tests.Data.{crates, free_allocator, free_allocator-IsAllocator}
use cmx_rdma.Tests.ServiceRuns.{
  hash, service, service-IsService, stored_entry, found, request, chunks, collected,
}

abbrev no_tasks : ℕ → Task
no_tasks = λ _. idle

abbrev no_notes : Journal
no_notes = λ _. none

-- The thread 1 has written a block for `hash`, at the location `loc`.
abbrev after_write : BlockAllocator → Block.BlockLocation → Threads crates
after_write a loc = record {
  allocator = a;
  entries = crates.entries.empty;
  tasks = set_task 1 (storing hash loc) no_tasks;
  journal = note loc.block_index hash (97 ∷ []) no_notes;
}

abbrev filed_entry : Block.BlockLocation → IndexEntry
filed_entry loc = record { blocks = loc ∷ []; created_at = 5 }

-- The thread 1 has put the block into the index.
abbrev after_file : BlockAllocator → Block.BlockLocation → Threads crates
after_file a loc = record (after_write a loc) {
  entries = crates.entries.insert hash (filed_entry loc) crates.entries.empty;
  tasks = set_task 1 idle (set_task 1 (storing hash loc) no_tasks);
}

-- The thread 2 has taken the entry out.
abbrev after_take : BlockAllocator → Block.BlockLocation → Threads crates
after_take a loc = record (after_file a loc) {
  entries =
      crates.entries.remove hash
        (crates.entries.insert hash (filed_entry loc) crates.entries.empty);
  tasks =
      set_task 2 (freeing (loc ∷ [])) (set_task 1 idle (set_task 1 (storing hash loc) no_tasks));
}

first_write :
    (loc : Block.BlockLocation) × (handle : BlockHandle) × (a : BlockAllocator)
    × (allocate_and_write crates.crc crates.padding (97 ∷ []) free_allocator
        ≡ done (some (loc, handle)) a)
first_write =
    let (i, a, ran, _) =
      allocate_and_write_lem crates.crc crates.padding refl free_allocator []
        free_allocator-IsAllocator (97 ∷ []) (omega arith) (omega arith) (omega arith)
        (omega arith) in
    (located free_allocator i, issued free_allocator.pool i, a, ran)

files_run :
    (loc : Block.BlockLocation) (handle : BlockHandle) (a : BlockAllocator)
    → allocate_and_write crates.crc crates.padding (97 ∷ []) free_allocator
      ≡ done (some (loc, handle)) a
    → Reach crates (started crates free_allocator) (after_file a loc)
files_run loc handle a ran =
    let written : Reach crates (started crates free_allocator) (after_write a loc) =
      next start (stores (writes 1 hash (97 ∷ []) loc handle a refl ran refl)) in
    next written (stores (files 1 hash loc 5 refl refl))

takes_run :
    (loc : Block.BlockLocation) (handle : BlockHandle) (a : BlockAllocator)
    → allocate_and_write crates.crc crates.padding (97 ∷ []) free_allocator
      ≡ done (some (loc, handle)) a
    → Reach crates (started crates free_allocator) (after_take a loc)
takes_run loc handle a ran =
    next (files_run loc handle a ran)
      (deletes (takes 2 hash (filed_entry loc) refl (ground arith) refl))

Reach-keeps_example :
    (loc : Block.BlockLocation) × (bytes : Bytes) × ((filed_entry (first_write.0)).blocks
      ≡ loc ∷ [])
    × ((after_file (first_write.2) (first_write.0)).journal loc.block_index ≡ some (hash, bytes))
    × (read_verified crates.crc (handle_of loc) (first_write.2) ≡ some (some bytes))
Reach-keeps_example =
    Reach-keeps crates free_allocator [] free_allocator-IsAllocator refl (omega arith)
      (after_file (first_write.2) (first_write.0))
      (files_run (first_write.0) (first_write.1) (first_write.2) (first_write.3)) hash
      (filed_entry (first_write.0)) (ground arith)

abbrev no_more : List Block.BlockLocation
no_more = []

Reach-frees_example :
    (no_more ≡ [])
    × (has (first_write.0).block_index (first_write.2).pool.free_list ≡ false)
    × ((a : BlockAllocator) × (deallocate (handle_of (first_write.0)) (first_write.2) ≡ done tt a)
        × Distinct a.pool.free_list)
    × (¬ (
        (k : Bytes) × (e : IndexEntry) × (crates.entries.get k
            (after_take (first_write.2) (first_write.0)).entries
          ≡ some e)
        × (has (first_write.0).block_index (indices e.blocks) ≡ true)))
    × (¬ (
        (u : ℕ) × (2 ≢ u)
        × (has
              (first_write.0).block_index
              (task_blocks ((after_take (first_write.2) (first_write.0)).tasks u))
            ≡ true)))
    × ((taken : Option (Block.BlockLocation × BlockHandle)) × (a : BlockAllocator)
        × (allocate_and_write crates.crc crates.padding (98 ∷ []) (first_write.2) ≡ done taken a))
Reach-frees_example =
    Reach-frees crates free_allocator [] free_allocator-IsAllocator refl (omega arith)
      (after_take (first_write.2) (first_write.0))
      (takes_run (first_write.0) (first_write.1) (first_write.2) (first_write.3)) 2 (first_write.0)
      no_more (98 ∷ []) refl

a_store :
    (s' : Service crates) × (store crates 6 (Store.header request ∷ chunks) service
      ≡ done (ok (record { success = true; generation_id = 2 })) s')
a_store =
    let (_, s', ran, _) =
      store-Stored crates service (hash ∷ []) (1 ∷ []) service-IsService (97 ∷ 98 ∷ 99 ∷ []) 6
        request chunks (omega arith) refl (omega arith) collected (omega arith) (omega arith)
        (omega arith) in
    (s', ran)

store-Reach_example :
    (journal : Journal) × Reach crates
      (threads_of crates service no_tasks no_notes)
      (threads_of crates (a_store.0) no_tasks journal)
store-Reach_example =
    store-Reach crates 4 6 (Store.header request ∷ chunks) service (a_store.0)
      (record { success = true; generation_id = 2 }) no_tasks no_notes refl (a_store.1)

a_delete :
    (s' : Service crates) × (delete crates hash service
      ≡ done (ok (record { success = true; blocks_freed = 1 })) s')
a_delete =
    let (_, s', ran, _, _) =
      delete-Deleted crates service (hash ∷ []) (1 ∷ []) service-IsService hash stored_entry found
        refl in
    (s', ran)

delete-Reach_example :
    Reach crates
      (threads_of crates service no_tasks no_notes)
      (threads_of crates (a_delete.0) no_tasks no_notes)
delete-Reach_example =
    delete-Reach crates 4 hash service (a_delete.0) (record { success = true; blocks_freed = 1 })
      no_tasks no_notes refl (a_delete.1)
