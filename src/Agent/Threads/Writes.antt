-- ===== src/Agent/Threads/Writes.antt =====
-- The owners of blocks when a thread of crates/cmx-agent/src/grpc.rs writes one.
use cmx_rdma.Base.{
  ℕ, ◌==◌, ◌≡◌, ◌≢◌, refl, ap, ◌∙◌, sym, inl, inr, true, false, some, List, [], ◌∷◌, arith, has,
  nat_eq, bytes_eq, Bytes,
}
use cmx_rdma.Memory.Pool.Ownership.{issued}
use cmx_rdma.BlockStore.Allocator.{BlockAllocator, read_verified}
use cmx_rdma.BlockStore.Allocator.Integrity.{Written, located}
use cmx_rdma.BlockStore.Index.{IndexEntry}
use cmx_rdma.Agent.Crates.{Key, Crates}
use cmx_rdma.Agent.Grpc.Fetch.{handle_of}
use cmx_rdma.Agent.Grpc.Serving.{first_block}
use cmx_rdma.Agent.Threads.{Task, idle, storing, freeing, set_task, Journal, note, Threads}
use cmx_rdma.Agent.Threads.Owners.{
  task_block, IsHeld, Keeps, IsTask, IsSafe, Spares, Spares-IsEntry, Spares-IsTask,
}
use cmx_rdma.Agent.Threads.Tasks.{set_task-cases, set_task-All, set_task-apart}

note-other :
    (i : ℕ) (key : Key) (bytes : Bytes) (journal : Journal) (j : ℕ)
    → j ≢ i
    → note i key bytes journal j ≡ journal j
note-other i key bytes journal j other =
    let apart : (i == j) ≡ false = ground arith in rw apart refl

module _ (c : Crates) where
  Written-Spares :
      (a a' : BlockAllocator) (live : List ℕ) (i : ℕ) (bytes : Bytes)
      → Written c.crc bytes i live a a'
      → Spares c a a' live (i ∷ live) i
  Written-Spares a a' live i bytes w = record {
    pool = w.same_pool;
    size = w.same_size;
    held = λ j other h. ground arith;
    reads = λ j other h. w.others j h;
  }

  -- The block that was written last is held and keeps the bytes.
  Written-Keeps :
      (a a' : BlockAllocator) (live : List ℕ) (journal : Journal) (i : ℕ) (key : Key)
      (bytes : Bytes)
      → a.pool.pool_id ≡ 0
      → Written c.crc bytes i live a a'
      → IsHeld c a' (i ∷ live) (located a i)
        × Keeps c a' (note i key bytes journal) key (located a i)
  unfolding handle_of
  Written-Keeps a a' live journal i key bytes first w =
      let given : handle_of (located a i) ≡ issued a.pool i = ground (arith, first) in
      let given' : handle_of (located a i) ≡ issued a'.pool i =
        given ∙ ground (arith, w.same_pool, w.same_size) in
      (
        record { handle = given'; held = ground arith },
        record {
          bytes = bytes;
          noted = ground arith;
          intact = ap (λ x. read_verified c.crc x a') given ∙ w.intact;
        },
      )

  module _ (s : Threads c) (live : List ℕ) (h : IsSafe c s live) where
    entry_held :
        (k : Key) (e : IndexEntry)
        → c.entries.get k s.entries ≡ some e
        → has (first_block e.blocks) live ≡ true
    entry_held k e at =
        let n = h.entries k e at in ap (λ x. has (first_block x) live) n.single ∙ n.held.held

    task_held :
        (task : Task) (i : ℕ)
        → IsTask c s.allocator live s.journal task
        → task_block task ≡ some i
        → has i live ≡ true
    task_held idle i p at = ground arith
    task_held (storing key loc) i (p, _) at = ground (arith, p.held)
    task_held (freeing []) i p at = ground arith
    task_held (freeing (loc ∷ rest)) i (p, _) at = ground (arith, p.held)

    -- A write that a thread has done.
    pub writes-IsSafe :
        (t : ℕ) (key : Key) (bytes : Bytes) (i : ℕ) (a : BlockAllocator)
        → s.tasks t ≡ idle
        → Written c.crc bytes i live s.allocator a
        → IsSafe c
            (record s {
              allocator = a;
              tasks = set_task t (storing key (located s.allocator i)) s.tasks;
              journal = note i key bytes s.journal;
            })
            (i ∷ live)
    writes-IsSafe t key bytes i a free w =
        let sp = Written-Spares s.allocator a live i bytes w in
        let quiet = note-other i key bytes s.journal in
        let loc = located s.allocator i in
        let fresh : (j : ℕ) → has j live ≡ true → j ≢ i = λ j p q. ground (arith, w.fresh) in
        let task_fresh : (u : ℕ) → task_block (s.tasks u) ≢ some i =
          λ u g. ground (arith, w.fresh, task_held (s.tasks u) i (h.tasks u) g) in
        record {
          allocator = w.allocator;
          first_pool = w.same_pool ∙ h.first_pool;
          small = ground (arith, w.same_size, h.small);
          entries = λ k e at.
              Spares-IsEntry c s.allocator a live (i ∷ live) i sp s.journal _ quiet k e
                (fresh (first_block e.blocks) (entry_held k e at)) (h.entries k e at);
          tasks =
              set_task-All (IsTask c a (i ∷ live) (note i key bytes s.journal)) t (storing key loc)
                s.tasks (Written-Keeps s.allocator a live s.journal i key bytes h.first_pool w)
                (λ u _.
                  Spares-IsTask c s.allocator a live (i ∷ live) i sp s.journal _ quiet (s.tasks u)
                    (task_fresh u) (h.tasks u));
          entries_apart = h.entries_apart;
          tasks_apart =
              set_task-apart t (storing key loc) s.tasks h.tasks_apart
                (λ u j is_i at. absurd (task_fresh u (ground arith)));
          apart = λ k e u at. elim (set_task-cases t (storing key loc) s.tasks u) [
            | inl (_, is_new) ↦
                λ g. fresh (first_block e.blocks) (entry_held k e at) (ground (arith, is_new))
            | inr (_, is_old) ↦ λ g. h.apart k e u at (ap task_block (sym is_old) ∙ g)
          ];
        }
