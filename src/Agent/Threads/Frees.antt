-- ===== src/Agent/Threads/Frees.antt =====
-- The owners of blocks when a thread of crates/cmx-agent/src/grpc.rs gives one back.
use cmx_rdma.Base.{
  ℕ, ◌≡◌, refl, ap, ◌∙◌, sym, inl, inr, some, List, [], ◌∷◌, arith, has-erase_ne, erase, nat_eq,
  bytes_eq,
}
use cmx_rdma.Base.Outcome.{done}
use cmx_rdma.Memory.Pool.Ownership.{issued}
use cmx_rdma.BlockStore.Block
use cmx_rdma.BlockStore.Allocator.{BlockAllocator, deallocate}
use cmx_rdma.BlockStore.Allocator.Integrity.{deallocate-IsAllocator}
use cmx_rdma.Agent.Crates.{Crates}
use cmx_rdma.Agent.Grpc.Fetch.{handle_of}
use cmx_rdma.Agent.Grpc.Deleting.{read_verified-same}
use cmx_rdma.Agent.Threads.{freeing, set_task, Threads}
use cmx_rdma.Agent.Threads.Owners.{
  task_block, IsHeld, IsTask, IsSafe, Spares, Spares-IsEntry, Spares-IsTask,
}
use cmx_rdma.Agent.Threads.Tasks.{set_task-cases, set_task-All, set_task-apart}

module _ (c : Crates) where
  module _ (s : Threads c) (live : List ℕ) (h : IsSafe c s live) where
    pub frees-IsSafe :
        (t : ℕ) (loc : Block.BlockLocation) (rest : List Block.BlockLocation) (a : BlockAllocator)
        → s.tasks t ≡ freeing (loc ∷ rest)
        → deallocate (handle_of loc) s.allocator ≡ done tt a
        → IsSafe c
            (record s { allocator = a; tasks = set_task t (freeing rest) s.tasks })
            (erase loc.block_index live)
    frees-IsSafe t loc rest a busy ran =
        let i = loc.block_index in
        let live' = erase i live in
        let (held, last) : IsHeld c s.allocator live loc × (rest ≡ []) = rw busy at (h.tasks t) in
        let (a', given, al, region, pool, size) =
          deallocate-IsAllocator s.allocator live i h.allocator held.held in
        let same_state : a' ≡ a = ground (arith, held.handle) in
        let mine : task_block (s.tasks t) ≡ some i = ap task_block busy in
        let sp : Spares c s.allocator a' live live' i = record {
          pool = pool;
          size = size;
          held = λ j other p. has-erase_ne j i live other ∙ p;
          reads = λ j other p.
              read_verified-same c.crc (issued s.allocator.pool j) s.allocator a' region pool size;
        } in
        rw (sym same_state, last)
          record {
            allocator = al;
            first_pool = pool ∙ h.first_pool;
            small = ground (arith, size, h.small);
            entries = λ k e at.
                Spares-IsEntry c s.allocator a' live live' i sp s.journal s.journal (λ j _. refl) k
                  e (λ g. h.apart k e t at (mine ∙ ap some (sym g))) (h.entries k e at);
            tasks = set_task-All (IsTask c a' live' s.journal) t (freeing []) s.tasks tt (λ u other.
                Spares-IsTask c s.allocator a' live live' i sp s.journal s.journal (λ j _. refl)
                  (s.tasks u) (λ g. other (h.tasks_apart t u i mine g)) (h.tasks u));
            entries_apart = h.entries_apart;
            tasks_apart =
                set_task-apart t (freeing []) s.tasks h.tasks_apart
                  (λ u j is_j at. absurd (ground arith));
            apart = λ k e u at. elim (set_task-cases t (freeing []) s.tasks u) [
              | inl (_, is_new) ↦ λ g. ground (arith, is_new)
              | inr (_, is_old) ↦ λ g. h.apart k e u at (ap task_block (sym is_old) ∙ g)
            ];
          }
