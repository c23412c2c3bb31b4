-- ===== src/Agent/Threads/Entries.antt =====
-- The owners of blocks when a thread of crates/cmx-agent/src/grpc.rs changes the index.
use cmx_rdma.Base.{
  ℕ, ◌≡◌, ◌≢◌, refl, ap, ◌∙◌, sym, inl, inr, ◌⊎◌, none, some, List, [], ◌∷◌, arith, nat_eq,
  Bool-cases, bytes_eq, same, eq-of-same,
}
use cmx_rdma.BlockStore.Block
use cmx_rdma.BlockStore.Index.{IndexEntry}
use cmx_rdma.Agent.Crates.{Key, Crates}
use cmx_rdma.Agent.Grpc.Serving.{first_block}
use cmx_rdma.Agent.Threads.{Task, idle, storing, freeing, set_task, Threads}
use cmx_rdma.Agent.Threads.Owners.{task_block, IsHeld, Keeps, IsTask, IsSafe}
use cmx_rdma.Agent.Threads.Tasks.{set_task-cases, set_task-All, set_task-apart}

module _ (c : Crates) where
  module _ (s : Threads c) (live : List ℕ) (h : IsSafe c s live) where
    inserted :
        (key j : Key) (new' e : IndexEntry)
        → c.entries.get j (c.entries.insert key new' s.entries) ≡ some e
        → ((key ≡ j) × (new' ≡ e)) ⊎ ((key ≢ j) × (c.entries.get j s.entries ≡ some e))
    inserted key j new' e at = elim (Bool-cases (same key j)) [
      | inl yes' ↦
          inl (eq-of-same key j yes', ground (arith, c.entries.get-insert key j new' s.entries))
      | inr no' ↦
          inr ((λ g. ground arith), ground (arith, c.entries.get-insert key j new' s.entries))
    ]

    left :
        (key j : Key) (e : IndexEntry)
        → c.entries.get j (c.entries.remove key s.entries) ≡ some e
        → (key ≢ j) × (c.entries.get j s.entries ≡ some e)
    left key j e at = elim (Bool-cases (same key j)) [
      | inl yes' ↦ absurd (ground (arith, c.entries.get-remove key j s.entries))
      | inr no' ↦ ((λ g. ground arith), ground (arith, c.entries.get-remove key j s.entries))
    ]

    -- A thread has no block any more.
    pub rests-IsSafe :
        (t : ℕ) (task : Task)
        → task_block task ≡ none
        → IsTask c s.allocator live s.journal task
        → IsSafe c (record s { tasks = set_task t task s.tasks }) live
    rests-IsSafe t task nothing good = record {
      allocator = h.allocator;
      first_pool = h.first_pool;
      small = h.small;
      entries = h.entries;
      tasks =
          set_task-All (IsTask c s.allocator live s.journal) t task s.tasks good (λ u _. h.tasks u);
      entries_apart = h.entries_apart;
      tasks_apart =
          set_task-apart t task s.tasks h.tasks_apart (λ u j is_j at. absurd (ground arith));
      apart = λ k e u at. elim (set_task-cases t task s.tasks u) [
        | inl (_, is_new) ↦ λ g. ground (arith, is_new)
        | inr (_, is_old) ↦ λ g. h.apart k e u at (ap task_block (sym is_old) ∙ g)
      ];
    }

    pub evicts-IsSafe :
        (key : Key) → IsSafe c (record s { entries = c.entries.remove key s.entries }) live
    evicts-IsSafe key = record {
      allocator = h.allocator;
      first_pool = h.first_pool;
      small = h.small;
      entries = λ j e at. h.entries j e (left key j e at).1;
      tasks = h.tasks;
      entries_apart =
          λ k j e f at at'. h.entries_apart k j e f (left key k e at).1 (left key j f at').1;
      tasks_apart = h.tasks_apart;
      apart = λ k e u at. h.apart k e u (left key k e at).1;
    }

    pub takes-IsSafe :
        (t : ℕ) (key : Key) (entry : IndexEntry)
        → c.entries.get key s.entries ≡ some entry
        → IsSafe c
            (record s {
              entries = c.entries.remove key s.entries;
              tasks = set_task t (freeing entry.blocks) s.tasks;
            })
            live
    takes-IsSafe t key entry found =
        let n = h.entries key entry found in
        let task = freeing (n.loc ∷ []) in
        let mine : first_block entry.blocks ≡ n.loc.block_index = ap first_block n.single in
        rw n.single record {
          allocator = h.allocator;
          first_pool = h.first_pool;
          small = h.small;
          entries = λ j e at. h.entries j e (left key j e at).1;
          tasks =
              set_task-All (IsTask c s.allocator live s.journal) t task s.tasks (n.held, refl)
                (λ u _. h.tasks u);
          entries_apart =
              λ k j e f at at'. h.entries_apart k j e f (left key k e at).1 (left key j f at').1;
          tasks_apart = set_task-apart t task s.tasks h.tasks_apart (λ u j is_j at.
              absurd (h.apart key entry u found (at ∙ sym is_j ∙ ap some (sym mine))));
          apart = λ k e u at. elim (set_task-cases t task s.tasks u) [
            | inl (_, is_new) ↦ λ g. (left key k e at).0 (
                h.entries_apart key k entry e found (left key k e at).1
                  (mine ∙ ground (arith, is_new)))
            | inr (_, is_old) ↦
                λ g. h.apart k e u (left key k e at).1 (ap task_block (sym is_old) ∙ g)
          ];
        }

    pub files-IsSafe :
        (t : ℕ) (key : Key) (loc : Block.BlockLocation) (now : ℕ)
        → s.tasks t ≡ storing key loc
        → IsSafe c
            (record s {
              entries =
                  c.entries.insert key (record { blocks = loc ∷ []; created_at = now }) s.entries;
              tasks = set_task t idle s.tasks;
            })
            live
    files-IsSafe t key loc now busy =
        let new' : IndexEntry = record { blocks = loc ∷ []; created_at = now } in
        let (held, keeps) : IsHeld c s.allocator live loc × Keeps c s.allocator s.journal key loc =
          rw busy at (h.tasks t) in
        let mine : task_block (s.tasks t) ≡ some loc.block_index = ap task_block busy in
        record {
          allocator = h.allocator;
          first_pool = h.first_pool;
          small = h.small;
          entries = λ j e at. elim (inserted key j new' e at) [
            | inl (same_key, is_new) ↦
                rw (sym same_key, sym is_new)
                  record { loc = loc; single = refl; held = held; keeps = keeps }
            | inr (_, old) ↦ h.entries j e old
          ];
          tasks =
              set_task-All (IsTask c s.allocator live s.journal) t idle s.tasks tt
                (λ u _. h.tasks u);
          entries_apart = λ k j e f at at' same_block. elim (inserted key k new' e at) [
            | inl (is_k, new_k) ↦ elim (inserted key j new' f at') [
              | inl (is_j, _) ↦ sym is_k ∙ is_j
              | inr (_, old) ↦ absurd (h.apart j f t old (ground (arith, mine, new_k, same_block)))
            ]
            | inr (_, old_k) ↦ elim (inserted key j new' f at') [
              | inl (_, new_j) ↦
                  absurd (h.apart k e t old_k (ground (arith, mine, new_j, same_block)))
              | inr (_, old_j) ↦ h.entries_apart k j e f old_k old_j same_block
            ]
          ];
          tasks_apart =
              set_task-apart t idle s.tasks h.tasks_apart (λ u j is_j at. absurd (ground arith));
          apart = λ k e u at g. elim (set_task-cases t idle s.tasks u) [
            | inl (_, is_idle) ↦ absurd (ground (arith, is_idle))
            | inr (other, is_old) ↦ elim (inserted key k new' e at) [
              | inl (_, new_k) ↦
                  other (h.tasks_apart t u loc.block_index mine (ground (arith, is_old, new_k)))
              | inr (_, old) ↦ h.apart k e u old (ap task_block (sym is_old) ∙ g)
            ]
          ];
        }
