-- ===== src/Agent/Threads/Tasks.antt =====
-- A task of one thread of crates/cmx-agent/src/grpc.rs changes; the write of a block.
use cmx_rdma.Base.{
  fun_ext, ℕ, ◌==◌, ◌+◌, ◌≡◌, ◌≢◌, refl, ap, ◌∙◌, sym, inl, inr, ◌⊎◌, Option, none, some, List,
  arith, nat_eq, Bool-cases, bytes_eq, dec_lt, length, Bytes,
}
use cmx_rdma.Base.Outcome.{done}
use cmx_rdma.Memory.Pool.{BlockHandle}
use cmx_rdma.Memory.Pool.Ownership.{issued}
use cmx_rdma.BlockStore.Block
use cmx_rdma.BlockStore.Block.{header_size}
use cmx_rdma.BlockStore.Allocator.{BlockAllocator, allocate_and_write}
use cmx_rdma.BlockStore.Allocator.Integrity.{
  Written, located, allocate_and_write_lem, allocate_and_write_too_large,
  allocate_and_write_exhausted,
}
use cmx_rdma.Agent.Crates.{Crates}
use cmx_rdma.Agent.Threads.{idle, Task, set_task, Threads}
use cmx_rdma.Agent.Threads.Owners.{task_block, IsSafe}

pub set_task-cases :
    (t : ℕ) (task : Task) (tasks : ℕ → Task) (u : ℕ)
    → ((t ≡ u) × (set_task t task tasks u ≡ task)) ⊎ ((t ≢ u) × (set_task t task tasks u ≡ tasks u))
set_task-cases t task tasks u = elim (Bool-cases (t == u)) [
  | inl at ↦ inl (ground arith, rw at refl)
  | inr other ↦ inr ((λ h. ground arith), rw other refl)
]

pub set_task-same : (t : ℕ) (task : Task) (tasks : ℕ → Task) → set_task t task tasks t ≡ task
set_task-same t task tasks = ground arith

pub set_task-twice :
    (t : ℕ) (task task' : Task) (tasks : ℕ → Task)
    → set_task t task' (set_task t task tasks) ≡ set_task t task' tasks
set_task-twice t task task' tasks = fun_ext (λ u. ground arith)

-- A task that is over leaves the tasks as they were.
pub idle_again :
    (t : ℕ) (task : Task) (tasks : ℕ → Task)
    → tasks t ≡ idle
    → set_task t idle (set_task t task tasks) ≡ tasks
idle_again t task tasks free = fun_ext (λ u. ground arith)

-- One task changes, and every task still satisfies a predicate.
pub set_task-All :
    (P : Task → Type 0) (t : ℕ) (task : Task) (tasks : ℕ → Task)
    → P task
    → ((u : ℕ) → t ≢ u → P (tasks u))
    → (u : ℕ) → P (set_task t task tasks u)
set_task-All P t task tasks p ps u = elim (set_task-cases t task tasks u) [
  | inl (_, e) ↦ rw e p
  | inr (other, e) ↦ rw e (ps u other)
]

-- One task changes, and no two tasks work on the same block.
pub set_task-apart :
    (t : ℕ) (task : Task) (tasks : ℕ → Task)
    → ((u v i : ℕ) → task_block (tasks u) ≡ some i → task_block (tasks v) ≡ some i → u ≡ v)
    → ((u i : ℕ) → task_block task ≡ some i → task_block (tasks u) ≡ some i → t ≡ u)
    → (u v i : ℕ) → task_block (set_task t task tasks u) ≡ some i
    → task_block (set_task t task tasks v) ≡ some i
    → u ≡ v
set_task-apart t task tasks old new' u v i hu hv = elim (set_task-cases t task tasks u) [
  | inl (is_u, eu) ↦ elim (set_task-cases t task tasks v) [
    | inl (is_v, _) ↦ sym is_u ∙ is_v
    | inr (_, ev) ↦ sym is_u ∙ new' v i (ap task_block (sym eu) ∙ hu) (ap task_block (sym ev) ∙ hv)
  ]
  | inr (_, eu) ↦ elim (set_task-cases t task tasks v) [
    | inl (is_v, ev) ↦
        sym (new' u i (ap task_block (sym ev) ∙ hv) (ap task_block (sym eu) ∙ hu)) ∙ is_v
    | inr (_, ev) ↦ old u v i (ap task_block (sym eu) ∙ hu) (ap task_block (sym ev) ∙ hv)
  ]
]

module _ (c : Crates) where
  -- A write that gives a location has written a block that nobody held.
  pub wrote :
      (s : Threads c) (live : List ℕ) (h : IsSafe c s live) (bytes : Bytes)
      (loc : Block.BlockLocation) (handle : BlockHandle) (a : BlockAllocator)
      → allocate_and_write c.crc c.padding bytes s.allocator ≡ done (some (loc, handle)) a
      → (i : ℕ) × (located s.allocator i ≡ loc) × Written c.crc bytes i live s.allocator a
  wrote s live h bytes loc handle a ran =
      elim (dec_lt s.allocator.pool.block_size (header_size + length bytes)) [
        | yes large ↦ absurd (
            let refused =
              allocate_and_write_too_large c.crc c.padding c.padding_size s.allocator live
                h.allocator bytes large in
            ground (arith, refused))
        | no fits ↦ elim (dec_lt (length live) s.allocator.pool.total_blocks) [
          | no full ↦ absurd (
              let refused =
                allocate_and_write_exhausted c.crc c.padding c.padding_size s.allocator live
                  h.allocator bytes (omega (arith, h.allocator.owns.counted)) in
              ground (arith, refused))
          | yes spare ↦
              let (i, a', ran', w) =
                allocate_and_write_lem c.crc c.padding c.padding_size s.allocator live h.allocator
                  bytes (c.crc_u32 bytes) (omega (arith, h.small)) (omega arith) spare in
              let same_loc : located s.allocator i ≡ loc = ground arith in
              let same_state : a' ≡ a = ground arith in (i, same_loc, rw (sym same_state) w)
        ]
      ]

  -- No write panics.
  pub written :
      (s : Threads c) (live : List ℕ)
      → IsSafe c s live
      → (bytes : Bytes)
      → (taken : Option (Block.BlockLocation × BlockHandle)) × (a : BlockAllocator)
        × (allocate_and_write c.crc c.padding bytes s.allocator ≡ done taken a)
  written s live h bytes = elim (dec_lt s.allocator.pool.block_size (header_size + length bytes)) [
    | yes large ↦ (
      none,
      s.allocator,
      allocate_and_write_too_large c.crc c.padding c.padding_size s.allocator live h.allocator bytes
          large,
    )
    | no fits ↦ elim (dec_lt (length live) s.allocator.pool.total_blocks) [
      | no full ↦ (
        none,
        s.allocator,
        allocate_and_write_exhausted c.crc c.padding c.padding_size s.allocator live h.allocator
            bytes (omega (arith, h.allocator.owns.counted)),
      )
      | yes spare ↦
          let (i, a, ran, _) =
            allocate_and_write_lem c.crc c.padding c.padding_size s.allocator live h.allocator bytes
              (c.crc_u32 bytes) (omega (arith, h.small)) (omega arith) spare in
          (some (located s.allocator i, issued s.allocator.pool i), a, ran)
    ]
  ]
