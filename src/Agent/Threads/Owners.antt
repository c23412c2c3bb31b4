-- ===== src/Agent/Threads/Owners.antt =====
-- Who owns the blocks of the pool while handlers of crates/cmx-agent/src/grpc.rs run side by side.
use cmx_rdma.Base.{
  inr, inl, Bool-cases, false, ℕ, ◌≤◌, ◌≡◌, ◌≢◌, ap, ◌∙◌, sym, true, Option, none, some, List, [],
  ◌∷◌, arith, has, nat_eq, bytes_eq, Bytes,
}
use cmx_rdma.Memory.Pool.{u32}
use cmx_rdma.Memory.Pool.Ownership.{issued}
use cmx_rdma.BlockStore.Block
use cmx_rdma.BlockStore.Allocator.{BlockAllocator, read_verified}
use cmx_rdma.BlockStore.Allocator.Integrity.{IsAllocator}
use cmx_rdma.BlockStore.Index.{IndexEntry}
use cmx_rdma.Agent.Crates.{Key, Crates}
use cmx_rdma.Agent.Grpc.Fetch.{handle_of}
use cmx_rdma.Agent.Grpc.Serving.{first_block}
use cmx_rdma.Agent.Threads.{Task, idle, storing, freeing, Journal, Threads}

-- The block that a thread works on.
abbrev pub task_block : Task → Option ℕ
task_block idle = none
task_block (storing key loc) = some loc.block_index
task_block (freeing []) = none
task_block (freeing (loc ∷ rest)) = some loc.block_index

abbrev pub indices : List Block.BlockLocation → List ℕ
indices [] = []
indices (loc ∷ rest) = loc.block_index ∷ indices rest

-- All blocks that a thread works on.
abbrev pub task_blocks : Task → List ℕ
task_blocks idle = []
task_blocks (storing key loc) = loc.block_index ∷ []
task_blocks (freeing locs) = indices locs

-- A block that is held is not free.
pub held_not_free :
    (a : BlockAllocator) (live : List ℕ) (i : ℕ)
    → IsAllocator a live
    → has i live ≡ true
    → has i a.pool.free_list ≡ false
held_not_free a live i al held = elim (Bool-cases (has i a.pool.free_list)) [
  | inl free ↦ absurd (ground (arith, al.owns.apart i free))
  | inr busy ↦ busy
]

module _ (c : Crates) where
  -- A block that is held, under the handle that is rebuilt from its location.
  pub record IsHeld (a : BlockAllocator) (live : List ℕ) (loc : Block.BlockLocation) : Type 0 where
    pub handle : handle_of loc ≡ issued a.pool loc.block_index
    pub held : has loc.block_index live ≡ true

  -- The block holds what was written into it last, for the key.
  pub record Keeps (a : BlockAllocator) (journal : Journal) (key : Key) (loc : Block.BlockLocation)
      : Type 0 where
    pub bytes : Bytes
    pub noted : journal loc.block_index ≡ some (key, bytes)
    pub intact : read_verified c.crc (handle_of loc) a ≡ some (some bytes)

  pub record IsEntry (a : BlockAllocator) (live : List ℕ) (journal : Journal) (key : Key)
      (e : IndexEntry) : Type 0 where
    pub loc : Block.BlockLocation
    pub single : e.blocks ≡ loc ∷ []
    pub held : IsHeld a live loc
    pub keeps : Keeps a journal key loc

  abbrev pub IsTask : BlockAllocator → List ℕ → Journal → Task → Type 0
  IsTask a live journal idle = Unit {0}
  IsTask a live journal (storing key loc) = IsHeld a live loc × Keeps a journal key loc
  IsTask a live journal (freeing []) = Unit {0}
  IsTask a live journal (freeing (loc ∷ rest)) = IsHeld a live loc × (rest ≡ [])

  -- The block of a task that is held is the only one.
  pub one_task_block :
      (a : BlockAllocator) (live : List ℕ) (journal : Journal) {i : ℕ} (task : Task)
      → IsTask a live journal task
      → has i (task_blocks task) ≡ true
      → task_block task ≡ some i
  one_task_block a live journal idle h at = ground arith
  one_task_block a live journal (storing key loc) h at = ground arith
  one_task_block a live journal (freeing []) h at = ground arith
  one_task_block a live journal (freeing (loc ∷ rest)) (held, last) at = ground (arith, last)

  pub single_block :
      {a : BlockAllocator} {live : List ℕ} {journal : Journal} {key : Key} {e : IndexEntry} {i : ℕ}
      → IsEntry a live journal key e
      → has i (indices e.blocks) ≡ true
      → first_block e.blocks ≡ i
  single_block {e} {i} h at =
      let one : has i (h.loc.block_index ∷ []) ≡ true = rw h.single at at in
      ap first_block h.single ∙ ground (arith, one)

  -- Every block of an entry or of a thread is held and belongs to nobody else, and every entry has one
  -- block, which holds what was written into it last, for the key of the entry.
  pub record IsSafe (s : Threads c) (live : List ℕ) : Type 0 where
    pub allocator : IsAllocator s.allocator live
    pub first_pool : s.allocator.pool.pool_id ≡ 0
    pub small : s.allocator.pool.block_size ≤ u32
    pub entries :
        (k : Key) (e : IndexEntry)
        → c.entries.get k s.entries ≡ some e
        → IsEntry s.allocator live s.journal k e
    pub tasks : (t : ℕ) → IsTask s.allocator live s.journal (s.tasks t)
    pub entries_apart :
        (k j : Key) (e f : IndexEntry)
        → c.entries.get k s.entries ≡ some e
        → c.entries.get j s.entries ≡ some f
        → first_block e.blocks ≡ first_block f.blocks
        → k ≡ j
    pub tasks_apart :
        (t u i : ℕ) → task_block (s.tasks t) ≡ some i → task_block (s.tasks u) ≡ some i → t ≡ u
    pub apart :
        (k : Key) (e : IndexEntry) (t : ℕ)
        → c.entries.get k s.entries ≡ some e
        → task_block (s.tasks t) ≢ some (first_block e.blocks)

  -- What a change of the allocator does to the blocks that it leaves alone.
  pub record Spares (a a' : BlockAllocator) (live live' : List ℕ) (i : ℕ) : Type 0 where
    pub pool : a'.pool.pool_id ≡ a.pool.pool_id
    pub size : a'.pool.block_size ≡ a.pool.block_size
    pub held : (j : ℕ) → j ≢ i → has j live ≡ true → has j live' ≡ true
    pub reads :
        (j : ℕ)
        → j ≢ i
        → has j live ≡ true
        → read_verified c.crc (issued a.pool j) a' ≡ read_verified c.crc (issued a.pool j) a

  module _ (a a' : BlockAllocator) (live live' : List ℕ) (i : ℕ) (spares : Spares a a' live live' i)
      (journal journal' : Journal) (same_notes : (j : ℕ) → j ≢ i → journal' j ≡ journal j) where
    pub Spares-IsHeld :
        (loc : Block.BlockLocation) → loc.block_index ≢ i → IsHeld a live loc → IsHeld a' live' loc
    Spares-IsHeld loc other h = record {
      handle = h.handle ∙ ground (arith, spares.pool, spares.size);
      held = spares.held loc.block_index other h.held;
    }

    pub Spares-Keeps :
        (key : Key) (loc : Block.BlockLocation)
        → loc.block_index ≢ i
        → IsHeld a live loc
        → Keeps a journal key loc
        → Keeps a' journal' key loc
    Spares-Keeps key loc other h k = record {
      bytes = k.bytes;
      noted = same_notes loc.block_index other ∙ k.noted;
      intact =
          ap (λ x. read_verified c.crc x a') h.handle
          ∙ spares.reads loc.block_index other h.held
          ∙ sym (ap (λ x. read_verified c.crc x a) h.handle)
          ∙ k.intact;
    }

    pub Spares-IsEntry :
        (key : Key) (e : IndexEntry)
        → first_block e.blocks ≢ i
        → IsEntry a live journal key e
        → IsEntry a' live' journal' key e
    Spares-IsEntry key e other h =
        let apart : h.loc.block_index ≢ i = λ g. other (ap first_block h.single ∙ g) in
        record {
          loc = h.loc;
          single = h.single;
          held = Spares-IsHeld h.loc apart h.held;
          keeps = Spares-Keeps key h.loc apart h.held h.keeps;
        }

    pub Spares-IsTask :
        (task : Task)
        → task_block task ≢ some i
        → IsTask a live journal task
        → IsTask a' live' journal' task
    Spares-IsTask idle other h = tt
    Spares-IsTask (storing key loc) other (held, keeps) =
        let apart : loc.block_index ≢ i = λ g. other (ap some g) in
        (Spares-IsHeld loc apart held, Spares-Keeps key loc apart held keeps)
    Spares-IsTask (freeing []) other h = tt
    Spares-IsTask (freeing (loc ∷ rest)) other (held, last) =
        let apart : loc.block_index ≢ i = λ g. other (ap some g) in
        (Spares-IsHeld loc apart held, last)
