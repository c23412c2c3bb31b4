-- ===== src/Agent/Threads.antt =====
-- Handlers of crates/cmx-agent/src/grpc.rs on several threads at the same time. One step is one call of
-- the allocator, which writes only into the block that it has taken, or of the concurrent map of the index;
-- which keys the policy of crates/cmx-block-store/src/index.rs evicts, and when, is left open. The locks and
-- the eviction loop are no part of a thread.
pub mod Owners
pub mod Tasks
pub mod Writes
pub mod Entries
pub mod Frees
pub mod Safe
pub mod Taken
pub mod Alone
use cmx_rdma.Base.{ℕ, ◌==◌, ◌≡◌, Option, none, some, List, [], ◌∷◌, if◌then◌else◌, bytes_eq, Bytes}
use cmx_rdma.Base.Outcome.{done}
use cmx_rdma.Memory.Pool.{BlockHandle}
use cmx_rdma.BlockStore.Block
use cmx_rdma.BlockStore.Allocator.{BlockAllocator, allocate_and_write, deallocate}
use cmx_rdma.BlockStore.Index.{IndexEntry}
use cmx_rdma.Agent.Crates.{Key, Crates}
use cmx_rdma.Agent.Grpc.Fetch.{handle_of}

-- How far a thread is: it answers no request, or one that has nothing left to do with blocks; it has
-- written the block of a `store` and will put it into the index; it has taken an entry out of the index
-- for a `delete` and will give its blocks back.
pub data Task : Type 0 where
  idle : Task
  storing : Key → Block.BlockLocation → Task
  freeing : List Block.BlockLocation → Task

abbrev pub set_task : ℕ → Task → (ℕ → Task) → ℕ → Task
set_task t task tasks u = if t == u then task else tasks u

-- What was written last into each block, and for which key.
abbrev pub Journal : Type 0
Journal = ℕ → Option (Key × Bytes)

abbrev pub note : ℕ → Key → Bytes → Journal → Journal
note i key bytes journal j = if i == j then some (key, bytes) else journal j

module _ (c : Crates) where
  pub record Threads : Type 0 where
    pub allocator : BlockAllocator
    pub entries : c.entries.Map
    pub tasks : ℕ → Task
    pub journal : Journal

  -- A step of a `store` on the thread `t`: the block is written, and put into the index.
  pub data StoreMove (s s' : Threads) : Type 0 where
    writes :
        (t : ℕ) (key : Key) (bytes : Bytes) (loc : Block.BlockLocation) (handle : BlockHandle)
        (a : BlockAllocator)
        → s.tasks t ≡ idle
        → allocate_and_write c.crc c.padding bytes s.allocator ≡ done (some (loc, handle)) a
        → s' ≡ record s {
          allocator = a;
          tasks = set_task t (storing key loc) s.tasks;
          journal = note loc.block_index key bytes s.journal;
        }
        → StoreMove s s'
    files :
        (t : ℕ) (key : Key) (loc : Block.BlockLocation) (now : ℕ)
        → s.tasks t ≡ storing key loc
        → s' ≡ record s {
          entries = c.entries.insert key (record { blocks = loc ∷ []; created_at = now }) s.entries;
          tasks = set_task t idle s.tasks;
        }
        → StoreMove s s'

  -- A step of a `delete` on the thread `t`: the entry is taken out, its blocks are given back one by one, and
  -- none is left.
  pub data DeleteMove (s s' : Threads) : Type 0 where
    takes :
        (t : ℕ) (key : Key) (entry : IndexEntry)
        → s.tasks t ≡ idle
        → c.entries.get key s.entries ≡ some entry
        → s' ≡ record s {
          entries = c.entries.remove key s.entries;
          tasks = set_task t (freeing entry.blocks) s.tasks;
        }
        → DeleteMove s s'
    frees :
        (t : ℕ) (loc : Block.BlockLocation) (rest : List Block.BlockLocation) (a : BlockAllocator)
        → s.tasks t ≡ freeing (loc ∷ rest)
        → deallocate (handle_of loc) s.allocator ≡ done tt a
        → s' ≡ record s { allocator = a; tasks = set_task t (freeing rest) s.tasks }
        → DeleteMove s s'
    ends :
        (t : ℕ)
        → s.tasks t ≡ freeing []
        → s' ≡ record s { tasks = set_task t idle s.tasks }
        → DeleteMove s s'

  -- A step of any thread; the eviction of `insert` may drop any key at any time.
  pub data Move (s s' : Threads) : Type 0 where
    stores : StoreMove s s' → Move s s'
    evicts : (key : Key) → s' ≡ record s { entries = c.entries.remove key s.entries } → Move s s'
    deletes : DeleteMove s s' → Move s s'

  -- Any number of steps, by any threads.
  pub data Reach (s : Threads) : Threads → Type 0 where
    start : Reach s s
    next : {t u : Threads} → Reach s t → Move t u → Reach s u

  -- The index is empty, and no thread works on a block.
  abbrev pub started : BlockAllocator → Threads
  started allocator = record {
    allocator = allocator;
    entries = c.entries.empty;
    tasks = λ _. idle;
    journal = λ _. none;
  }
