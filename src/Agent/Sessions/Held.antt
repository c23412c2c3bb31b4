-- ===== src/Agent/Sessions/Held.antt =====
-- The block that a task of `get` of crates/cmx-agent/src/grpc.rs is still to read.
use cmx_rdma.Base.{
  erase, ℕ, ◌≡◌, ◌≢◌, ap, ◌∙◌, sym, inl, inr, true, false, some, List, ◌∷◌, arith, has,
  has-erase_ne, bytes_eq, same, eq-of-same, nat_eq, Bool-cases, Bytes,
}
use cmx_rdma.Memory.Pool.Ownership.{issued}
use cmx_rdma.BlockStore.Block
use cmx_rdma.BlockStore.Allocator.{read_verified}
use cmx_rdma.BlockStore.Index.{IndexEntry}
use cmx_rdma.Agent.Crates.{Key, Crates}
use cmx_rdma.Agent.Service.{Service}
use cmx_rdma.Agent.Grpc.Fetch.{handle_of}
use cmx_rdma.Agent.Grpc.Serving.{first_block, entry_at, IsService, Serves}
use cmx_rdma.Agent.Grpc.Storing.{Stored}
use cmx_rdma.Agent.Grpc.Deleting.{Deleted}
use cmx_rdma.Agent.Sessions.Steps.{Quiet}

module _ (c : Crates) (key : Key) (loc : Block.BlockLocation) (bytes : Bytes) where
  -- The block of a task is held, holds the data, and belongs to no other key.
  pub record IsPending (s : Service c) (live : List ℕ) : Type 0 where
    pub held : has loc.block_index live ≡ true
    pub handle : handle_of loc ≡ issued s.allocator.pool loc.block_index
    pub intact : read_verified c.crc (handle_of loc) s.allocator ≡ some (some bytes)
    pub only :
        (j : Key) (e : IndexEntry)
        → entry_at c j s ≡ some e
        → first_block e.blocks ≡ loc.block_index
        → key ≡ j

  module _ (s : Service c) (ks : List Key) (live : List ℕ) (v : IsService c s ks live)
      (p : IsPending s live) where
    pub Quiet-IsPending : (s' : Service c) → Quiet c s s' → IsPending s' live
    Quiet-IsPending s' q = record {
      held = p.held;
      handle = rw q.allocator p.handle;
      intact = rw q.allocator p.intact;
      only = λ j e at first. p.only j e (rw (← q.map) at) first;
    }

    pub Stored-IsPending :
        (new : Key) (data' : Bytes) (i : ℕ) (s' : Service c)
        → Stored c s ks live v data' new i s'
        → IsPending s' (i ∷ live)
    Stored-IsPending new data' i s' after = record {
      held = ground (arith, p.held);
      handle = p.handle ∙ ground (arith, after.same_pool, after.same_size);
      intact =
          ap (λ x. read_verified c.crc x s'.allocator) p.handle
          ∙ after.blocks loc.block_index p.held
          ∙ sym (ap (λ x. read_verified c.crc x s.allocator) p.handle)
          ∙ p.intact;
      only = λ j e at first. elim (Bool-cases (same new j)) [
        | inl same_key ↦
            let is_new : new ≡ j = eq-of-same new j same_key in
            let at_new : i ≡ loc.block_index = sym (after.new_block e (rw is_new at)) ∙ first in
            let fresh : has loc.block_index live ≡ false = rw (sym at_new) after.fresh in
            absurd (ground (arith, p.held))
        | inr other ↦
            let apart : new ≢ j = λ h. ground arith in
            p.only j e (after.remains j e apart at).0 first
      ];
    }

    pub Deleted-IsPending :
        (hash : Key) (i : ℕ) (old : IndexEntry) (s' : Service c)
        → key ≢ hash
        → entry_at c hash s ≡ some old
        → Deleted c s ks live v hash i s'
        → IsPending s' (erase i live)
    Deleted-IsPending hash i old s' spared found after =
        let another : loc.block_index ≢ i =
          λ same_block. spared (p.only hash old found (after.owned old found ∙ sym same_block)) in
        record {
          held = has-erase_ne loc.block_index i live another ∙ p.held;
          handle = p.handle ∙ ground (arith, after.same_pool, after.same_size);
          intact = after.blocks (handle_of loc) ∙ p.intact;
          only = λ j e at first. elim (Bool-cases (same hash j)) [
            | inl same_key ↦
                let is_key : hash ≡ j = eq-of-same hash j same_key in
                absurd (
                  let there : entry_at c hash s' ≡ some e = rw is_key at in
                  ground (arith, after.gone))
            | inr other ↦
                let apart : hash ≢ j = λ h. ground arith in
                p.only j e (sym (after.kept j apart) ∙ at) first
          ];
        }

-- What is served can be read later.
pub Serves-IsPending :
    (c : Crates) (s : Service c) (ks : List Key) (live : List ℕ) (v : IsService c s ks live)
    (key : Key) (bytes : Bytes) (served : Serves c s key bytes)
    → IsPending c key served.loc bytes s live
Serves-IsPending c s ks live v key bytes served =
    let b = v.backed key served.entry served.found in
    let same_loc : served.loc ≡ b.loc = ground (arith, served.single, b.single) in
    record {
      held = rw same_loc b.held;
      handle = rw same_loc b.handle;
      intact = served.intact;
      only = λ j e at first.
          v.apart key j served.entry e served.found at (ap first_block served.single ∙ sym first);
    }
