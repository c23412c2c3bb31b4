-- ===== src/Agent/Grpc/Filling.antt =====
-- How the pool fills up under `store` of crates/cmx-agent/src/grpc.rs, which never gives a block back.
use mathlib.Core.List.{reverse}
use cmx_rdma.Base.{
  ℕ, suc, ◌+◌, ◌-◌, ◌<◌, ◌≤◌, ◌≡◌, ◌≢◌, refl, ap, ◌∙◌, sym, inl, inr, true, some, List, [], ◌∷◌,
  arith, has, has-erase_ne, length-erase, erase, nat_eq, bytes_eq, Distinct, length, Bool-cases,
  Option-cases, All,
}
use cmx_rdma.Base.Outcome.{done, panic}
use cmx_rdma.Memory.Pool.{u64, u32}
use cmx_rdma.BlockStore.Index.{IndexEntry}
use cmx_rdma.BlockStore.Index.Evict.{drop_all}
use cmx_rdma.BlockStore.Index.Refines.{dropped}
use cmx_rdma.Agent.Crates.{Key, Crates}
use cmx_rdma.Agent.Service.{composite_key, Reply, ok, err, Service}
use cmx_rdma.Agent.Grpc.Store.{StoreResponse, Message, store}
use cmx_rdma.Agent.Grpc.Serving.{first_block, entry_at, IsService}
use cmx_rdma.Agent.Grpc.Refusing.{IsModest, Refused, store_answers}

-- Keys that own different blocks of a list are not more than the list has.
owners-le :
    (ks : List Key) (live : List ℕ) (owns : Key → ℕ → Type 0)
    → Distinct ks
    → ((k : Key) → has k ks ≡ true → (i : ℕ) × owns k i × (has i live ≡ true))
    → ((k j : Key) (i : ℕ) → owns k i → owns j i → k ≡ j)
    → length ks ≤ length live
owners-le [] live owns d own apart = omega arith
owners-le (k ∷ ks) live owns d own apart =
    let (i, owned, there) = own k (ground arith) in
    let rest =
      owners-le ks (erase i live) owns d.1
        (λ j h.
          let (n, owned', there') = own j (ground arith) in
          let other : n ≢ i = λ same_block.
            let same_key : j ≡ k = apart j k i (rw (← same_block) owned') owned in
            ground (arith, d.0, h, same_key) in
          (n, owned', has-erase_ne n i live other ∙ there'))
        apart in
    omega (arith, rest, length-erase i live there)

module _ (c : Crates) (s : Service c) (ks : List Key) (live : List ℕ)
    (v : IsService c s ks live) where
  -- The index has no more entries than there are blocks held.
  pub entries_le_live : length ks ≤ length live
  entries_le_live =
      owners-le ks live
        (λ k i. (e : IndexEntry) × (entry_at c k s ≡ some e) × (first_block e.blocks ≡ i))
        v.index.distinct
        (λ k h. elim (Option-cases (entry_at c k s)) [
          | inl absent ↦ absurd (ground (arith, v.index.known k))
          | inr (e, found) ↦
              let b = v.backed k e found in
              (b.loc.block_index, (e, found, ap first_block b.single), b.held)
        ])
        (λ k j i (e, at, one) (f, at', other). v.apart k j e f at at' (one ∙ sym other))

  -- As long as the index may have as many entries as the pool has blocks, which is what `main`
  -- chooses, a store that finds a free block evicts nothing: eviction never happens.
  pub dropped-nil :
      (key : Key)
      → length live < s.allocator.pool.total_blocks
      → s.allocator.pool.total_blocks ≤ s.index.capacity
      → dropped c.entries s.index key ks ≡ []
  unfolding dropped
  dropped-nil key spare large = elim (Bool-cases (has key ks)) [
    | inl there ↦ rw (there, dropped)
    | inr out ↦
        rw (out, dropped) (drop_all (s.index.capacity - 1) ks (omega (arith, entries_le_live)))
  ]

module _ (c : Crates) where
  -- The number of stores of a run that succeed; a panic ends the run.
  unfoldable pub successes : List (ℕ × List Message) → Service c → ℕ
  unfolding store
  successes [] s = 0
  successes ((now, stream) ∷ rest) s = elim (store c now stream s) [
    | panic s' ↦ 0
    | done (err e) s' ↦ successes rest s'
    | done (ok r) s' ↦ suc (successes rest s')
  ]

  successes-err :
      (now : ℕ) (stream : List Message) (rest : List (ℕ × List Message)) (s : Service c)
      → Refused c s now stream
      → successes ((now, stream) ∷ rest) s ≡ successes rest s
  unfolding successes
  successes-err now stream rest s (e, ran) = rw (ran, successes)

  successes-ok :
      (now : ℕ) (stream : List Message) (rest : List (ℕ × List Message)) (s s' : Service c)
      (r : StoreResponse)
      → store c now stream s ≡ done (ok r) s'
      → successes ((now, stream) ∷ rest) s ≡ suc (successes rest s')
  unfolding successes
  successes-ok now stream rest s s' r ran = rw (ran, successes)

  -- In a run of stores, however the keys repeat and whatever is evicted, no more stores succeed than
  -- the pool has free blocks at the beginning.
  pub successes-le :
      (runs : List (ℕ × List Message)) (s : Service c) (ks : List Key) (live : List ℕ)
      → IsService c s ks live
      → s.allocator.pool.block_size ≤ u32
      → All (λ run. IsModest run.1) runs
      → successes runs s + length live ≤ s.allocator.pool.total_blocks
  unfolding successes
  successes-le [] s ks live v small modest = omega (arith, v.allocator.owns.counted)
  successes-le ((now, stream) ∷ rest) s ks live v small (m, modest) =
      elim (store_answers c s ks live v now stream small m) [
        | inl refused ↦ omega (
          arith,
          successes-err now stream rest s refused,
          successes-le rest s ks live v small modest,
        )
        | inr (h, chunks, bytes, i, s', _, _, ran, after) ↦
            let more =
              successes-le rest s' _ (i ∷ live) after.service (omega (arith, after.same_size))
                modest in
            omega (arith, successes-ok now stream rest s s' _ ran, more, after.same_total)
      ]

  -- If the index may have as many entries as the pool has blocks, which is what `main` chooses, and
  -- blocks have at most 2^32 bytes, `store` answers every stream whose header does not announce more
  -- than `isize::MAX` bytes without an eviction: the counter of evictions keeps its value.
  pub store-evictions :
      (s : Service c) (ks : List Key) (live : List ℕ) (now : ℕ) (stream : List Message)
      → IsService c s ks live
      → s.allocator.pool.block_size ≤ u32
      → s.allocator.pool.total_blocks ≤ s.index.capacity
      → s.evictions < u64
      → IsModest stream
      → (reply : Reply StoreResponse) × (s' : Service c) × (store c now stream s ≡ done reply s')
        × (s'.evictions ≡ s.evictions)
  store-evictions s ks live now stream v small large bounded m =
      elim (store_answers c s ks live v now stream small m) [
        | inl (e, ran) ↦ (err e, s, ran, refl)
        | inr (h, chunks, bytes, i, s', _, _, ran, after) ↦
            let spare : length live < s.allocator.pool.total_blocks =
              omega (arith, after.service.allocator.owns.counted, after.same_total) in
            let key = composite_key c.sha256 h.model_id h.prefix_hash in
            let none' : length (reverse (dropped c.entries s.index key ks)) ≡ 0 =
              ap (λ xs. length (reverse xs)) (dropped-nil c s ks live v key spare large) in
            (ok _, s', ran, omega (arith, after.evictions, none'))
      ]
