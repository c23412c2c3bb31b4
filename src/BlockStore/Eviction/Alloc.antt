-- ===== src/BlockStore/Eviction/Alloc.antt =====
-- `alloc_entry`: a slot of the stack of free slots is reused, or the slab grows by one.
use cmx_rdma.Base.{
  ℕ, ◌<◌, ◌≡◌, refl, true, false, none, some, List, [], ◌∷◌, ◌++◌, arith, has, nat_eq, Distinct,
  length, get_elem?, set, length-set, get_elem?-append_left, get_elem?-append_self, get_elem?_of_lt,
}
use cmx_rdma.BlockStore.Eviction.{entry, LruInner, alloc_entry}
use cmx_rdma.BlockStore.Eviction.Chain.{Nodes, slots, frame, frame-set, slot_lt, get_elem?-write}
use cmx_rdma.BlockStore.Eviction.Links.{IsLinked}

module _ {ℓ} {K : Type ℓ} where
  -- What is known of the stack of free slots.
  pub record IsFree (s : LruInner K) (xs : Nodes K) : Type ℓ where
    pub free_distinct : Distinct s.free_indices
    pub free_apart : (i : ℕ) → has i s.free_indices ≡ true → has i (slots xs) ≡ false
    pub free_valid : (i : ℕ) → has i s.free_indices ≡ true → i < length s.entries

  pub record Allocated (k : K) (i : ℕ) (s s' : LruInner K) (xs : Nodes K) : Type ℓ where
    pub linked : IsLinked s' xs
    pub node : get_elem? s'.entries i ≡ some (entry k none none)
    pub unused : has i (slots xs) ≡ false
    pub not_free : has i s'.free_indices ≡ false
    pub free : IsFree s' xs
    pub index : s'.index ≡ s.index

  alloc_from :
      (k : K) (s : LruInner K) (xs : Nodes K) (fs : List ℕ)
      → s.free_indices ≡ fs
      → IsLinked s xs
      → IsFree s xs
      → (i : ℕ) × (s' : LruInner K) × (alloc_entry k s ≡ some (i, s')) × Allocated k i s s' xs
  unfolding alloc_entry
  alloc_from k s xs [] e c f =
      let n = length s.entries in
      let new = s.entries ++ entry k none none ∷ [] in
      let below : (m : ℕ) → has m (slots xs) ≡ true → m < n =
        λ m a. slot_lt s.entries none s.head xs s.tail none m c a in
      (
        n,
        record s { entries = new },
        ground arith,
        record {
          linked =
              frame s.entries new none s.head xs s.tail none
                (λ m a. get_elem?-append_left s.entries _ m (below m a)) c;
          node = get_elem?-append_self s.entries _;
          unused = ground (arith, below n);
          not_free = rw e;
          free = record {
            free_distinct = f.free_distinct;
            free_apart = f.free_apart;
            free_valid = λ m a. absurd (ground arith);
          };
          index = refl;
        },
      )
  alloc_from k s xs (i ∷ rest) e c f =
      let valid : i < length s.entries = ground (arith, f.free_valid i) in
      let unused : has i (slots xs) ≡ false = ground (arith, f.free_apart i) in
      let distinct : Distinct (i ∷ rest) = rw e at f.free_distinct in
      let (old, at) = get_elem?_of_lt s.entries i valid in
      let new = entry k none none in
      (
        i,
        record s { entries = set s.entries i new; free_indices = rest },
        rw (e, alloc_entry, at),
        record {
          linked = frame-set s.entries i new none s.head xs s.tail none unused c;
          node = get_elem?-write s.entries i old new at;
          unused = unused;
          not_free = distinct.0;
          free = record {
            free_distinct = distinct.1;
            free_apart = λ m a. ground (arith, f.free_apart m);
            free_valid = λ m a. ground (arith, f.free_valid m, length-set s.entries i new);
          };
          index = refl;
        },
      )

  -- The slot is outside the list and no longer free; the list and the map are untouched.
  pub alloc_entry-ok :
      (k : K) (s : LruInner K) (xs : Nodes K)
      → IsLinked s xs
      → IsFree s xs
      → (i : ℕ) × (s' : LruInner K) × (alloc_entry k s ≡ some (i, s')) × Allocated k i s s' xs
  alloc_entry-ok k s xs c f = alloc_from k s xs s.free_indices refl c f
