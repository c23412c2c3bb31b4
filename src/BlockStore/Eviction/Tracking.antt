-- ===== src/BlockStore/Eviction/Tracking.antt =====
-- The invariant of the eviction policy, and the steps that keep it: a touch, and taking a node out.
use cmx_rdma.Base.{
  erase_absent, inr, lt-of-get_elem?, inl, Option-cases, erase, ◌∙◌, ℕ, ◌<◌, ◌≡◌, refl, true, false,
  none, some, List, [], ◌∷◌, ◌++◌, arith, Eq, has, nat_eq, Distinct, length, has-append,
}
use cmx_rdma.Base.Assoc.{
  length-insert, length-remove, insert-Distinct, remove-Distinct, lookup-insert, lookup-remove,
  has-keys, insert, remove, lookup, keys,
}
use cmx_rdma.BlockStore.Eviction.{unlink, LruInner, new, touch}
use cmx_rdma.BlockStore.Eviction.Chain.{
  Nodes, slots, slots-append, IsCut-of-Distinct, Distinct-of-cut,
}
use cmx_rdma.BlockStore.Eviction.Alloc.{IsFree, alloc_entry-ok}
use cmx_rdma.BlockStore.Eviction.Links.{IsLinked, unlink-ok, push_front-ok}
use cmx_rdma.BlockStore.Eviction.Nodes.{
  erase-middle, cut_at, lookup-middle_self, lookup-middle, keys-middle-Distinct, length-middle,
  has-slots-middle,
}

-- The invariant of the policy, with the nodes of its list.
pub record Tracks {ℓ} {K : Type ℓ} ⦃e : Eq K⦄ (s : LruInner K) (xs : Nodes K) : Type ℓ where
  pub linked : IsLinked s xs
  pub slots_distinct : Distinct (slots xs)
  pub keys_distinct : Distinct (keys xs)
  pub index : (k : K) → lookup k s.index ≡ lookup k xs
  pub index_distinct : Distinct (keys s.index)
  pub index_len : length s.index ≡ length xs
  pub free_distinct : Distinct s.free_indices
  pub free_apart : (i : ℕ) → has i s.free_indices ≡ true → has i (slots xs) ≡ false
  pub free_valid : (i : ℕ) → has i s.free_indices ≡ true → i < length s.entries

-- The policy holds the keys `ks`, the most recently used first.
abbrev pub Holds {ℓ} : {K : Type ℓ} ⦃e : Eq K⦄ → LruInner K → List K → Type ℓ
Holds {K} s ks = (xs : Nodes K) × Tracks s xs × (keys xs ≡ ks)

module _ {ℓ} {K : Type ℓ} ⦃e : Eq K⦄ where
  pub new-Tracks : Tracks (new {K = K}) []
  unfolding new
  new-Tracks = record {
    linked = (refl, refl, tt);
    slots_distinct = tt;
    keys_distinct = tt;
    index = λ k. refl;
    index_distinct = tt;
    index_len = refl;
    free_distinct = tt;
    free_apart = λ i h. refl;
    free_valid = λ i h. absurd (ground arith);
  }

  -- A node that is taken out and put in front again.
  touch-hit :
      (s : LruInner K) (k : K) (i : ℕ) (ys zs : Nodes K)
      → Tracks s (ys ++ (k, i) ∷ zs)
      → (s' : LruInner K) × (touch k s ≡ some s') × Tracks s' ((k, i) ∷ (ys ++ zs))
  unfolding touch
  touch-hit s k i ys zs t =
      let cut = IsCut-of-Distinct ys k i zs t.slots_distinct in
      let (s₁, e₁, l₁, n₁, k₁) = unlink-ok k i ys zs s cut t.linked in
      let out : has i (slots (ys ++ zs)) ≡ false = ground (
        arith,
        slots-append ys zs,
        has-append i (slots ys) (slots zs),
        cut.not_left,
        cut.not_right,
      ) in
      let (s₂, e₂, l₂, k₂) =
        push_front-ok k i (ys ++ zs) s₁ none none (Distinct-of-cut ys i zs cut) out n₁ l₁ in
      let found : lookup k s.index ≡ some i =
        ground (arith, t.index k, lookup-middle k k i ys zs t.keys_distinct) in
      (
        s₂,
        rw (found, touch, e₁) e₂,
        record {
          linked = l₂;
          slots_distinct = (out, Distinct-of-cut ys i zs cut);
          keys_distinct = ground (arith, keys-middle-Distinct k i ys zs t.keys_distinct);
          index = λ j.
              ground
                (arith, k₁.index, k₂.index, t.index j, lookup-middle j k i ys zs t.keys_distinct);
          index_distinct = rw (k₂.index, k₁.index) t.index_distinct;
          index_len = ground (arith, k₁.index, k₂.index, t.index_len, length-middle ys (k, i) zs);
          free_distinct = rw (k₂.free, k₁.free) t.free_distinct;
          free_apart =
              λ m h. ground (arith, t.free_apart m, k₁.free, k₂.free, has-slots-middle m ys k i zs);
          free_valid = λ m h. ground (arith, t.free_valid m, k₁.free, k₂.free, k₁.slab, k₂.slab);
        },
      )

  touch-miss :
      (s : LruInner K) (k : K) (xs : Nodes K)
      → Tracks s xs
      → lookup k xs ≡ none
      → (i : ℕ) × (s' : LruInner K) × (touch k s ≡ some s') × Tracks s' ((k, i) ∷ xs)
  unfolding touch
  touch-miss s k xs t absent =
      let free : IsFree s xs = record {
        free_distinct = t.free_distinct;
        free_apart = t.free_apart;
        free_valid = t.free_valid;
      } in
      let (i, s₁, e₁, a) = alloc_entry-ok k s xs t.linked free in
      let (s₂, e₂, l₂, k₂) =
        push_front-ok k i xs s₁ none none t.slots_distinct a.unused a.node a.linked in
      let missing : lookup k s.index ≡ none = t.index k ∙ absent in
      let same_index : s₂.index ≡ s.index = k₂.index ∙ a.index in
      (
        i,
        record s₂ { index = insert k i s₂.index },
        rw (missing, touch, e₁, e₂),
        record {
          linked = l₂;
          slots_distinct = (a.unused, t.slots_distinct);
          keys_distinct = (ground (arith, has-keys k xs), t.keys_distinct);
          index = λ j. ground (arith, lookup-insert k j i s₂.index, t.index j);
          index_distinct = insert-Distinct k i s₂.index (rw same_index t.index_distinct);
          index_len = ground (arith, length-insert k i s₂.index, t.index_len);
          free_distinct = rw k₂.free a.free.free_distinct;
          free_apart = λ m h. ground (arith, k₂.free, a.free.free_apart m, a.not_free);
          free_valid = λ m h. ground (arith, a.free.free_valid m, k₂.free, k₂.slab);
        },
      )

  -- A node is taken out and its slot freed, as `remove` and `evict_lru` do.
  pub drop-node :
      (s : LruInner K) (k : K) (i : ℕ) (ys zs : Nodes K)
      → Tracks s (ys ++ (k, i) ∷ zs)
      → (s' : LruInner K) × (unlink i (record s { index = remove k s.index }) ≡ some s')
        × Tracks (record s' { free_indices = i ∷ s'.free_indices }) (ys ++ zs)
  drop-node s k i ys zs t =
      let cut = IsCut-of-Distinct ys k i zs t.slots_distinct in
      let s₀ = record s { index = remove k s.index } in
      let (s₁, e₁, l₁, n₁, k₁) = unlink-ok k i ys zs s₀ cut t.linked in
      let out : has i (slots (ys ++ zs)) ≡ false = ground (
        arith,
        slots-append ys zs,
        has-append i (slots ys) (slots zs),
        cut.not_left,
        cut.not_right,
      ) in
      (
        s₁,
        e₁,
        record {
          linked = l₁;
          slots_distinct = Distinct-of-cut ys i zs cut;
          keys_distinct = (keys-middle-Distinct k i ys zs t.keys_distinct).0;
          index = λ j. ground (
            arith,
            k₁.index,
            lookup-remove k j s.index t.index_distinct,
            t.index j,
            lookup-middle j k i ys zs t.keys_distinct,
            lookup-middle_self k i ys zs t.keys_distinct,
          );
          index_distinct = rw k₁.index (remove-Distinct k s.index t.index_distinct);
          index_len = ground (
            arith,
            k₁.index,
            length-remove k s.index,
            t.index k,
            t.index_len,
            lookup-middle k k i ys zs t.keys_distinct,
            length-middle ys (k, i) zs,
          );
          free_distinct = (
            ground (arith, t.free_apart i, has-slots-middle i ys k i zs, k₁.free),
            rw k₁.free t.free_distinct,
          );
          free_apart = λ m h. ground (arith, t.free_apart m, k₁.free, has-slots-middle m ys k i zs);
          free_valid = λ m h.
              ground (arith, t.free_valid m, k₁.free, k₁.slab, lt-of-get_elem? s₁.entries i _ n₁);
        },
      )

  pub touch-Tracks :
      (s : LruInner K) (k : K) (xs : Nodes K)
      → Tracks s xs
      → (s' : LruInner K) × (touch k s ≡ some s') × Holds s' (k ∷ erase k (keys xs))
  touch-Tracks s k xs t = elim (Option-cases (lookup k xs)) [
    | inl absent ↦
        let (i, s', e, t') = touch-miss s k xs t absent in
        (s', e, ((k, i) ∷ xs, t', ground (arith, erase_absent k (keys xs), has-keys k xs)))
    | inr (i, found) ↦
        let (ys, zs, cut) = cut_at k i xs found in
        let t₁ : Tracks s (ys ++ (k, i) ∷ zs) = rw (← cut) t in
        let (s', e, t') = touch-hit s k i ys zs t₁ in
        (s', e, ((k, i) ∷ (ys ++ zs), t', rw (cut, erase-middle k i ys zs t₁.keys_distinct)))
  ]
