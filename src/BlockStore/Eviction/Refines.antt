-- ===== src/BlockStore/Eviction/Refines.antt =====
-- The slab with its list and its map implements the list of keys in the order of their use.
use cmx_rdma.Base.{
  snoc-injective, length-append, ap, erase_absent, inr, inl, append-nil, Option-cases, sym, erase,
  ◌∙◌, ℕ, ◌≡◌, refl, none, some, List, [], ◌∷◌, ◌++◌, arith, Eq, nat_eq, length,
}
use cmx_rdma.Base.Assoc.{length-keys, has-keys, lookup, keys}
use cmx_rdma.BlockStore.Eviction.{discard, len, evict_lru, LruInner, new, touch}
use cmx_rdma.BlockStore.Eviction.Chain.{split, Nodes}
use cmx_rdma.BlockStore.Eviction.Nodes.{keys-append, erase-middle, cut_at, last-cases}
use cmx_rdma.BlockStore.Eviction.Tracking.{Tracks, Holds, new-Tracks, touch-Tracks, drop-node}

module _ {ℓ} {K : Type ℓ} ⦃e : Eq K⦄ where
  -- `new` is the empty policy.
  pub new-Holds : Holds (new {K = K}) []
  new-Holds = ([], new-Tracks, refl)

  -- From a policy that holds `ks`, `touch k` does not panic and leaves a policy that holds `k`
  -- in front and the other keys in their order.
  pub touch-Holds :
      (s : LruInner K) (k : K) (ks : List K)
      → Holds s ks
      → (s' : LruInner K) × (touch k s ≡ some s') × Holds s' (k ∷ erase k ks)
  touch-Holds s k ks (xs, t, e) = let (s', ran, h) = touch-Tracks s k xs t in (s', ran, rw (← e) h)

  discard-Tracks :
      (s : LruInner K) (k : K) (xs : Nodes K)
      → Tracks s xs
      → (s' : LruInner K) × (discard k s ≡ some s') × Holds s' (erase k (keys xs))
  unfolding discard
  discard-Tracks s k xs t = elim (Option-cases (lookup k xs)) [
    | inl absent ↦ (
      s,
      rw (t.index k, absent, discard),
      (xs, t, ground (arith, erase_absent k (keys xs), has-keys k xs)),
    )
    | inr (i, found) ↦
        let (ys, zs, cut) = cut_at k i xs found in
        let t₁ : Tracks s (ys ++ (k, i) ∷ zs) = rw (← cut) t in
        let (s₁, e₁, t₂) = drop-node s k i ys zs t₁ in
        (
          record s₁ { free_indices = i ∷ s₁.free_indices },
          rw (t.index k, found, discard, e₁),
          (ys ++ zs, t₂, rw (cut, erase-middle k i ys zs t₁.keys_distinct)),
        )
  ]

  -- From a policy that holds `ks`, `remove k` does not panic, takes the key out and keeps the others in
  -- their order.
  pub discard-Holds :
      (s : LruInner K) (k : K) (ks : List K)
      → Holds s ks
      → (s' : LruInner K) × (discard k s ≡ some s') × Holds s' (erase k ks)
  discard-Holds s k ks (xs, t, e) =
      let (s', ran, h) = discard-Tracks s k xs t in (s', ran, rw (← e) h)

  evict_last :
      (s : LruInner K) (k : K) (i : ℕ) (ys : Nodes K)
      → Tracks s (ys ++ (k, i) ∷ [])
      → (s' : LruInner K) × (evict_lru s ≡ some (some k, s')) × Tracks s' ys
  unfolding evict_lru
  evict_last s k i ys t =
      let (a, b, node, l, r) = split s.entries none s.head ys k i [] s.tail none t.linked in
      let (s₁, e₁, t₁) = drop-node s k i ys [] t in
      (
        record s₁ { free_indices = i ∷ s₁.free_indices },
        rw (r.1, evict_lru, node, e₁),
        rw append-nil at t₁,
      )

  -- Evicting from an empty policy gives nothing and changes nothing.
  pub evict_lru-empty : (s : LruInner K) → Holds s [] → evict_lru s ≡ some (none, s)
  unfolding evict_lru
  evict_lru-empty s (xs, t, e) = empty-list xs t e
    where
      empty-list : (xs : Nodes K) → Tracks s xs → keys xs ≡ [] → evict_lru s ≡ some (none, s)
      empty-list [] t e = ground (arith, t.linked.1)
      empty-list ((k, i) ∷ xs) t e = absurd (ground arith)

  evict-Tracks :
      (s : LruInner K) (xs : Nodes K) (ks : List K) (k : K)
      → Tracks s xs
      → keys xs ≡ ks ++ k ∷ []
      → (s' : LruInner K) × (evict_lru s ≡ some (some k, s')) × Holds s' ks
  evict-Tracks s xs ks k t e = elim (last-cases xs) [
    | inl empty ↦
        absurd
          (omega (arith, ap length e, ap (λ l. length (keys l)) empty, length-append ks (k ∷ [])))
    | inr (ys, k', i, last) ↦
        let t₁ : Tracks s (ys ++ (k', i) ∷ []) = rw (← last) t in
        let (s', ran, t₂) = evict_last s k' i ys t₁ in
        let (front, back) =
          snoc-injective (keys ys) ks k' k
            (sym (keys-append ys ((k', i) ∷ [])) ∙ ap keys (sym last) ∙ e) in
        (s', rw (← back) ran, (ys, t₂, front))
  ]

  -- From a policy that holds at least one key, `evict_lru` does not panic, gives the least recently used
  -- key, and keeps the others in their order.
  pub evict_lru-last :
      (s : LruInner K) (ks : List K) (k : K)
      → Holds s (ks ++ k ∷ [])
      → (s' : LruInner K) × (evict_lru s ≡ some (some k, s')) × Holds s' ks
  evict_lru-last s ks k (xs, t, e) = evict-Tracks s xs ks k t e

  -- The number of entries that the policy reports.
  pub len-Holds : (s : LruInner K) (ks : List K) → Holds s ks → len s ≡ length ks
  unfolding len
  len-Holds s ks (xs, t, e) = t.index_len ∙ sym (length-keys xs) ∙ ap length e
