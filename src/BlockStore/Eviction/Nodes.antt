-- ===== src/BlockStore/Eviction/Nodes.antt =====
-- The nodes of the list as keys and slots: what cutting one out does to either.
use cmx_rdma.Base.{
  ◌||◌, ℕ, suc, ◌≡◌, refl, ap, ◌⊎◌, inl, inr, false, none, some, [], ◌∷◌, ◌++◌, arith, Eq, same,
  has, erase, nat_eq, Distinct, Distinct-split, Distinct-append, not_mem_of_apart, has-append,
  if◌then◌else◌, length,
}
use cmx_rdma.Base.Assoc.{lookup, keys, has-keys, lookup_absent}
use cmx_rdma.BlockStore.Eviction.Chain.{Nodes, slots}

module _ {ℓ} {K : Type ℓ} where
  pub keys-append : (xs ys : Nodes K) → keys (xs ++ ys) ≡ keys xs ++ keys ys
  keys-append [] ys = refl
  keys-append ((k, i) ∷ xs) ys = rw (keys-append xs ys)

  pub length-middle :
      (ys : Nodes K) (x : K × ℕ) (zs : Nodes K) → length (ys ++ x ∷ zs) ≡ suc (length (ys ++ zs))
  length-middle [] x zs = refl
  length-middle (y ∷ ys) x zs = ap suc (length-middle ys x zs)

  pub has-slots-middle :
      (m : ℕ) (ys : Nodes K) (k : K) (i : ℕ) (zs : Nodes K)
      → has m (slots (ys ++ (k, i) ∷ zs)) ≡ (same i m || has m (slots (ys ++ zs)))
  has-slots-middle m [] k i zs = refl
  has-slots-middle m ((k', j) ∷ ys) k i zs = ground (arith, has-slots-middle m ys k i zs)

  pub last-cases :
      (xs : Nodes K) → (xs ≡ []) ⊎ ((ys : Nodes K) × (k : K) × (i : ℕ) × (xs ≡ ys ++ (k, i) ∷ []))
  last-cases [] = inl refl
  last-cases ((k, i) ∷ xs) = elim (last-cases xs) [
    | inl e ↦ inr ([], k, i, rw e)
    | inr (ys, k', i', e) ↦ inr ((k, i) ∷ ys, k', i', rw e)
  ]

module _ {ℓ} {K : Type ℓ} ⦃e : Eq K⦄ where
  -- A key that is found stands at one place.
  pub cut_at :
      (k : K) (i : ℕ) (xs : Nodes K)
      → lookup k xs ≡ some i
      → (ys : Nodes K) × (zs : Nodes K) × (xs ≡ ys ++ (k, i) ∷ zs)
  cut_at k i [] h = absurd (ground arith)
  cut_at k i ((j, w) ∷ xs) h = elim (e.dec j k) [
    | yes p ↦ ([], xs, ground arith)
    | no p ↦ let (ys, zs, q) = cut_at k i xs (ground arith) in ((j, w) ∷ ys, zs, rw q)
  ]

  pub lookup-middle :
      (j k : K) (i : ℕ) (ys zs : Nodes K)
      → Distinct (keys (ys ++ (k, i) ∷ zs))
      → lookup j (ys ++ (k, i) ∷ zs) ≡ (if same k j then some i else lookup j (ys ++ zs))
  lookup-middle j k i [] zs d = refl
  lookup-middle j k i ((m, w) ∷ ys) zs d = ground (
    arith,
    lookup-middle j k i ys zs,
    keys-append ys ((k, i) ∷ zs),
    has-append m (keys ys) (k ∷ keys zs),
  )

  pub lookup-middle_self :
      (k : K) (i : ℕ) (ys zs : Nodes K)
      → Distinct (keys (ys ++ (k, i) ∷ zs))
      → lookup k (ys ++ zs) ≡ none
  lookup-middle_self k i ys zs d =
      let (l, r, apart) = Distinct-split (keys ys) (k ∷ keys zs) (rw keys-append at d) in
      lookup_absent k (ys ++ zs) (
        ground (
          arith,
          keys-append ys zs,
          has-append k (keys ys) (keys zs),
          not_mem_of_apart (keys ys) k (λ b m. ground (arith, apart b)),
        ))

  pub keys-middle-Distinct :
      (k : K) (i : ℕ) (ys zs : Nodes K)
      → Distinct (keys (ys ++ (k, i) ∷ zs))
      → Distinct (keys (ys ++ zs)) × (has k (keys (ys ++ zs)) ≡ false)
  keys-middle-Distinct k i ys zs d =
      let (l, r, apart) = Distinct-split (keys ys) (k ∷ keys zs) (rw keys-append at d) in
      (
        rw keys-append (Distinct-append (keys ys) (keys zs) l r.1 (λ a h. ground (arith, apart a))),
        ground (arith, has-keys k (ys ++ zs), lookup-middle_self k i ys zs),
      )

  -- Erasing the key of a node is cutting out the node.
  pub erase-middle :
      (k : K) (i : ℕ) (ys zs : Nodes K)
      → Distinct (keys (ys ++ (k, i) ∷ zs))
      → erase k (keys (ys ++ (k, i) ∷ zs)) ≡ keys (ys ++ zs)
  erase-middle k i [] zs d = ground arith
  erase-middle k i ((m, w) ∷ ys) zs d = ground (
    arith,
    erase-middle k i ys zs,
    keys-append ys ((k, i) ∷ zs),
    has-append m (keys ys) (k ∷ keys zs),
  )
