-- ===== src/BlockStore/Index/Evict.antt =====
-- The loop that makes room: it ends, and drops the least recently used keys.
use mathlib.Core.List.{reverse, reverse-append}
use cmx_rdma.Base.{
  append-nil, ℕ, zero, suc, ◌-◌, ◌≤◌, ◌<◌, ◌≡◌, refl, ap, ◌∙◌, sym, ◌⊎◌, inl, inr, true, false,
  none, some, List, [], ◌∷◌, ◌++◌, arith, Eq, same, has, Distinct, Distinct-split, has-append, leb,
  if◌then◌else◌, is_some, length, length-append, take, drop, append_assoc, Bool-cases,
}
use cmx_rdma.Base.DashMap.{DashMap}
use cmx_rdma.BlockStore.Eviction
use cmx_rdma.BlockStore.Eviction.Tracking.{Holds}
use cmx_rdma.BlockStore.Eviction.Refines.{evict_lru-empty, evict_lru-last}
use cmx_rdma.BlockStore.Index.{IndexEntry, BlockIndex, evict_loop}

module _ {ℓ} {A : Type ℓ} where
  pub take_all : (n : ℕ) (xs : List A) → length xs ≤ n → take n xs ≡ xs
  take_all zero [] h = refl
  take_all zero (x ∷ xs) h = absurd (omega arith)
  take_all (suc n) [] h = refl
  take_all (suc n) (x ∷ xs) h = ap (◌∷◌ x) (take_all n xs (omega arith))

  pub drop_all : (n : ℕ) (xs : List A) → length xs ≤ n → drop n xs ≡ []
  drop_all zero [] h = refl
  drop_all zero (x ∷ xs) h = absurd (omega arith)
  drop_all (suc n) [] h = refl
  drop_all (suc n) (x ∷ xs) h = drop_all n xs (omega arith)

  pub take_front : (n : ℕ) (xs ys : List A) → n ≤ length xs → take n (xs ++ ys) ≡ take n xs
  take_front zero xs ys h = refl
  take_front (suc n) [] ys h = absurd (omega arith)
  take_front (suc n) (x ∷ xs) ys h = ap (◌∷◌ x) (take_front n xs ys (omega arith))

  pub drop_front : (n : ℕ) (xs ys : List A) → n ≤ length xs → drop n (xs ++ ys) ≡ drop n xs ++ ys
  drop_front zero xs ys h = refl
  drop_front (suc n) [] ys h = absurd (omega arith)
  drop_front (suc n) (x ∷ xs) ys h = drop_front n xs ys (omega arith)

  pub snoc-cases : (xs : List A) → (xs ≡ []) ⊎ ((ys : List A) × (y : A) × (xs ≡ ys ++ y ∷ []))
  snoc-cases [] = inl refl
  snoc-cases (x ∷ xs) = elim (snoc-cases xs) [
    | inl e ↦ inr ([], x, rw e)
    | inr (ys, y, e) ↦ inr (x ∷ ys, y, rw e)
  ]

module _ {K : Type 0} ⦃e : Eq K⦄ (M : DashMap K IndexEntry) where
  -- The map and the eviction policy hold the same keys; `ks` lists them, most recently used first.
  pub record IsIndex (s : BlockIndex M) (ks : List K) : Type 0 where
    pub holds : Holds s.lru ks
    pub distinct : Distinct ks
    pub known : (k : K) → has k ks ≡ is_some (M.get k s.map)
    pub counted : M.len s.map ≡ length ks

  -- One victim leaves the map and the policy.
  evict_one :
      (s : BlockIndex M) (ks : List K) (k : K)
      → IsIndex s (ks ++ k ∷ [])
      → (lru : Eviction.LruInner K) × (Eviction.evict_lru s.lru ≡ some (some k, lru))
        × IsIndex (record s { map = M.remove k s.map; lru = lru }) ks
  evict_one s ks k i =
      let (lru, ran, held) = evict_lru-last s.lru ks k i.holds in
      let (l, _, apart) = Distinct-split ks (k ∷ []) i.distinct in
      let there : is_some (M.get k s.map) ≡ true =
        ground (arith, i.known k, has-append k ks (k ∷ [])) in
      (
        lru,
        ran,
        record {
          holds = held;
          distinct = l;
          known = λ j.
              ground (arith, i.known j, M.get-remove k j s.map, has-append j ks (k ∷ []), apart j);
          counted = ground (arith, i.counted, M.len-remove k s.map, length-append ks (k ∷ []));
        },
      )

  -- What the loop leaves of the keys `ks`: as many of the most recent ones as leave a place free.
  pub record Evicted (s s' : BlockIndex M) (ks : List K) : Type 0 where
    pub index : IsIndex s' (take (s.capacity - 1) ks)
    pub capacity : s'.capacity ≡ s.capacity
    pub gone :
        (j : K)
        → M.get j s'.map ≡ (if has j (drop (s.capacity - 1) ks) then none else M.get j s.map)

  -- One round of the loop, in its three forms.
  loop_stops :
      (fuel : ℕ) (s : BlockIndex M) (acc : List K)
      → leb s.capacity (M.len s.map) ≡ false
      → evict_loop M (suc fuel) s acc ≡ some (acc, s)
  unfolding evict_loop
  loop_stops fuel s acc room = rw (room, evict_loop)

  loop_breaks :
      (fuel : ℕ) (s : BlockIndex M) (acc : List K)
      → leb s.capacity (M.len s.map) ≡ true
      → Eviction.evict_lru s.lru ≡ some (none, s.lru)
      → evict_loop M (suc fuel) s acc ≡ some (acc, s)
  unfolding evict_loop
  loop_breaks fuel s acc full empty = rw (full, evict_loop, empty)

  loop_evicts :
      (fuel : ℕ) (s : BlockIndex M) (acc : List K) (k : K) (lru : Eviction.LruInner K)
      → leb s.capacity (M.len s.map) ≡ true
      → Eviction.evict_lru s.lru ≡ some (some k, lru)
      → evict_loop M (suc fuel) s acc
        ≡ evict_loop M fuel (record s { map = M.remove k s.map; lru = lru }) (acc ++ k ∷ [])
  unfolding evict_loop
  loop_evicts fuel s acc k lru full found = rw (full, evict_loop, found)

  nothing-Evicted :
      (s : BlockIndex M) (ks : List K) → IsIndex s ks → length ks ≤ s.capacity - 1 → Evicted s s ks
  nothing-Evicted s ks i h = record {
    index = rw (take_all _ ks h) i;
    capacity = refl;
    gone = λ j. rw (drop_all _ ks h);
  }

  Evicted-more :
      (s s₁ s' : BlockIndex M) (front : List K) (k : K)
      → s.capacity - 1 ≤ length front
      → s₁.capacity ≡ s.capacity
      → s₁.map ≡ M.remove k s.map
      → Evicted s₁ s' front
      → Evicted s s' (front ++ k ∷ [])
  Evicted-more s s₁ s' front k h same removed ev =
      let n = s.capacity - 1 in
      record {
        index = rw (take_front n front (k ∷ []) h, ← same) ev.index;
        capacity = ev.capacity ∙ same;
        gone = λ j. ground (
          arith,
          ev.gone j,
          M.get-remove k j s.map,
          drop_front n front (k ∷ []) h,
          has-append j (drop n front) (k ∷ []),
        );
      }

  reverse-drop :
      (n : ℕ) (front acc : List K) (k : K)
      → n ≤ length front
      → (acc ++ k ∷ []) ++ reverse (drop n front) ≡ acc ++ reverse (drop n (front ++ k ∷ []))
  reverse-drop n front acc k h = rw (drop_front n front (k ∷ []) h, reverse-append, append_assoc)

  pub evict_loop-Evicted :
      (fuel : ℕ) (s : BlockIndex M) (ks acc : List K)
      → IsIndex s ks
      → length ks < fuel
      → (s' : BlockIndex M) × (evict_loop M fuel s acc
          ≡ some (acc ++ reverse (drop (s.capacity - 1) ks), s'))
        × Evicted s s' ks
  evict_loop-Evicted zero s ks acc i h = absurd (omega arith)
  evict_loop-Evicted (suc fuel) s ks acc i h = elim (Bool-cases (leb s.capacity (M.len s.map))) [
    | inr room ↦
        let below : length ks ≤ s.capacity - 1 = ground (arith, i.counted) in
        (
          s,
          loop_stops fuel s acc room ∙ ap (λ xs. some (xs, s)) (unchanged s ks acc below),
          nothing-Evicted s ks i below,
        )
    | inl full ↦ elim (snoc-cases ks) [
      | inl empty ↦
          let below : length ks ≤ s.capacity - 1 = rw empty (omega arith) in
          (
            s,
            loop_breaks fuel s acc full (evict_lru-empty s.lru (rw (← empty) i.holds))
                ∙ ap (λ xs. some (xs, s)) (unchanged s ks acc below),
            nothing-Evicted s ks i below,
          )
      | inr (front, k, last) ↦
          let i₁ : IsIndex s (front ++ k ∷ []) = rw (← last) i in
          let (lru, found, i₂) = evict_one s front k i₁ in
          let s₁ = record s { map = M.remove k s.map; lru = lru } in
          let size : suc (length front) ≡ length ks =
            omega (arith, ap length last, length-append front (k ∷ [])) in
          let enough : s.capacity - 1 ≤ length front = ground (arith, i.counted) in
          let (s', ran, ev) = evict_loop-Evicted fuel s₁ front (acc ++ k ∷ []) i₂ (omega arith) in
          (
            s',
            loop_evicts fuel s acc k lru full found
                ∙ ran
                ∙ ap (λ xs. some (xs, s')) (reverse-drop (s.capacity - 1) front acc k enough)
                ∙ ap (λ xs. some (acc ++ reverse (drop (s.capacity - 1) xs), s')) (sym last),
            rw last (Evicted-more s s₁ s' front k enough refl refl ev),
          )
    ]
  ]
    where
      unchanged :
          (s : BlockIndex M) (ks acc : List K)
          → length ks ≤ s.capacity - 1
          → acc ≡ acc ++ reverse (drop (s.capacity - 1) ks)
      unchanged s ks acc h = rw (drop_all _ ks h, append-nil)
