-- ===== src/BlockStore/Eviction/Links.antt =====
-- `unlink` and `push_front` on the linked list: neither panics, and they take a node out and put one
-- in front.
use cmx_rdma.Base.{
  ℕ, ◌≡◌, refl, ◌≢◌, ◌∙◌, sym, false, Option, none, some, [], ◌∷◌, ◌++◌, arith, has, has-append,
  nat_eq, Distinct, length, get_elem?, set, length-set, get_elem?-set_ne,
}
use cmx_rdma.BlockStore.Eviction.{
  LruEntry, entry, LruInner, bypass_next, bypass_prev, unlink, push_front,
}
use cmx_rdma.BlockStore.Eviction.Chain.{
  Nodes, slots, slots-append, Chain, IsCut, split, join, frame-set, relink_end, relink_start,
  set_prev-ok, set_next-ok, get_elem?-write,
}

module _ {ℓ} {K : Type ℓ} where
  -- The nodes are linked from `head` to `tail`.
  abbrev pub IsLinked : LruInner K → Nodes K → Type ℓ
  IsLinked s xs = Chain s.entries none s.head xs s.tail none

  -- What the pointer operations leave alone.
  pub record Keeps (s s' : LruInner K) : Type ℓ where
    pub free : s'.free_indices ≡ s.free_indices
    pub index : s'.index ≡ s.index
    pub slab : length s'.entries ≡ length s.entries

  -- The list while `unlink` runs: the pointers past the node `i` are redirected one by one.
  bypass_next-ok :
      (k : K) (i : ℕ) (ys zs : Nodes K) (s : LruInner K) (a b : Option ℕ)
      → IsCut ys i zs
      → get_elem? s.entries i ≡ some (entry k a b)
      → Chain s.entries none s.head ys a (some i)
      → Chain s.entries (some i) b zs s.tail none
      → (s' : LruInner K) × (bypass_next a b s ≡ some s')
        × (get_elem? s'.entries i ≡ some (entry k a b))
        × Chain s'.entries none s'.head ys a b
        × Chain s'.entries (some i) b zs s'.tail none
        × Keeps s s'
  unfolding bypass_next
  bypass_next-ok k i [] zs s a b cut node l r = (
    record s { head = b },
    rw (l.1, bypass_next),
    node,
    (refl, l.1, tt),
    r,
    record { free = refl; index = refl; slab = refl },
  )
  bypass_next-ok k i (y ∷ ys) zs s a b cut node l r =
      let (j, e, last, mem, at, c) =
        relink_end s.entries none s.head y ys a (some i) b cut.left l in
      let apart : has j (slots zs) ≡ false = cut.apart j mem in
      (
        record s { entries = set s.entries j (record e { next = b }) },
        rw (last, bypass_next, set_next-ok s.entries j b e at),
        get_elem?-set_ne s.entries j i _ (λ same. ground (arith, cut.not_left)) ∙ node,
        c,
        frame-set s.entries j _ (some i) b zs s.tail none apart r,
        record { free = refl; index = refl; slab = length-set s.entries j _ },
      )

  bypass_prev-ok :
      (k : K) (i : ℕ) (ys zs : Nodes K) (s : LruInner K) (a b : Option ℕ)
      → IsCut ys i zs
      → get_elem? s.entries i ≡ some (entry k a b)
      → Chain s.entries none s.head ys a b
      → Chain s.entries (some i) b zs s.tail none
      → (s' : LruInner K) × (bypass_prev b a s ≡ some s')
        × (get_elem? s'.entries i ≡ some (entry k a b))
        × Chain s'.entries none s'.head ys a b
        × Chain s'.entries a b zs s'.tail none
        × Keeps s s'
  unfolding bypass_prev
  bypass_prev-ok k i ys [] s a b cut node l r = (
    record s { tail = a },
    rw (r.0, bypass_prev),
    node,
    l,
    (r.0, refl, tt),
    record { free = refl; index = refl; slab = refl },
  )
  bypass_prev-ok k i ys ((k', j) ∷ zs) s a b cut node l r =
      let (e, first, at, c) = relink_start s.entries (some i) b k' j zs s.tail none a cut.right r in
      let apart : has j (slots ys) ≡ false = ground (arith, cut.apart j) in
      (
        record s { entries = set s.entries j (record e { prev = a }) },
        rw (first, bypass_prev, set_prev-ok s.entries j a e at),
        get_elem?-set_ne s.entries j i _ (λ same. ground (arith, cut.not_right)) ∙ node,
        frame-set s.entries j _ none s.head ys a b apart l,
        c,
        record { free = refl; index = refl; slab = length-set s.entries j _ },
      )

  -- The pointers of one node are cleared or set: the list without it stays.
  detach-ok :
      (i : ℕ) (s : LruInner K) (xs : Nodes K) (e g : LruEntry K)
      → has i (slots xs) ≡ false
      → get_elem? s.entries i ≡ some e
      → IsLinked s xs
      → IsLinked (record s { entries = set s.entries i g }) xs
        × (get_elem? (set s.entries i g) i ≡ some g)
  detach-ok i s xs e g out at c =
      (frame-set s.entries i g none s.head xs s.tail none out c, get_elem?-write s.entries i e g at)

  -- `unlink` takes the node out of the list, and clears its pointers.
  pub unlink-ok :
      (k : K) (i : ℕ) (ys zs : Nodes K) (s : LruInner K)
      → IsCut ys i zs
      → IsLinked s (ys ++ (k, i) ∷ zs)
      → (s' : LruInner K) × (unlink i s ≡ some s')
        × IsLinked s' (ys ++ zs)
        × (get_elem? s'.entries i ≡ some (entry k none none))
        × Keeps s s'
  unfolding unlink
  unlink-ok k i ys zs s cut c =
      let (a, b, node, l, r) = split s.entries none s.head ys k i zs s.tail none c in
      let (s₁, e₁, n₁, l₁, r₁, k₁) = bypass_next-ok k i ys zs s a b cut node l r in
      let (s₂, e₂, n₂, l₂, r₂, k₂) = bypass_prev-ok k i ys zs s₁ a b cut n₁ l₁ r₁ in
      let out : has i (slots (ys ++ zs)) ≡ false = ground (
        arith,
        slots-append ys zs,
        has-append i (slots ys) (slots zs),
        cut.not_left,
        cut.not_right,
      ) in
      let (c₃, n₃) =
        detach-ok i s₂ (ys ++ zs) (entry k a b) (entry k none b) out n₂
          (join s₂.entries none s₂.head ys a b zs s₂.tail none l₂ r₂) in
      let s₃ = record s₂ { entries = set s₂.entries i (entry k none b) } in
      let (c₄, n₄) = detach-ok i s₃ (ys ++ zs) (entry k none b) (entry k none none) out n₃ c₃ in
      (
        record s₃ { entries = set s₃.entries i (entry k none none) },
        rw (
          node,
          e₁,
          e₂,
          set_prev-ok s₂.entries i none (entry k a b) n₂,
          set_next-ok s₃.entries i none (entry k none b) n₃,
        ),
        c₄,
        n₄,
        record {
          free = k₂.free ∙ k₁.free;
          index = k₂.index ∙ k₁.index;
          slab = length-set s₃.entries i _ ∙ length-set s₂.entries i _ ∙ k₂.slab ∙ k₁.slab;
        },
      )

  -- `push_front` puts a node that is not in the list in front.
  pub push_front-ok :
      (k : K) (i : ℕ) (xs : Nodes K) (s : LruInner K) (a b : Option ℕ)
      → Distinct (slots xs)
      → has i (slots xs) ≡ false
      → get_elem? s.entries i ≡ some (entry k a b)
      → IsLinked s xs
      → (s' : LruInner K) × (push_front i s ≡ some s') × IsLinked s' ((k, i) ∷ xs) × Keeps s s'
  unfolding push_front
  push_front-ok k i [] s a b d out node c =
      let es₁ = set s.entries i (entry k none b) in
      let at₁ = get_elem?-write s.entries i (entry k a b) (entry k none b) node in
      let es₂ = set es₁ i (entry k none none) in
      (
        record s { entries = es₂; head = some i; tail = some i },
        rw (
          set_prev-ok s.entries i none (entry k a b) node,
          c.0,
          set_next-ok es₁ i none (entry k none b) at₁,
          c.1,
        ),
        (
          none,
          refl,
          get_elem?-write es₁ i (entry k none b) (entry k none none) at₁,
          (refl, refl, tt),
        ),
        record { free = refl; index = refl; slab = length-set es₁ i _ ∙ length-set s.entries i _ },
      )
  push_front-ok k i ((k', j) ∷ xs) s a b d out node (n, here, at, c) =
      let (t, _, last, _, _, _) =
        relink_end s.entries none s.head (k', j) xs s.tail none none d (n, here, at, c) in
      let apart : i ≢ j = λ same. ground arith in
      let es₁ = set s.entries i (entry k none b) in
      let at₁ = get_elem?-write s.entries i (entry k a b) (entry k none b) node in
      let es₂ = set es₁ i (entry k none (some j)) in
      let at₂ = get_elem?-write es₁ i (entry k none b) (entry k none (some j)) at₁ in
      let old₂ : get_elem? es₂ j ≡ some (entry k' none n) =
        get_elem?-set_ne es₁ i j _ apart ∙ get_elem?-set_ne s.entries i j _ apart ∙ at in
      let c₂ =
        frame-set es₁ i (entry k none (some j)) (some j) n xs s.tail none (ground arith)
          (frame-set s.entries i (entry k none b) (some j) n xs s.tail none (ground arith) c) in
      let new = entry k' (some i) n in
      (
        record s { entries = set es₂ j new; head = some i; tail = some t },
        rw (
          set_prev-ok s.entries i none (entry k a b) node,
          here,
          set_next-ok es₁ i (some j) (entry k none b) at₁,
          set_prev-ok es₂ j (some i) (entry k' none n) old₂,
          last,
        ),
        (
          some j,
          refl,
          get_elem?-set_ne es₂ j i new (λ same. apart (sym same)) ∙ at₂,
          (
            n,
            refl,
            get_elem?-write es₂ j (entry k' none n) new old₂,
            rw (← last) (frame-set es₂ j new (some j) n xs s.tail none d.0 c₂),
          ),
        ),
        record {
          free = refl;
          index = refl;
          slab = length-set es₂ j _ ∙ length-set es₁ i _ ∙ length-set s.entries i _;
        },
      )
