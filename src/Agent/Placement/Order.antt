-- ===== src/Agent/Placement/Order.antt =====
-- The ring is sorted by position, and the preferred node is the one at the next position.
use cmx_rdma.Base.{
  ℕ, zero, suc, ◌<◌, ◌≤◌, ◌≡◌, refl, ap, ◌⊎◌, inl, inr, true, false, some, List, [], ◌∷◌, ◌++◌,
  arith, has, has-append, same, bytes_eq, nat_eq, pair_eq, ◌==◌, ltb, leb, ltb→lt, leb→le, Bytes,
  Bool-cases, All,
}
use cmx_rdma.Agent.Placement.{
  HashRing, insert_at, range_from, ring_without, nodes_without, first_node, remove_node,
  hash_position, vnode_key, add_vnodes, add_node, preferred_node,
}

-- Positions grow along the ring.
abbrev pub IsSorted : List (ℕ × Bytes) → Type 0
IsSorted [] = Unit {0}
IsSorted (x ∷ ring) = All (λ y. x.0 < y.0) ring × IsSorted ring

-- The ring is sorted, and its nodes are among those that were added.
abbrev pub IsRing : HashRing → Type 0
IsRing r = IsSorted r.ring × All (λ x. has x.1 r.nodes ≡ true) r.ring

All-map :
    {P Q : ℕ × Bytes → Type 0} (xs : List (ℕ × Bytes))
    → ((x : ℕ × Bytes) → P x → Q x)
    → All P xs
    → All Q xs
All-map [] f h = tt
All-map (x ∷ xs) f (h, hs) = (f x h, All-map xs f hs)

All-insert_at :
    (P : ℕ × Bytes → Type 0) (p : ℕ) (node : Bytes) (ring : List (ℕ × Bytes))
    → P (p, node)
    → All P ring
    → All P (insert_at p node ring)
unfolding insert_at
All-insert_at P p node [] new' h = (new', tt)
All-insert_at P p node ((q, n) ∷ ring) new' (h, hs) = elim (Bool-cases (p == q)) [
  | inl at ↦ rw (at, insert_at) (new', hs)
  | inr other ↦ elim (Bool-cases (ltb p q)) [
    | inl before ↦ rw (other, insert_at, before) (new', (h, hs))
    | inr after ↦ rw (other, insert_at, after) (h, All-insert_at P p node ring new' hs)
  ]
]

All-ring_without :
    (P : ℕ × Bytes → Type 0) (node : Bytes) (ring : List (ℕ × Bytes))
    → All P ring
    → All P (ring_without node ring)
unfolding ring_without
All-ring_without P node [] h = tt
All-ring_without P node ((q, n) ∷ ring) (h, hs) = elim (Bool-cases (same n node)) [
  | inl gone ↦ rw (gone, ring_without) (All-ring_without P node ring hs)
  | inr stays ↦ rw (stays, ring_without) (h, All-ring_without P node ring hs)
]

insert_at-IsSorted :
    (p : ℕ) (node : Bytes) (ring : List (ℕ × Bytes))
    → IsSorted ring
    → IsSorted (insert_at p node ring)
unfolding insert_at
insert_at-IsSorted p node [] s = (tt, tt)
insert_at-IsSorted p node ((q, n) ∷ ring) (h, s) = elim (Bool-cases (p == q)) [
  | inl at ↦
      let same_place : p ≡ q = ground arith in
      rw (at, insert_at) (All-map ring (λ x g. omega (arith, same_place)) h, s)
  | inr other ↦ elim (Bool-cases (ltb p q)) [
    | inl before ↦
        let lower : p < q = ltb→lt p q before in
        rw (other, insert_at, before) ((lower, All-map ring (λ x g. omega arith) h), (h, s))
    | inr after ↦
        let higher : q < p = ground arith in
        rw (other, insert_at, after)
          (All-insert_at (λ x. q < x.0) p node ring higher h, insert_at-IsSorted p node ring s)
  ]
]

ring_without-IsSorted :
    (node : Bytes) (ring : List (ℕ × Bytes)) → IsSorted ring → IsSorted (ring_without node ring)
unfolding ring_without
ring_without-IsSorted node [] s = tt
ring_without-IsSorted node ((q, n) ∷ ring) (h, s) = elim (Bool-cases (same n node)) [
  | inl gone ↦ rw (gone, ring_without) (ring_without-IsSorted node ring s)
  | inr stays ↦
      rw (stays, ring_without)
        (All-ring_without (λ x. q < x.0) node ring h, ring_without-IsSorted node ring s)
]

has-nodes_without :
    (x node : Bytes) (ns : List Bytes)
    → has x ns ≡ true
    → same x node ≡ false
    → has x (nodes_without node ns) ≡ true
unfolding nodes_without
has-nodes_without x node [] h o = h
has-nodes_without x node (n ∷ ns) h o = ground (arith, has-nodes_without x node ns)

left_nodes :
    (node : Bytes) (ns : List Bytes) (ring : List (ℕ × Bytes))
    → All (λ x. has x.1 ns ≡ true) ring
    → All (λ x. has x.1 (nodes_without node ns) ≡ true) (ring_without node ring)
unfolding ring_without
left_nodes node ns [] h = tt
left_nodes node ns ((q, n) ∷ ring) (h, hs) = elim (Bool-cases (same n node)) [
  | inl gone ↦ rw (gone, ring_without) (left_nodes node ns ring hs)
  | inr stays ↦
      rw (stays, ring_without) (has-nodes_without n node ns h stays, left_nodes node ns ring hs)
]

-- When a node leaves, the ring stays sorted and its nodes are among those that are left.
pub remove_node-IsRing : (node : Bytes) (r : HashRing) → IsRing r → IsRing (remove_node node r)
unfolding remove_node
remove_node-IsRing node r (s, h) =
    (ring_without-IsSorted node r.ring s, left_nodes node r.nodes r.ring h)

-- The pair stands in the ring at the first position that is not before `pos`; if there is none, at the
-- first position of all.
pub record IsSuccessor (pos : ℕ) (ring : List (ℕ × Bytes)) (q : ℕ) (node : Bytes) : Type 0 where
  pub stands : has (q, node) ring ≡ true
  pub next :
      ((pos ≤ q) × All (λ x. (x.0 < pos) ⊎ (q ≤ x.0)) ring)
      ⊎ (All (λ x. x.0 < pos) ring × All (λ x. q ≤ x.0) ring)

range_from-cons :
    (pos : ℕ) (ring : List (ℕ × Bytes)) (q : ℕ) (node : Bytes) (rest : List (ℕ × Bytes))
    → IsSorted ring
    → range_from pos ring ≡ (q, node) ∷ rest
    → (has (q, node) ring ≡ true) × (pos ≤ q) × All (λ x. (x.0 < pos) ⊎ (q ≤ x.0)) ring
unfolding range_from
range_from-cons pos [] q node rest s e = absurd (ground arith)
range_from-cons pos ((p, n) ∷ ring) q node rest (h, s) e = elim (Bool-cases (leb pos p)) [
  | inl here ↦
      let whole : (p, n) ∷ ring ≡ (q, node) ∷ rest = rw here at e in
      let same_pair : ◌≡◌ {A = ℕ × Bytes} (p, n) (q, node) = ground arith in
      let same_place : p ≡ q = ap (λ x. x.0) same_pair in
      let ahead : pos ≤ p = leb→le pos p here in
      (
        ground (arith, same_pair),
        omega arith,
        (inr (omega arith), All-map ring (λ x g. inr (omega (arith, same_place))) h),
      )
  | inr before ↦
      let lower : p < pos = ground arith in
      let further : range_from pos ring ≡ (q, node) ∷ rest = rw before at e in
      let (stands, ahead, least) = range_from-cons pos ring q node rest s further in
      (ground arith, ahead, (inl lower, least))
]

range_from-nil :
    (pos : ℕ) (ring : List (ℕ × Bytes)) → range_from pos ring ≡ [] → All (λ x. x.0 < pos) ring
unfolding range_from
range_from-nil pos [] e = tt
range_from-nil pos ((p, n) ∷ ring) e = (ground arith, range_from-nil pos ring (ground arith))

module _ (sha256 : Bytes → Bytes) where
  add_vnodes-IsSorted :
      (node : Bytes) (left i : ℕ) (ring : List (ℕ × Bytes))
      → IsSorted ring
      → IsSorted (add_vnodes sha256 node left i ring)
  unfolding add_vnodes
  add_vnodes-IsSorted node zero i ring s = s
  add_vnodes-IsSorted node (suc left) i ring s =
      let p = hash_position sha256 (vnode_key sha256 node i) in
      add_vnodes-IsSorted node left (suc i) (insert_at p node ring)
        (insert_at-IsSorted p node ring s)

  All-add_vnodes :
      (P : ℕ × Bytes → Type 0) (node : Bytes) (left i : ℕ) (ring : List (ℕ × Bytes))
      → ((p : ℕ) → P (p, node))
      → All P ring
      → All P (add_vnodes sha256 node left i ring)
  unfolding add_vnodes
  All-add_vnodes P node zero i ring new' h = h
  All-add_vnodes P node (suc left) i ring new' h =
      let p = hash_position sha256 (vnode_key sha256 node i) in
      All-add_vnodes P node left (suc i) (insert_at p node ring) new'
        (All-insert_at P p node ring (new' p) h)

  -- When a node joins, the ring stays sorted and its nodes are among those that were added.
  pub add_node-IsRing : (node : Bytes) (r : HashRing) → IsRing r → IsRing (add_node sha256 node r)
  unfolding add_node
  add_node-IsRing node r (s, h) = elim (Bool-cases (has node r.nodes)) [
    | inl known ↦ rw (known, add_node) (s, h)
    | inr fresh ↦
        rw (fresh, add_node)
          (
            add_vnodes-IsSorted node r.vnodes_per_node 0 r.ring s,
            All-add_vnodes (λ x. has x.1 (r.nodes ++ node ∷ []) ≡ true) node r.vnodes_per_node 0
                r.ring (λ p. ground (arith, has-append node r.nodes (node ∷ [])))
                (All-map r.ring (λ x g. ground (arith, has-append x.1 r.nodes (node ∷ []))) h),
          )
  ]

  module _ (hex_encode : Bytes → Bytes) where
    -- On a ring that is sorted, the preferred node of a prefix hash is the one at the first position
    -- of the ring that is not before the position of the hash, or at the first of all if there is none.
    pub preferred_node-IsSuccessor :
        (hash : Bytes) (r : HashRing) (m : Bytes)
        → IsRing r
        → preferred_node sha256 hex_encode hash r ≡ some m
        → (q : ℕ) × IsSuccessor (hash_position sha256 (hex_encode hash)) r.ring q m
    unfolding preferred_node first_node
    preferred_node-IsSuccessor hash r m (s, h) e = on (range_from pos r.ring) refl e
      where
        pos : ℕ
        pos = hash_position sha256 (hex_encode hash)

        lowest :
            (ring : List (ℕ × Bytes))
            → IsSorted ring
            → All (λ x. x.0 < pos) ring
            → first_node ring ≡ some m
            → (q : ℕ) × IsSuccessor pos ring q m
        lowest [] sorted all first = absurd (ground arith)
        lowest ((p, n) ∷ ring) (low, sorted) all first = (
          p,
          record {
            stands = ground arith;
            next = inr (all, (omega arith, All-map ring (λ x g. omega arith) low));
          },
        )

        on :
            (suffix : List (ℕ × Bytes))
            → range_from pos r.ring ≡ suffix
            → elim suffix [ (_, node) ∷ _ ↦ some node | [] ↦ first_node r.ring ] ≡ some m
            → (q : ℕ) × IsSuccessor pos r.ring q m
        on [] at first = lowest r.ring s (range_from-nil pos r.ring at) first
        on ((q, n) ∷ rest) at first =
            let same_node : n ≡ m = ground arith in
            let (stands, ahead, least) = range_from-cons pos r.ring q n rest s at in
            (q, rw (← same_node) (record { stands = stands; next = inl (ahead, least) }))
