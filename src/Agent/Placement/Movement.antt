-- ===== src/Agent/Placement/Movement.antt =====
-- What consistent hashing promises: when a node joins or leaves, the other nodes keep their keys.
use cmx_rdma.Base.{
  ℕ, zero, suc, ◌≡◌, ◌≢◌, refl, ◌∙◌, sym, ◌⊎◌, inl, inr, Option, none, some, List, [], ◌∷◌, arith,
  has, bytes_eq, Bytes, Bool-cases,
}
use cmx_rdma.Agent.Placement.{
  HashRing, insert_at, range_from, ring_without, first_node, remove_node, hash_position, vnode_key,
  add_vnodes, add_node, preferred_node,
}

-- The node that a position falls to.
abbrev pub owner : ℕ → List (ℕ × Bytes) → Option Bytes
owner pos ring = elim (range_from pos ring) [ (_, node) ∷ _ ↦ some node | [] ↦ first_node ring ]

-- The first owner at or after a position, without the wrap.
ahead : ℕ → List (ℕ × Bytes) → Option Bytes
unfolding range_from first_node
ahead pos ring = first_node (range_from pos ring)

owner-ahead :
    (pos : ℕ) (ring : List (ℕ × Bytes))
    → owner pos ring ≡ elim (ahead pos ring) [ some node ↦ some node | none ↦ first_node ring ]
unfolding ahead first_node range_from
owner-ahead pos ring = on (range_from pos ring)
  where
    on :
        (suffix : List (ℕ × Bytes))
        → elim suffix [ (_, node) ∷ _ ↦ some node | [] ↦ first_node ring ]
          ≡ elim (first_node suffix) [ some node ↦ some node | none ↦ first_node ring ]
    on [] = refl
    on ((q, node) ∷ rest) = refl

-- The new answer is the old one or the new node.
abbrev pub Taken : Bytes → Option Bytes → Option Bytes → Type 0
Taken node old new = (new ≡ old) ⊎ (new ≡ some node)

ahead-insert_at :
    (pos p : ℕ) (node : Bytes) (ring : List (ℕ × Bytes))
    → Taken node (ahead pos ring) (ahead pos (insert_at p node ring))
unfolding ahead insert_at range_from first_node
ahead-insert_at pos p node [] = ground arith
ahead-insert_at pos p node ((q, n) ∷ ring) = ground (arith, ahead-insert_at pos p node ring)

first_node-insert_at :
    (p : ℕ) (node : Bytes) (ring : List (ℕ × Bytes))
    → Taken node (first_node ring) (first_node (insert_at p node ring))
unfolding insert_at first_node
first_node-insert_at p node [] = inr refl
first_node-insert_at p node ((q, n) ∷ ring) = ground arith

owner-insert_at :
    (pos p : ℕ) (node : Bytes) (ring : List (ℕ × Bytes))
    → Taken node (owner pos ring) (owner pos (insert_at p node ring))
owner-insert_at pos p node ring =
    rw (owner-ahead pos ring, owner-ahead pos (insert_at p node ring))
      (combine (ahead pos ring) (ahead pos (insert_at p node ring)) _ _
        (ahead-insert_at pos p node ring) (first_node-insert_at p node ring))
  where
    combine :
        (old new first first' : Option Bytes)
        → Taken node old new
        → Taken node first first'
        → Taken node
            (elim old [ some m ↦ some m | none ↦ first ])
            (elim new [ some m ↦ some m | none ↦ first' ])
    combine none none first first' t t' = t'
    combine none (some m) first first' t t' = ground arith
    combine (some k) none first first' t t' = ground arith
    combine (some k) (some m) first first' t t' = t

Taken-trans :
    (node : Bytes) (a b d : Option Bytes) → Taken node a b → Taken node b d → Taken node a d
Taken-trans node a b d (inl h) (inl g) = inl (g ∙ h)
Taken-trans node a b d (inr h) (inl g) = inr (g ∙ h)
Taken-trans node a b d h (inr g) = inr g

-- A node that leaves takes no answer along but its own.
ahead-ring_without :
    (pos : ℕ) (node m : Bytes) (ring : List (ℕ × Bytes))
    → m ≢ node
    → ahead pos ring ≡ some m
    → ahead pos (ring_without node ring) ≡ some m
unfolding ahead ring_without range_from first_node
ahead-ring_without pos node m [] other at = at
ahead-ring_without pos node m ((q, n) ∷ ring) other at =
    ground (arith, ahead-ring_without pos node m ring other)

ahead-none :
    (pos : ℕ) (node : Bytes) (ring : List (ℕ × Bytes))
    → ahead pos ring ≡ none
    → ahead pos (ring_without node ring) ≡ none
unfolding ahead ring_without range_from first_node
ahead-none pos node [] at = at
ahead-none pos node ((q, n) ∷ ring) at = ground (arith, ahead-none pos node ring)

first_node-ring_without :
    (node m : Bytes) (ring : List (ℕ × Bytes))
    → m ≢ node
    → first_node ring ≡ some m
    → first_node (ring_without node ring) ≡ some m
unfolding ring_without first_node
first_node-ring_without node m [] other at = at
first_node-ring_without node m ((q, n) ∷ ring) other at = ground arith

owner-ring_without :
    (pos : ℕ) (node m : Bytes) (ring : List (ℕ × Bytes))
    → m ≢ node
    → owner pos ring ≡ some m
    → owner pos (ring_without node ring) ≡ some m
owner-ring_without pos node m ring other at =
    owner-ahead pos (ring_without node ring)
    ∙ combine (ahead pos ring) (ahead pos (ring_without node ring)) _ _
        (ahead-ring_without pos node m ring other) (ahead-none pos node ring)
        (first_node-ring_without node m ring other) (sym (owner-ahead pos ring) ∙ at)
  where
    combine :
        (old new first first' : Option Bytes)
        → (old ≡ some m → new ≡ some m)
        → (old ≡ none → new ≡ none)
        → (first ≡ some m → first' ≡ some m)
        → elim old [ some k ↦ some k | none ↦ first ] ≡ some m
        → elim new [ some k ↦ some k | none ↦ first' ] ≡ some m
    combine none new first first' f g h e = rw (g refl) (h e)
    combine (some k) new first first' f g h e = rw (f e)

first_node-gone :
    (node : Bytes) (ring : List (ℕ × Bytes)) → first_node (ring_without node ring) ≢ some node
unfolding ring_without first_node
first_node-gone node [] e = ground arith
first_node-gone node ((q, n) ∷ ring) e = ground (arith, first_node-gone node ring)

ahead-gone :
    (pos : ℕ) (node : Bytes) (ring : List (ℕ × Bytes))
    → ahead pos (ring_without node ring) ≢ some node
unfolding ahead ring_without range_from first_node
ahead-gone pos node [] e = ground arith
ahead-gone pos node ((q, n) ∷ ring) e = ground (arith, ahead-gone pos node ring)

owner-gone :
    (pos : ℕ) (node : Bytes) (ring : List (ℕ × Bytes))
    → owner pos (ring_without node ring) ≢ some node
owner-gone pos node ring e =
    combine (ahead pos (ring_without node ring)) (first_node (ring_without node ring))
      (ahead-gone pos node ring) (first_node-gone node ring)
      (sym (owner-ahead pos (ring_without node ring)) ∙ e)
  where
    combine :
        (a first : Option Bytes)
        → a ≢ some node
        → first ≢ some node
        → elim a [ some k ↦ some k | none ↦ first ] ≢ some node
    combine none first f g e = g e
    combine (some k) first f g e = f e

module _ (sha256 hex_encode : Bytes → Bytes) where
  preferred_node-owner :
      (hash : Bytes) (r : HashRing)
      → preferred_node sha256 hex_encode hash r
        ≡ owner (hash_position sha256 (hex_encode hash)) r.ring
  unfolding preferred_node
  preferred_node-owner hash r = refl

  owner-add_vnodes :
      (pos : ℕ) (node : Bytes) (left i : ℕ) (ring : List (ℕ × Bytes))
      → Taken node (owner pos ring) (owner pos (add_vnodes sha256 node left i ring))
  unfolding add_vnodes
  owner-add_vnodes pos node zero i ring = inl refl
  owner-add_vnodes pos node (suc left) i ring =
      let p = hash_position sha256 (vnode_key sha256 node i) in
      Taken-trans node (owner pos ring) _ _ (owner-insert_at pos p node ring)
        (owner-add_vnodes pos node left (suc i) (insert_at p node ring))

  -- When a node joins, the preferred node of each prefix hash stays the same or becomes the new node:
  -- no key moves between the nodes that were there.
  pub preferred_node-add_node :
      (hash node : Bytes) (r : HashRing)
      → (preferred_node sha256 hex_encode hash (add_node sha256 node r)
          ≡ preferred_node sha256 hex_encode hash r)
        ⊎ (preferred_node sha256 hex_encode hash (add_node sha256 node r) ≡ some node)
  unfolding add_node preferred_node range_from
  preferred_node-add_node hash node r = elim (Bool-cases (has node r.nodes)) [
    | inl known ↦ inl (rw (known, add_node))
    | inr fresh ↦
        rw (fresh, preferred_node-owner hash r, add_node)
          (owner-add_vnodes (hash_position sha256 (hex_encode hash)) node r.vnodes_per_node 0
            r.ring)
  ]

  -- When a node leaves, each prefix hash that preferred another node still prefers that one.
  pub preferred_node-remove_node :
      (hash node m : Bytes) (r : HashRing)
      → m ≢ node
      → preferred_node sha256 hex_encode hash r ≡ some m
      → preferred_node sha256 hex_encode hash (remove_node node r) ≡ some m
  unfolding remove_node
  preferred_node-remove_node hash node m r other e =
      preferred_node-owner hash (remove_node node r)
      ∙ owner-ring_without (hash_position sha256 (hex_encode hash)) node m r.ring other
          (sym (preferred_node-owner hash r) ∙ e)

  -- When a node leaves, no prefix hash prefers it any more.
  pub preferred_node-gone :
      (hash node : Bytes) (r : HashRing)
      → preferred_node sha256 hex_encode hash (remove_node node r) ≢ some node
  unfolding remove_node
  preferred_node-gone hash node r e =
      owner-gone (hash_position sha256 (hex_encode hash)) node r.ring
        (sym (preferred_node-owner hash (remove_node node r)) ∙ e)
