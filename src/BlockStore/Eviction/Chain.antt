-- ===== src/BlockStore/Eviction/Chain.antt =====
-- Segments of the linked list in the slab, and how a write of one pointer changes them.
use cmx_rdma.Base.{
  length, ◌<◌, ℕ, ◌≡◌, refl, ◌∙◌, true, false, Option, some, List, [], ◌∷◌, ◌++◌, arith, has,
  nat_eq, Distinct, Distinct-split, Distinct-append, not_mem_of_apart, get_elem?, set,
  get_elem?-set_self, get_elem?-set_ne, lt-of-get_elem?,
}
use cmx_rdma.BlockStore.Eviction.{LruEntry, entry, set_prev, set_next}

-- The slab, and the nodes of a list: key and slot of each, most recent first.
abbrev pub Slab {ℓ} : Type ℓ → Type ℓ
Slab K = List (LruEntry K)

abbrev pub Nodes {ℓ} : Type ℓ → Type ℓ
Nodes K = List (K × ℕ)

module _ {ℓ} {K : Type ℓ} where
  abbrev pub slots : Nodes K → List ℕ
  slots [] = []
  slots ((k, i) ∷ xs) = i ∷ slots xs

  -- From the pointer `h` the nodes `xs` are linked both ways: `p` stands before them, `t` is the
  -- last one, and `q` follows it.
  abbrev pub Chain : Slab K → Option ℕ → Option ℕ → Nodes K → Option ℕ → Option ℕ → Type ℓ
  Chain es p h [] t q = (h ≡ q) × (t ≡ p) × Unit {ℓ}
  Chain es p h ((k, i) ∷ xs) t q =
      (n : Option ℕ) × (h ≡ some i)
      × (get_elem? es i ≡ some (entry k p n))
      × Chain es (some i) n xs t q

  pub slots-append : (xs ys : Nodes K) → slots (xs ++ ys) ≡ slots xs ++ slots ys
  slots-append [] ys = refl
  slots-append ((k, i) ∷ xs) ys = rw (slots-append xs ys)

  pub frame :
      (es gs : Slab K) (p h : Option ℕ) (xs : Nodes K) (t q : Option ℕ)
      → ((m : ℕ) → has m (slots xs) ≡ true → get_elem? gs m ≡ get_elem? es m)
      → Chain es p h xs t q
      → Chain gs p h xs t q
  frame es gs p h [] t q same c = c
  frame es gs p h ((k, i) ∷ xs) t q same (n, here, node, c) = (
    n,
    here,
    ground (arith, same i),
    frame es gs (some i) n xs t q (λ m a. ground (arith, same m)) c,
  )

  pub get_elem?-write :
      (es : Slab K) (i : ℕ) (e g : LruEntry K)
      → get_elem? es i ≡ some e
      → get_elem? (set es i g) i ≡ some g
  get_elem?-write es i e g h = get_elem?-set_self es i g (lt-of-get_elem? es i e h)

  -- A write outside a segment leaves it.
  pub frame-set :
      (es : Slab K) (j : ℕ) (g : LruEntry K) (p h : Option ℕ) (xs : Nodes K) (t q : Option ℕ)
      → has j (slots xs) ≡ false
      → Chain es p h xs t q
      → Chain (set es j g) p h xs t q
  frame-set es j g p h xs t q out =
      frame es (set es j g) p h xs t q (λ m a. get_elem?-set_ne es j m g (λ e. ground arith))

  -- The list is cut at the node `(k, i)`, whose pointers are `a` and `b`.
  pub split :
      (es : Slab K) (p h : Option ℕ) (ys : Nodes K) (k : K) (i : ℕ) (zs : Nodes K) (t q : Option ℕ)
      → Chain es p h (ys ++ (k, i) ∷ zs) t q
      → (a : Option ℕ) × (b : Option ℕ) × (get_elem? es i ≡ some (entry k a b))
        × Chain es p h ys a (some i)
        × Chain es (some i) b zs t q
  split es p h [] k i zs t q (n, here, node, c) = (p, n, node, (here, refl, tt), c)
  split es p h ((k', i') ∷ ys) k i zs t q (n, here, node, c) =
      let (a, b, at, l, r) = split es (some i') n ys k i zs t q c in
      (a, b, at, (n, here, node, l), r)

  pub join :
      (es : Slab K) (p h : Option ℕ) (ys : Nodes K) (a b : Option ℕ) (zs : Nodes K) (t q : Option ℕ)
      → Chain es p h ys a b
      → Chain es a b zs t q
      → Chain es p h (ys ++ zs) t q
  join es p h [] a b zs t q (here, last, _) c = rw (here, ← last) c
  join es p h ((k, i) ∷ ys) a b zs t q (n, here, node, l) c =
      (n, here, node, join es (some i) n ys a b zs t q l c)

  -- The last node of a nonempty segment, and the segment after a write of its `next`.
  pub relink_end :
      (es : Slab K) (p h : Option ℕ) (y : K × ℕ) (ys : Nodes K) (a q b : Option ℕ)
      → Distinct (slots (y ∷ ys))
      → Chain es p h (y ∷ ys) a q
      → (j : ℕ) × (e : LruEntry K) × (a ≡ some j)
        × (has j (slots (y ∷ ys)) ≡ true)
        × (get_elem? es j ≡ some e)
        × Chain (set es j (record e { next = b })) p h (y ∷ ys) a b
  relink_end es p h (k, i) [] a q b d (n, here, node, c) = (
    i,
    entry k p n,
    c.1,
    ground arith,
    node,
    (b, here, get_elem?-write es i (entry k p n) (entry k p b) node, (refl, c.1, tt)),
  )
  relink_end es p h (k, i) (y ∷ ys) a q b d (n, here, node, c) =
      let (j, e, last, mem, at, c') = relink_end es (some i) n y ys a q b d.1 c in
      (
        j,
        e,
        last,
        ground arith,
        at,
        (n, here, get_elem?-set_ne es j i _ (λ same. ground arith) ∙ node, c'),
      )

  -- The first node of a nonempty segment, and the segment after a write of its `prev`.
  pub relink_start :
      (es : Slab K) (p h : Option ℕ) (k : K) (j : ℕ) (zs : Nodes K) (t q a : Option ℕ)
      → Distinct (slots ((k, j) ∷ zs))
      → Chain es p h ((k, j) ∷ zs) t q
      → (e : LruEntry K) × (h ≡ some j)
        × (get_elem? es j ≡ some e)
        × Chain (set es j (record e { prev = a })) a h ((k, j) ∷ zs) t q
  relink_start es p h k j zs t q a d (n, here, node, c) = (
    entry k p n,
    here,
    node,
    (
      n,
      here,
      get_elem?-write es j (entry k p n) (entry k a n) node,
      frame-set es j (entry k a n) (some j) n zs t q d.0 c,
    ),
  )

  pub set_prev-ok :
      (es : Slab K) (i : ℕ) (v : Option ℕ) (e : LruEntry K)
      → get_elem? es i ≡ some e
      → set_prev i v es ≡ some (set es i (record e { prev = v }))
  unfolding set_prev
  set_prev-ok es i v e h = rw h

  pub set_next-ok :
      (es : Slab K) (i : ℕ) (v : Option ℕ) (e : LruEntry K)
      → get_elem? es i ≡ some e
      → set_next i v es ≡ some (set es i (record e { next = v }))
  unfolding set_next
  set_next-ok es i v e h = rw h

  -- What distinct slots say of a list that is cut at the slot `i`.
  pub record IsCut (ys : Nodes K) (i : ℕ) (zs : Nodes K) : Type 0 where
    pub left : Distinct (slots ys)
    pub right : Distinct (slots zs)
    pub not_left : has i (slots ys) ≡ false
    pub not_right : has i (slots zs) ≡ false
    pub apart : (m : ℕ) → has m (slots ys) ≡ true → has m (slots zs) ≡ false

  pub IsCut-of-Distinct :
      (ys : Nodes K) (k : K) (i : ℕ) (zs : Nodes K)
      → Distinct (slots (ys ++ (k, i) ∷ zs))
      → IsCut ys i zs
  IsCut-of-Distinct ys k i zs d =
      let (l, r, apart) = Distinct-split (slots ys) (i ∷ slots zs) (rw slots-append at d) in
      record {
        left = l;
        right = r.1;
        not_left = not_mem_of_apart (slots ys) i (λ m. ground (arith, apart m));
        not_right = r.0;
        apart = λ m h. ground (arith, apart m);
      }

  pub Distinct-of-cut :
      (ys : Nodes K) (i : ℕ) (zs : Nodes K) → IsCut ys i zs → Distinct (slots (ys ++ zs))
  Distinct-of-cut ys i zs c =
      rw slots-append (Distinct-append (slots ys) (slots zs) c.left c.right c.apart)

  -- The slots of a segment lie in the slab.
  pub slot_lt :
      (es : Slab K) (p h : Option ℕ) (xs : Nodes K) (t q : Option ℕ) (m : ℕ)
      → Chain es p h xs t q
      → has m (slots xs) ≡ true
      → m < length es
  slot_lt es p h [] t q m c a = absurd (ground arith)
  slot_lt es p h ((k, i) ∷ xs) t q m (n, here, node, c) a =
      ground (arith, lt-of-get_elem? es i _ node, slot_lt es (some i) n xs t q m c)
