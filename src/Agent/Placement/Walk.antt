-- ===== src/Agent/Placement/Walk.antt =====
-- The walk of `preferred_nodes`: what it collects, and from which nodes.
use cmx_rdma.Base.{
  All, ◌||◌, ℕ, zero, suc, ◌-◌, ◌<◌, ◌≡◌, refl, ap, ◌∙◌, sym, inl, inr, true, false, List, [], ◌∷◌,
  ◌++◌, arith, has, has-append, bytes_eq, Distinct, leb, if◌then◌else◌, length, length-append,
  length-take, take, max, Bytes, Bool-cases, append_assoc, append-nil, min,
}
use cmx_rdma.Agent.Placement.{HashRing, range_from, collect, hash_position, preferred_nodes}

-- The nodes of a walk that `seen` has not, each at its first occurrence.
unfoldable pub fresh_nodes : List Bytes → List (ℕ × Bytes) → List Bytes
fresh_nodes seen [] = []
fresh_nodes seen ((_, node) ∷ ring) =
    let rest = fresh_nodes seen ring in
    let more = fresh_nodes (seen ++ node ∷ []) ring in if has node seen then rest else node ∷ more

take-suc :
    (n l : ℕ) (x : Bytes) (xs : List Bytes)
    → l < n
    → take (n - l) (x ∷ xs) ≡ x ∷ take (n - suc l) xs
take-suc n l x xs h = before (n - l) (n - suc l) (omega arith)
  where
    before : (a b : ℕ) → a ≡ suc b → take a (x ∷ xs) ≡ x ∷ take b xs
    before a b e = rw e

take-nil : (n : ℕ) → take {A = Bytes} n [] ≡ []
take-nil zero = refl
take-nil (suc n) = refl

take-zero : (n : ℕ) (xs : List Bytes) → n ≡ 0 → take n xs ≡ []
take-zero n xs e = rw e

collect-fresh_nodes :
    (n : ℕ) (ring : List (ℕ × Bytes)) (seen : List Bytes)
    → length seen < max n 1
    → collect n ring seen ≡ seen ++ take (max n 1 - length seen) (fresh_nodes seen ring)
unfolding collect fresh_nodes
collect-fresh_nodes n [] seen h = rw (take-nil (max n 1 - length seen), append-nil)
collect-fresh_nodes n ((q, node) ∷ ring) seen h = elim (Bool-cases (has node seen)) [
  | inl old ↦ rw (old, collect, fresh_nodes) (collect-fresh_nodes n ring seen h)
  | inr new ↦ elim (Bool-cases (leb n (length (seen ++ node ∷ [])))) [
    | inl enough ↦
        rw
          (
            new,
            collect,
            enough,
            take-suc (max n 1) (length seen) node (fresh_nodes (seen ++ node ∷ []) ring) h,
          )
          (ap (λ xs. seen ++ node ∷ xs)
            (sym (
              take-zero (max n 1 - suc (length seen)) _
                (ground (arith, length-append seen (node ∷ []))))))
    | inr short ↦
        rw
          (
            new,
            collect,
            short,
            take-suc (max n 1) (length seen) node (fresh_nodes (seen ++ node ∷ []) ring) h,
          )
          (collect-fresh_nodes n ring (seen ++ node ∷ [])
              (ground (arith, length-append seen (node ∷ [])))
            ∙ append_assoc seen (node ∷ []) _
            ∙ ap (λ l. seen ++ node ∷ take (max n 1 - l) (fresh_nodes (seen ++ node ∷ []) ring))
                (grown seen))
  ]
]
  where
    grown : (seen : List Bytes) → length (seen ++ node ∷ []) ≡ suc (length seen)
    grown seen = omega (arith, length-append seen (node ∷ []))

-- The nodes that own a position of a walk.
abbrev pub owners : List (ℕ × Bytes) → List Bytes
owners [] = []
owners ((_, node) ∷ ring) = node ∷ owners ring

fresh-unseen :
    (x : Bytes) (seen : List Bytes) (ring : List (ℕ × Bytes))
    → has x (fresh_nodes seen ring) ≡ true
    → has x seen ≡ false
unfolding fresh_nodes
fresh-unseen x seen [] h = absurd (ground arith)
fresh-unseen x seen ((q, node) ∷ ring) h = ground (
  arith,
  fresh-unseen x seen ring,
  fresh-unseen x (seen ++ node ∷ []) ring,
  has-append x seen (node ∷ []),
)

fresh-Distinct : (seen : List Bytes) (ring : List (ℕ × Bytes)) → Distinct (fresh_nodes seen ring)
unfolding fresh_nodes
fresh-Distinct seen [] = tt
fresh-Distinct seen ((q, node) ∷ ring) = elim (Bool-cases (has node seen)) [
  | inl old ↦ rw (old, fresh_nodes) (fresh-Distinct seen ring)
  | inr new ↦
      rw (new, fresh_nodes)
        (
          elim (Bool-cases (has node (fresh_nodes (seen ++ node ∷ []) ring))) [
            | inl again ↦ absurd (
                ground (
                  arith,
                  fresh-unseen node (seen ++ node ∷ []) ring again,
                  has-append node seen (node ∷ []),
                ))
            | inr once ↦ once
          ],
          fresh-Distinct (seen ++ node ∷ []) ring,
        )
]

fresh-owners :
    (x : Bytes) (seen : List Bytes) (ring : List (ℕ × Bytes))
    → has x (fresh_nodes seen ring) ≡ true
    → has x (owners ring) ≡ true
unfolding fresh_nodes
fresh-owners x seen [] h = absurd (ground arith)
fresh-owners x seen ((q, node) ∷ ring) h =
    ground (arith, fresh-owners x seen ring, fresh-owners x (seen ++ node ∷ []) ring)

has-take : (x : Bytes) (n : ℕ) (xs : List Bytes) → has x (take n xs) ≡ true → has x xs ≡ true
has-take x zero xs h = absurd (ground arith)
has-take x (suc n) [] h = h
has-take x (suc n) (y ∷ ys) h = ground (arith, has-take x n ys)

take-Distinct : (n : ℕ) (xs : List Bytes) → Distinct xs → Distinct (take n xs)
take-Distinct zero xs d = tt
take-Distinct (suc n) [] d = d
take-Distinct (suc n) (y ∷ ys) d = (
  elim (Bool-cases (has y (take n ys))) [
    | inl there ↦ absurd (ground (arith, has-take y n ys there, d.0))
    | inr out ↦ out
  ],
  take-Distinct n ys d.1,
)

owners-append :
    (x : Bytes) (xs ys : List (ℕ × Bytes))
    → has x (owners (xs ++ ys)) ≡ (has x (owners xs) || has x (owners ys))
owners-append x [] ys = refl
owners-append x ((q, node) ∷ xs) ys = ground (arith, owners-append x xs ys)

owners-range_from :
    (x : Bytes) (pos : ℕ) (ring : List (ℕ × Bytes))
    → has x (owners (range_from pos ring)) ≡ true
    → has x (owners ring) ≡ true
unfolding range_from
owners-range_from x pos [] h = h
owners-range_from x pos ((q, node) ∷ ring) h = ground (arith, owners-range_from x pos ring)

All-had : (P : Bytes → Type 0) (xs : List Bytes) → ((x : Bytes) → has x xs ≡ true → P x) → All P xs
All-had P [] f = tt
All-had P (x ∷ xs) f = (f x (ground arith), All-had P xs (λ y h. f y (ground arith)))

module _ (sha256 hex_encode : Bytes → Bytes) (hash : Bytes) (n : ℕ) (r : HashRing) where
  -- The walk that starts at the position of the hash and goes around the ring.
  abbrev pub walk : List (ℕ × Bytes)
  walk = range_from (hash_position sha256 (hex_encode hash)) r.ring ++ r.ring

  -- `preferred_nodes` gives the first `n` different nodes of the walk, or one if `n` is 0.
  pub preferred_nodes-walk :
      preferred_nodes sha256 hex_encode hash n r ≡ take (max n 1) (fresh_nodes [] walk)
  unfolding preferred_nodes
  preferred_nodes-walk =
      collect-fresh_nodes n walk [] (omega arith)
      ∙ ap (λ m. take m (fresh_nodes [] walk)) (minus_zero (max n 1))
    where
      minus_zero : (m : ℕ) → m - 0 ≡ m
      minus_zero m = omega arith

  -- The nodes that `preferred_nodes` gives are all different, own a position of the ring, and are as
  -- many as were asked for, one if that is 0, or else as many as the walk has.
  pub preferred_nodes-Distinct :
      Distinct (preferred_nodes sha256 hex_encode hash n r)
      × (length (preferred_nodes sha256 hex_encode hash n r)
          ≡ min (max n 1) (length (fresh_nodes [] walk)))
      × All (λ x. has x (owners r.ring) ≡ true) (preferred_nodes sha256 hex_encode hash n r)
  preferred_nodes-Distinct = rw preferred_nodes-walk (
    take-Distinct (max n 1) _ (fresh-Distinct [] walk),
    length-take (max n 1) (fresh_nodes [] walk),
    All-had (λ x. has x (owners r.ring) ≡ true) _
        (λ x h.
          let around = fresh-owners x [] walk (has-take x (max n 1) _ h) in
          ground (
            arith,
            around,
            owners-append x (range_from (hash_position sha256 (hex_encode hash)) r.ring) r.ring,
            owners-range_from x (hash_position sha256 (hex_encode hash)) r.ring,
          )),
  )
