-- ===== src/Agent/RemoteIndex/Laws.antt =====
-- What the index of remote blocks promises: one block for each node and key, and none of a node
-- that has left.
use cmx_rdma.Base.{
  ◌≡◌, ◌<◌, ◌≢◌, refl, inl, inr, Bool, true, false, Option, none, some, List, [], ◌∷◌, arith, Eq,
  same, has, Distinct, bytes_eq, if◌then◌else◌, ◌>>=◌, Option-cases, Bytes, length,
}
use cmx_rdma.Base.DashMap.{DashMap}
use cmx_rdma.Agent.RemoteIndex.{
  RemoteBlockInfo, upsert, without, retained, lookup, insert, remove, remove_node,
}

-- The nodes that a list of blocks names.
abbrev pub nodes : List RemoteBlockInfo → List Bytes
nodes [] = []
nodes (x ∷ xs) = x.node_id ∷ nodes xs

-- The block that a list has of a node.
abbrev pub block_of : Bytes → List RemoteBlockInfo → Option RemoteBlockInfo
block_of node [] = none
block_of node (x ∷ xs) = if same x.node_id node then some x else block_of node xs

block_of-upsert :
    (info : RemoteBlockInfo) (node : Bytes) (xs : List RemoteBlockInfo)
    → block_of node (upsert info xs)
      ≡ (if same info.node_id node then some info else block_of node xs)
unfolding upsert
block_of-upsert info node [] = refl
block_of-upsert info node (x ∷ xs) = ground (arith, block_of-upsert info node xs)

has-nodes-upsert :
    (info : RemoteBlockInfo) (node : Bytes) (xs : List RemoteBlockInfo)
    → info.node_id ≢ node
    → has node (nodes (upsert info xs)) ≡ has node (nodes xs)
unfolding upsert
has-nodes-upsert info node [] h = ground arith
has-nodes-upsert info node (x ∷ xs) h = ground (arith, has-nodes-upsert info node xs)

upsert-Distinct :
    (info : RemoteBlockInfo) (xs : List RemoteBlockInfo)
    → Distinct (nodes xs)
    → Distinct (nodes (upsert info xs))
unfolding upsert
upsert-Distinct info [] d = (refl, tt)
upsert-Distinct info (x ∷ xs) d =
    ground (arith, upsert-Distinct info xs, has-nodes-upsert info x.node_id xs)

block_of-without :
    (gone node : Bytes) (xs : List RemoteBlockInfo)
    → block_of node (without gone xs) ≡ (if same gone node then none else block_of node xs)
unfolding without
block_of-without gone node [] = ground arith
block_of-without gone node (x ∷ xs) = ground (arith, block_of-without gone node xs)

has-nodes-without :
    (gone node : Bytes) (xs : List RemoteBlockInfo)
    → has node (nodes xs) ≡ false
    → has node (nodes (without gone xs)) ≡ false
unfolding without
has-nodes-without gone node [] h = refl
has-nodes-without gone node (x ∷ xs) h = ground (arith, has-nodes-without gone node xs)

without-Distinct :
    (gone : Bytes) (xs : List RemoteBlockInfo)
    → Distinct (nodes xs)
    → Distinct (nodes (without gone xs))
unfolding without
without-Distinct gone [] d = d
without-Distinct gone (x ∷ xs) d =
    ground (arith, without-Distinct gone xs, has-nodes-without gone x.node_id xs)

abbrev pub IsEntry : Option (List RemoteBlockInfo) → Type 0
IsEntry none = Unit {0}
IsEntry (some xs) = Distinct (nodes xs) × (0 < length xs)

pub IsEntry-if :
    (b : Bool) (x y : Option (List RemoteBlockInfo))
    → IsEntry x
    → IsEntry y
    → IsEntry (if b then x else y)
IsEntry-if true x y hx hy = hx
IsEntry-if false x y hx hy = hy

length-upsert : (info : RemoteBlockInfo) (xs : List RemoteBlockInfo) → 0 < length (upsert info xs)
unfolding upsert
length-upsert info [] = omega arith
length-upsert info (x ∷ xs) = ground arith

retained-IsEntry :
    (gone : Bytes) (xs : List RemoteBlockInfo) → Distinct (nodes xs) → IsEntry (retained gone xs)
unfolding retained
retained-IsEntry gone xs d = left (without gone xs) (without-Distinct gone xs d)
  where
    left :
        (ys : List RemoteBlockInfo)
        → Distinct (nodes ys)
        → IsEntry (elim ys [ [] ↦ none | y ∷ rest ↦ some (y ∷ rest) ])
    left [] d = tt
    left (y ∷ ys) d = (d, omega arith)

module _ {K : Type 0} ⦃e : Eq K⦄ (R : DashMap K (List RemoteBlockInfo)) where
  -- The block that the index has of a node under a key.
  abbrev pub found : K → Bytes → R.Map → Option RemoteBlockInfo
  found k node m = lookup R k m >>= block_of node

  -- Every key has at least one block, and at most one of each node.
  abbrev pub IsRemote : R.Map → Type 0
  IsRemote m = (k : K) → IsEntry (lookup R k m)

  -- `insert` sets the block of its node under its key, and no other block.
  pub found-insert :
      (k j : K) (node : Bytes) (info : RemoteBlockInfo) (m : R.Map)
      → found j node (insert R k info m) ≡ (
          if same k j
          then (if same info.node_id node then some info else found k node m)
          else found j node m)
  unfolding lookup insert
  found-insert k j node info m = elim (Option-cases (R.get k m)) [
    | inl absent ↦ ground (arith, R.get-insert k j (info ∷ []) m)
    | inr (xs, at) ↦
        ground (arith, R.get-insert k j (upsert info xs) m, block_of-upsert info node xs)
  ]

  -- After a node has left, the index has no block of it; every other block is still there.
  pub found-remove_node :
      (k : K) (gone node : Bytes) (m : R.Map)
      → found k node (remove_node R gone m) ≡ (if same gone node then none else found k node m)
  unfolding lookup remove_node retained
  found-remove_node k gone node m = elim (Option-cases (R.get k m)) [
    | inl absent ↦ ground (arith, R.get-retain (retained gone) k m)
    | inr (xs, at) ↦ ground (arith, R.get-retain (retained gone) k m, block_of-without gone node xs)
  ]

  -- `remove` drops all blocks of its key, and no other block.
  pub found-remove :
      (k j : K) (node : Bytes) (m : R.Map)
      → found j node (remove R k m) ≡ (if same k j then none else found j node m)
  unfolding lookup remove
  found-remove k j node m = ground (arith, R.get-remove k j m)

  -- `insert` keeps the invariant that every known key has at least one block, and at most one of each
  -- node.
  pub insert-IsRemote :
      (k : K) (info : RemoteBlockInfo) (m : R.Map) → IsRemote m → IsRemote (insert R k info m)
  unfolding lookup insert
  insert-IsRemote k info m v j = elim (Option-cases (R.get k m)) [
    | inl absent ↦
        rw (absent, insert, R.get-insert k j (info ∷ []) m)
          (IsEntry-if (same k j) _ _ ((refl, tt), omega arith) (v j))
    | inr (xs, at) ↦
        let old : IsEntry (some xs) = rw at at (v k) in
        rw (at, insert, R.get-insert k j (upsert info xs) m)
          (IsEntry-if (same k j) _ _ (upsert-Distinct info xs old.0, length-upsert info xs) (v j))
  ]

  -- `remove_node` keeps the invariant.
  pub remove_node-IsRemote :
      (gone : Bytes) (m : R.Map) → IsRemote m → IsRemote (remove_node R gone m)
  unfolding lookup remove_node
  remove_node-IsRemote gone m v k = elim (Option-cases (R.get k m)) [
    | inl absent ↦ rw (R.get-retain (retained gone) k m, absent) tt
    | inr (xs, at) ↦
        let old : IsEntry (some xs) = rw at at (v k) in
        rw (R.get-retain (retained gone) k m, at) (retained-IsEntry gone xs old.0)
  ]
