-- ===== src/Agent/Placement.antt =====
-- The consistent hashing ring, crates/cmx-agent/src/placement.rs. The ring is a list sorted by
-- position, for the standard library's `BTreeMap`. SHA-256 (the crate `sha2`) and `hex::encode` are
-- parameters.
pub mod Movement
pub mod Walk
pub mod Order
use cmx_rdma.Base.{
  ℕ, zero, suc, ◌+◌, ◌*◌, ◌/◌, ◌%◌, Bool, Option, none, some, List, [], ◌∷◌, ◌++◌, has, same,
  bytes_eq, ◌==◌, ltb, leb, if◌then◌else◌, length, take, codes, Bytes,
}

-- The digits of a number in front of a text, on fuel. A number has fewer digits than its successor.
unfoldable pub digits : ℕ → ℕ → Bytes → Bytes
digits zero n rest = rest
digits (suc fuel) n rest =
    let more = digits fuel (n / 10) ((b'0' + n % 10) ∷ rest) in
    if ltb n 10 then (b'0' + n) ∷ rest else more

unfoldable pub to_decimal : ℕ → Bytes
unfolding digits
to_decimal n = digits (suc n) n []

unfoldable pub from_be : ℕ → Bytes → ℕ
from_be acc [] = acc
from_be acc (b ∷ bs) = from_be (acc * 256 + b) bs

-- `BTreeMap::insert`
unfoldable pub insert_at : ℕ → Bytes → List (ℕ × Bytes) → List (ℕ × Bytes)
insert_at pos node [] = (pos, node) ∷ []
insert_at pos node ((q, n) ∷ ring) =
    if pos == q
    then (pos, node) ∷ ring
    else if ltb pos q
    then (pos, node) ∷ (q, n) ∷ ring
    else (q, n) ∷ insert_at pos node ring

-- `BTreeMap::range(pos..)`
unfoldable pub range_from : ℕ → List (ℕ × Bytes) → List (ℕ × Bytes)
range_from pos [] = []
range_from pos ((q, n) ∷ ring) = if leb pos q then (q, n) ∷ ring else range_from pos ring

unfoldable pub ring_without : Bytes → List (ℕ × Bytes) → List (ℕ × Bytes)
ring_without node [] = []
ring_without node ((q, n) ∷ ring) =
    if same n node then ring_without node ring else (q, n) ∷ ring_without node ring

unfoldable pub nodes_without : Bytes → List Bytes → List Bytes
nodes_without node [] = []
nodes_without node (n ∷ ns) =
    if same n node then nodes_without node ns else n ∷ nodes_without node ns

pub record HashRing : Type 0 where
  pub ring : List (ℕ × Bytes)
  pub vnodes_per_node : ℕ
  pub nodes : List Bytes

unfoldable pub new : ℕ → HashRing
new vnodes_per_node = record { ring = []; vnodes_per_node = vnodes_per_node; nodes = [] }

-- The walk of `preferred_nodes`: a node that was not seen is taken, until there are `n`. The list of
-- nodes taken so far is also the set of those seen.
unfoldable pub collect : ℕ → List (ℕ × Bytes) → List Bytes → List Bytes
collect n [] result = result
collect n ((_, node) ∷ ring) result =
    let skipped = collect n ring result in
    let taken = result ++ node ∷ [] in
    let more = collect n ring taken in
    if has node result then skipped else if leb n (length taken) then taken else more

unfoldable pub first_node : List (ℕ × Bytes) → Option Bytes
first_node [] = none
first_node ((_, node) ∷ _) = some node

unfoldable pub node_count : HashRing → ℕ
node_count r = length r.nodes

unfoldable pub remove_node : Bytes → HashRing → HashRing
unfolding ring_without nodes_without
remove_node node r = record r {
  ring = ring_without node r.ring;
  nodes = nodes_without node r.nodes;
}

module _ (sha256 : Bytes → Bytes) where
  unfoldable pub hash_position : Bytes → ℕ
  unfolding from_be
  hash_position key = from_be 0 (take 8 (sha256 key))

  -- `format!("{}:{}", node_id, i)`
  unfoldable pub vnode_key : Bytes → ℕ → Bytes
  unfolding to_decimal
  vnode_key node i = node ++ (codes ":" ++ to_decimal i)

  -- The rounds `i`, `i + 1`, … of the loop of `add_node`, `left` of them.
  unfoldable pub add_vnodes : Bytes → (left i : ℕ) → List (ℕ × Bytes) → List (ℕ × Bytes)
  unfolding hash_position vnode_key insert_at
  add_vnodes node zero i ring = ring
  add_vnodes node (suc left) i ring =
      add_vnodes node left (suc i) (insert_at (hash_position (vnode_key node i)) node ring)

  unfoldable pub add_node : Bytes → HashRing → HashRing
  unfolding add_vnodes
  add_node node r = if has node r.nodes then r else record r {
    ring = add_vnodes node r.vnodes_per_node 0 r.ring;
    nodes = r.nodes ++ node ∷ [];
  }

  module _ (hex_encode : Bytes → Bytes) where
    -- The first node at or after a position, or the first of all.
    unfoldable pub preferred_node : Bytes → HashRing → Option Bytes
    unfolding hash_position range_from first_node
    preferred_node prefix_hash r =
        let pos = hash_position (hex_encode prefix_hash) in
        elim (range_from pos r.ring) [ (_, node) ∷ _ ↦ some node | [] ↦ first_node r.ring ]

    unfoldable pub preferred_nodes : Bytes → ℕ → HashRing → List Bytes
    unfolding hash_position range_from collect
    preferred_nodes prefix_hash n r =
        let pos = hash_position (hex_encode prefix_hash) in
        collect n (range_from pos r.ring ++ r.ring) []
