-- ===== src/BlockStore/Index.antt =====
-- The index of prefix hashes, crates/cmx-block-store/src/index.rs, over the concurrent map of the
-- crate `dashmap`, a parameter. `none` is a panic of the eviction policy.
pub mod Evict
pub mod Refines
use cmx_rdma.Base.{
  ℕ, zero, suc, Bool, true, false, Option, none, some, List, [], ◌∷◌, ◌++◌, Eq, leb, if◌then◌else◌,
  ◌>>=◌,
}
use cmx_rdma.Base.DashMap.{DashMap, contains_key}
use cmx_rdma.BlockStore.Block.{BlockLocation}
use cmx_rdma.BlockStore.Eviction
use cmx_rdma.BlockStore.Eviction.{LruInner}

pub record IndexEntry : Type 0 where
  pub blocks : List BlockLocation
  pub created_at : ℕ

pub record BlockIndex {K : Type 0} ⦃e : Eq K⦄ (M : DashMap K IndexEntry) : Type 0 where
  pub map : M.Map
  pub lru : LruInner K
  pub capacity : ℕ

module _ {K : Type 0} ⦃e : Eq K⦄ (M : DashMap K IndexEntry) where
  unfoldable pub new : ℕ → BlockIndex M
  unfolding Eviction.new
  new capacity = record { map = M.empty; lru = Eviction.new; capacity = capacity }

  unfoldable pub lookup : K → BlockIndex M → Option (Option IndexEntry × BlockIndex M)
  lookup k s = elim (M.get k s.map) [
    | none ↦ some (none, s)
    | some entry ↦ do lru ← Eviction.touch k s.lru; some (some entry, record s { lru = lru })
  ]

  -- The `while` loop of `insert`, on fuel; `none` is also the loop that ran out of it.
  unfoldable pub evict_loop : ℕ → BlockIndex M → List K → Option (List K × BlockIndex M)
  evict_loop zero s evicted = none
  evict_loop (suc fuel) s evicted = elim (leb s.capacity (M.len s.map)) [
    | false ↦ some (evicted, s)
    | true ↦ Eviction.evict_lru s.lru >>= λ (found, lru). elim found [
      | none ↦ some (evicted, record s { lru = lru })
      | some victim ↦
          evict_loop fuel (record s { map = M.remove victim s.map; lru = lru })
            (evicted ++ victim ∷ [])
    ]
  ]

  -- The loop makes one round for each entry, and one more that ends it.
  unfoldable pub make_room : K → BlockIndex M → Option (List K × BlockIndex M)
  unfolding evict_loop
  make_room k s =
      if contains_key M k s.map then some ([], s) else evict_loop (suc (M.len s.map)) s []

  unfoldable pub insert : K → List BlockLocation → ℕ → BlockIndex M → Option (List K × BlockIndex M)
  unfolding make_room
  insert k blocks created_at s = do
    (evicted, s') ← make_room k s
    let entry : IndexEntry = record { blocks = blocks; created_at = created_at }
    lru ← Eviction.touch k s'.lru
    some (evicted, record s' { map = M.insert k entry s'.map; lru = lru })

  unfoldable pub remove : K → BlockIndex M → Option (Option IndexEntry × BlockIndex M)
  remove k s = elim (M.get k s.map) [
    | none ↦ some (none, s)
    | some entry ↦ do
      lru ← Eviction.discard k s.lru
      some (some entry, record s { map = M.remove k s.map; lru = lru })
  ]

  unfoldable pub len : BlockIndex M → ℕ
  len s = M.len s.map

  unfoldable pub contains : K → BlockIndex M → Bool
  contains k s = contains_key M k s.map
