-- ===== src/Agent/RemoteIndex.antt =====
-- The blocks of other nodes, crates/cmx-agent/src/remote_index.rs, over the concurrent map of the
-- crate `dashmap`. Node names are byte strings, prefix hashes any keys.
pub mod Laws
use cmx_rdma.Base.{
  ℕ, Bool, Option, none, some, List, [], ◌∷◌, Eq, same, bytes_eq, if◌then◌else◌, Bytes,
}
use cmx_rdma.Base.DashMap.{DashMap}

pub record RemoteBlockInfo : Type 0 where
  pub node_id : Bytes
  pub node_addr : Bytes
  pub offset : ℕ
  pub size : ℕ
  pub generation : ℕ

-- The closure of `and_modify`: the first entry of the same node is replaced, or the new one appended.
unfoldable pub upsert : RemoteBlockInfo → List RemoteBlockInfo → List RemoteBlockInfo
upsert info [] = info ∷ []
upsert info (x ∷ xs) = if same x.node_id info.node_id then info ∷ xs else x ∷ upsert info xs

-- `entries.retain(|e| e.node_id != node_id)`
unfoldable pub without : Bytes → List RemoteBlockInfo → List RemoteBlockInfo
without node [] = []
without node (x ∷ xs) = if same x.node_id node then without node xs else x ∷ without node xs

-- The closure of `retain`: an entry that is left with no block is dropped.
unfoldable pub retained : Bytes → List RemoteBlockInfo → Option (List RemoteBlockInfo)
unfolding without
retained node entries = elim (without node entries) [ [] ↦ none | x ∷ xs ↦ some (x ∷ xs) ]

module _ {K : Type 0} ⦃e : Eq K⦄ (R : DashMap K (List RemoteBlockInfo)) where
  unfoldable pub lookup : K → R.Map → Option (List RemoteBlockInfo)
  lookup k m = R.get k m

  unfoldable pub insert : K → RemoteBlockInfo → R.Map → R.Map
  unfolding upsert
  insert k info m = elim (R.get k m) [
    | some entries ↦ R.insert k (upsert info entries) m
    | none ↦ R.insert k (info ∷ []) m
  ]

  unfoldable pub remove : K → R.Map → R.Map
  remove k m = R.remove k m

  unfoldable pub remove_node : Bytes → R.Map → R.Map
  unfolding retained
  remove_node node m = R.retain (retained node) m
