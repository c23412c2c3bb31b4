-- ===== src/BlockStore/Eviction.antt =====
-- The eviction policy, crates/cmx-block-store/src/eviction.rs: a doubly linked list in a slab, with
-- a stack of free slots and a map from key to slot. A method runs under the mutex, so it is one
-- step. `none` is a panic of a slice index; the stack `free_indices` has its top first.
pub mod Alloc
pub mod Chain
pub mod Links
pub mod Nodes
pub mod Tracking
pub mod Refines
use cmx_rdma.Base.{ℕ, Option, none, some, List, [], ◌∷◌, ◌++◌, Eq, ◌>>=◌, length, get_elem?, set}
use cmx_rdma.Base.Assoc.{lookup, insert, remove}

pub record LruEntry {ℓ} (K : Type ℓ) : Type ℓ where
  pub prefix_hash : K
  pub prev : Option ℕ
  pub next : Option ℕ

abbrev pub entry {ℓ} : {K : Type ℓ} → K → Option ℕ → Option ℕ → LruEntry K
entry k p n = record { prefix_hash = k; prev = p; next = n }

pub record LruInner {ℓ} (K : Type ℓ) : Type ℓ where
  pub entries : List (LruEntry K)
  pub free_indices : List ℕ
  pub index : List (K × ℕ)
  pub head : Option ℕ
  pub tail : Option ℕ

-- `LruPolicy::new`
unfoldable pub new {ℓ} : {K : Type ℓ} → LruInner K
new = record { entries = []; free_indices = []; index = []; head = none; tail = none }

module _ {ℓ} {K : Type ℓ} where
  -- `self.entries[i].prev = v` and `self.entries[i].next = v`
  unfoldable pub set_prev : ℕ → Option ℕ → List (LruEntry K) → Option (List (LruEntry K))
  set_prev i v es = do e ← get_elem? es i; some (set es i (record e { prev = v }))

  unfoldable pub set_next : ℕ → Option ℕ → List (LruEntry K) → Option (List (LruEntry K))
  set_next i v es = do e ← get_elem? es i; some (set es i (record e { next = v }))

  unfoldable pub alloc_entry : K → LruInner K → Option (ℕ × LruInner K)
  alloc_entry k s = elim s.free_indices [
    | idx ∷ rest ↦ do
      _ ← get_elem? s.entries idx
      some (idx, record s { entries = set s.entries idx (entry k none none); free_indices = rest })
    | [] ↦ some (length s.entries, record s { entries = s.entries ++ entry k none none ∷ [] })
  ]

  -- The two `if let` statements of `unlink`.
  unfoldable pub bypass_next : Option ℕ → Option ℕ → LruInner K → Option (LruInner K)
  bypass_next (some p) next s = do es ← set_next p next s.entries; some (record s { entries = es })
  bypass_next none next s = some (record s { head = next })

  unfoldable pub bypass_prev : Option ℕ → Option ℕ → LruInner K → Option (LruInner K)
  bypass_prev (some n) prev s = do es ← set_prev n prev s.entries; some (record s { entries = es })
  bypass_prev none prev s = some (record s { tail = prev })

  unfoldable pub unlink : ℕ → LruInner K → Option (LruInner K)
  unlink idx s = do
    e ← get_elem? s.entries idx
    s₁ ← bypass_next e.prev e.next s
    s₂ ← bypass_prev e.next e.prev s₁
    es₁ ← set_prev idx none s₂.entries
    es₂ ← set_next idx none es₁
    some (record s₂ { entries = es₂ })

  unfoldable pub push_front : ℕ → LruInner K → Option (LruInner K)
  push_front idx s = do
    es₁ ← set_prev idx none s.entries
    es₂ ← set_next idx s.head es₁
    es₃ ← elim s.head [ some old_head ↦ set_prev old_head (some idx) es₂ | none ↦ some es₂ ]
    let new_tail : Option ℕ = elim s.tail [ none ↦ some idx | some t ↦ some t ]
    some (record s { entries = es₃; head = some idx; tail = new_tail })

module _ {ℓ} {K : Type ℓ} ⦃e : Eq K⦄ where
  unfoldable pub touch : K → LruInner K → Option (LruInner K)
  touch k s = elim (lookup k s.index) [
    | some idx ↦ do s₁ ← unlink idx s; push_front idx s₁
    | none ↦ do
      (idx, s₁) ← alloc_entry k s
      s₂ ← push_front idx s₁
      some (record s₂ { index = insert k idx s₂.index })
  ]

  -- `LruPolicy::remove`
  unfoldable pub discard : K → LruInner K → Option (LruInner K)
  discard k s = elim (lookup k s.index) [
    | some idx ↦ do
      s₁ ← unlink idx (record s { index = remove k s.index })
      some (record s₁ { free_indices = idx ∷ s₁.free_indices })
    | none ↦ some s
  ]

  unfoldable pub evict_lru : LruInner K → Option (Option K × LruInner K)
  evict_lru s = elim s.tail [
    | none ↦ some (none, s)
    | some tail_idx ↦ do
      last ← get_elem? s.entries tail_idx
      s₁ ← unlink tail_idx (record s { index = remove last.prefix_hash s.index })
      some (some last.prefix_hash, record s₁ { free_indices = tail_idx ∷ s₁.free_indices })
  ]

  unfoldable pub len : LruInner K → ℕ
  len s = length s.index
