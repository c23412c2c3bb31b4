-- ===== src/Tests/IndexRuns.antt =====
-- Runs of the eviction policy and of the index, with numbers for keys.
use cmx_rdma.Base.{
  ℕ, ◌≡◌, refl, none, some, List, [], ◌∷◌, arith, erase, nat_eq, ℕ_discrete, Distinct,
}
use cmx_rdma.Base.DashMap.{DashMap, assoc_map}
use cmx_rdma.BlockStore.Eviction
use cmx_rdma.BlockStore.Eviction.{LruInner, entry, new, touch, discard, evict_lru}
use cmx_rdma.BlockStore.Eviction.Tracking.{Holds}
use cmx_rdma.BlockStore.Eviction.Refines.{evict_lru-last, new-Holds, touch-Holds}
use cmx_rdma.BlockStore.Index.{IndexEntry, BlockIndex, lookup, insert}
use cmx_rdma.BlockStore.Index.Evict.{IsIndex}
use cmx_rdma.BlockStore.Index.Refines.{Inserted, lookup_hit, insert-Inserted, index_entry, dropped}

-- A policy that holds the key 5, and one that holds 6 and 5, the key 6 used last.
abbrev one_key : LruInner ℕ
one_key = record {
  entries = entry 5 none none ∷ [];
  free_indices = [];
  index = (5, 0) ∷ [];
  head = some 0;
  tail = some 0;
}

abbrev two_keys : LruInner ℕ
two_keys = record {
  entries = entry 5 (some 1) none ∷ entry 6 none (some 0) ∷ [];
  free_indices = [];
  index = (5, 0) ∷ (6, 1) ∷ [];
  head = some 1;
  tail = some 0;
}

touch_5 : touch 5 new ≡ some one_key
unfolding touch new Eviction.alloc_entry Eviction.push_front Eviction.set_prev Eviction.set_next
    ℕ_discrete
touch_5 = refl

touch_6 : touch 6 one_key ≡ some two_keys
unfolding touch new Eviction.alloc_entry Eviction.push_front Eviction.set_prev Eviction.set_next
    ℕ_discrete
touch_6 = refl

held_of :
    (s s' s'' : LruInner ℕ) (k : ℕ) (ks : List ℕ)
    → touch k s ≡ some s'
    → touch k s ≡ some s''
    → Holds s'' ks
    → Holds s' ks
held_of s s' s'' k ks ran ran' h =
    let same_state : s' ≡ s'' = ground (arith, ran, ran') in rw same_state h

one_key-Holds : Holds one_key (5 ∷ [])
one_key-Holds =
    let (s', ran, h) = touch-Holds new 5 [] new-Holds in
    held_of new one_key s' 5 (5 ∷ []) touch_5 ran h

two_keys-Holds : Holds two_keys (6 ∷ 5 ∷ [])
unfolding ℕ_discrete
two_keys-Holds =
    let (s', ran, h) = touch-Holds one_key 6 (5 ∷ []) one_key-Holds in
    held_of one_key two_keys s' 6 (6 ∷ 5 ∷ []) touch_6 ran h

touch-Holds_example :
    (s' : LruInner ℕ) × (touch 5 two_keys ≡ some s') × Holds s' (5 ∷ erase 5 (6 ∷ 5 ∷ []))
touch-Holds_example = touch-Holds two_keys 5 (6 ∷ 5 ∷ []) two_keys-Holds

abbrev entries : DashMap ℕ IndexEntry
entries = assoc_map ℕ IndexEntry

abbrev empty_entry : IndexEntry
empty_entry = index_entry [] 0

two_distinct : Distinct {A = ℕ} (6 ∷ 5 ∷ [])
unfolding ℕ_discrete
two_distinct = ((refl), (refl, tt))

-- An index of capacity 2 that is full.
abbrev full_index : BlockIndex entries
full_index = record {
  map = ((6, empty_entry) ∷ (5, empty_entry) ∷ [], two_distinct);
  lru = two_keys;
  capacity = 2;
}

full_index-IsIndex : IsIndex entries full_index (6 ∷ 5 ∷ [])
full_index-IsIndex = record {
  holds = two_keys-Holds;
  distinct = two_distinct;
  known = λ k. ground arith;
  counted = refl;
}

found_5 : entries.get 5 full_index.map ≡ some empty_entry
unfolding ℕ_discrete
found_5 = refl

lookup_hit_example :
    (s' : BlockIndex entries) × (lookup entries 5 full_index ≡ some (some empty_entry, s'))
    × IsIndex entries s' (5 ∷ erase 5 (6 ∷ 5 ∷ []))
    × (s'.map ≡ full_index.map)
    × (s'.capacity ≡ 2)
lookup_hit_example =
    lookup_hit entries full_index (6 ∷ 5 ∷ []) full_index-IsIndex 5 empty_entry found_5

insert-Inserted_example :
    (s' : BlockIndex entries) × (insert entries 7 [] 1 full_index ≡ some (5 ∷ [], s'))
    × Inserted entries full_index s' (6 ∷ 5 ∷ []) 7 (index_entry [] 1)
unfolding dropped ℕ_discrete
insert-Inserted_example = insert-Inserted entries full_index (6 ∷ 5 ∷ []) 7 [] 1 full_index-IsIndex

evict_lru-last_example :
    (s' : LruInner ℕ) × (evict_lru two_keys ≡ some (some 5, s')) × Holds s' (6 ∷ [])
evict_lru-last_example = evict_lru-last two_keys (6 ∷ []) 5 two_keys-Holds
