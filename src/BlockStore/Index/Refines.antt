-- ===== src/BlockStore/Index/Refines.antt =====
-- The index implements a map of bounded size that forgets its least recently used keys.
use mathlib.Core.List.{reverse}
use cmx_rdma.Base.{
  ℕ, suc, ◌-◌, ◌≤◌, ◌≡◌, refl, inl, inr, true, false, none, some, List, [], ◌∷◌, arith, Eq, same,
  has, erase, erase-Distinct, erase_absent, has-erase_self, has-erase_ne, length-erase, Distinct,
  if◌then◌else◌, length, length-take, take, drop, Option-cases, Bool-cases, max,
}
use cmx_rdma.Base.DashMap.{DashMap}
use cmx_rdma.BlockStore.Block.{BlockLocation}
use cmx_rdma.BlockStore.Eviction
use cmx_rdma.BlockStore.Eviction.Refines.{new-Holds, touch-Holds, discard-Holds}
use cmx_rdma.BlockStore.Index.{IndexEntry, BlockIndex, new, lookup, make_room, insert, remove, len}
use cmx_rdma.BlockStore.Index.Evict.{IsIndex, evict_loop-Evicted}

abbrev pub index_entry : List BlockLocation → ℕ → IndexEntry
index_entry blocks created_at = record { blocks = blocks; created_at = created_at }

module _ {K : Type 0} ⦃e : Eq K⦄ (M : DashMap K IndexEntry) where
  -- A new index is empty.
  pub new-IsIndex : (capacity : ℕ) → IsIndex M (new M capacity) []
  unfolding new
  new-IsIndex capacity = record {
    holds = new-Holds;
    distinct = tt;
    known = λ k. rw (M.get-empty k);
    counted = M.len-empty;
  }

  module _ (s : BlockIndex M) (ks : List K) (i : IsIndex M s ks) (k : K) where
    distinct_front : Distinct (k ∷ erase k ks)
    distinct_front = (has-erase_self k ks i.distinct, erase-Distinct k ks i.distinct)

    -- A miss gives nothing and changes nothing.
    pub lookup_miss : M.get k s.map ≡ none → lookup M k s ≡ some (none, s)
    unfolding lookup
    lookup_miss absent = rw (absent, lookup)

    -- A hit gives the entry, leaves the map alone and makes the key the most recent one.
    pub lookup_hit :
        (entry : IndexEntry)
        → M.get k s.map ≡ some entry
        → (s' : BlockIndex M) × (lookup M k s ≡ some (some entry, s'))
          × IsIndex M s' (k ∷ erase k ks)
          × (s'.map ≡ s.map)
          × (s'.capacity ≡ s.capacity)
    unfolding lookup
    lookup_hit entry found =
        let (lru, ran, held) = touch-Holds s.lru k ks i.holds in
        let there : has k ks ≡ true = ground (arith, i.known k) in
        (
          record s { lru = lru },
          rw (found, lookup, ran),
          record {
            holds = held;
            distinct = distinct_front;
            known = λ j. ground (arith, i.known j, i.known k, has-erase_ne j k ks);
            counted = omega (arith, i.counted, length-erase k ks there);
          },
          refl,
          refl,
        )

    -- `remove` gives the entry, if there is one, and drops the key from the map and the policy.
    pub remove_hit :
        (entry : IndexEntry)
        → M.get k s.map ≡ some entry
        → (s' : BlockIndex M) × (remove M k s ≡ some (some entry, s'))
          × IsIndex M s' (erase k ks)
          × (s'.map ≡ M.remove k s.map)
    unfolding remove
    remove_hit entry found =
        let (lru, ran, held) = discard-Holds s.lru k ks i.holds in
        let there : has k ks ≡ true = ground (arith, i.known k) in
        (
          record s { map = M.remove k s.map; lru = lru },
          rw (found, remove, ran),
          record {
            holds = held;
            distinct = erase-Distinct k ks i.distinct;
            known = λ j. ground (
              arith,
              i.known j,
              M.get-remove k j s.map,
              has-erase_self k ks i.distinct,
              has-erase_ne j k ks,
            );
            counted = ground (arith, i.counted, M.len-remove k s.map, length-erase k ks there);
          },
          refl,
        )

    pub remove_miss : M.get k s.map ≡ none → remove M k s ≡ some (none, s)
    unfolding remove
    remove_miss absent = rw (absent, remove)

  -- The end of `insert`, once there is room.
  record_entry :
      (s : BlockIndex M) (ks : List K) (i : IsIndex M s ks) (k : K) (entry : IndexEntry)
      → (lru : Eviction.LruInner K) × (Eviction.touch k s.lru ≡ some lru)
        × IsIndex M (record s { map = M.insert k entry s.map; lru = lru }) (k ∷ erase k ks)
  record_entry s ks i k entry =
      let (lru, ran, held) = touch-Holds s.lru k ks i.holds in
      (
        lru,
        ran,
        record {
          holds = held;
          distinct = distinct_front s ks i k;
          known = λ j. ground (arith, i.known j, M.get-insert k j entry s.map, has-erase_ne j k ks);
          counted = ground (
            arith,
            i.counted,
            i.known k,
            M.len-insert k entry s.map,
            length-erase k ks,
            erase_absent k ks,
          );
        },
      )

  -- What `make_room` drops: nothing for a key that is known, else all but the `capacity - 1` most
  -- recently used keys.
  unfoldable pub kept : BlockIndex M → K → List K → List K
  kept s k ks = if has k ks then ks else take (s.capacity - 1) ks

  unfoldable pub dropped : BlockIndex M → K → List K → List K
  dropped s k ks = if has k ks then [] else drop (s.capacity - 1) ks

  make_room-ok :
      (s : BlockIndex M) (ks : List K) (i : IsIndex M s ks) (k : K)
      → (s' : BlockIndex M) × (make_room M k s ≡ some (reverse (dropped s k ks), s'))
        × IsIndex M s' (kept s k ks)
        × (s'.capacity ≡ s.capacity)
        × ((j : K) → M.get j s'.map ≡ (if has j (dropped s k ks) then none else M.get j s.map))
  unfolding kept dropped make_room
  make_room-ok s ks i k = elim (Option-cases (M.get k s.map)) [
    | inl absent ↦
        let out : has k ks ≡ false = ground (arith, i.known k) in
        let (s', ran, ev) =
          evict_loop-Evicted M (suc (M.len s.map)) s ks [] i (omega (arith, i.counted)) in
        (
          s',
          rw (absent, make_room, out, dropped) ran,
          rw (out, kept) ev.index,
          ev.capacity,
          λ j. rw (out, dropped) (ev.gone j),
        )
    | inr (entry, found) ↦
        let there : has k ks ≡ true = ground (arith, i.known k) in
        (
          s,
          rw (found, make_room, there, dropped),
          rw (there, kept) i,
          refl,
          λ j. rw (there, dropped),
        )
  ]

  -- What `insert` leaves behind.
  pub record Inserted (s s' : BlockIndex M) (ks : List K) (k : K) (entry : IndexEntry)
      : Type 0 where
    pub index : IsIndex M s' (k ∷ erase k (kept s k ks))
    pub capacity : s'.capacity ≡ s.capacity
    pub get :
        (j : K)
        → M.get j s'.map ≡ (
            if same k j then some entry else if has j (dropped s k ks) then none else M.get j s.map)

  -- From an index that holds the keys `ks`, `insert` does not panic and its loop ends. The entry is stored and the key becomes the most
  -- recent one. For a key that is known nothing is evicted; for a new key all keys but the
  -- `capacity - 1` most recently used ones are, and they are returned, least recently used first.
  -- Every other entry stays.
  pub insert-Inserted :
      (s : BlockIndex M) (ks : List K) (k : K) (blocks : List BlockLocation) (created_at : ℕ)
      → IsIndex M s ks
      → (s' : BlockIndex M) × (insert M k blocks created_at s ≡ some (reverse (dropped s k ks), s'))
        × Inserted s s' ks k (index_entry blocks created_at)
  unfolding insert
  insert-Inserted s ks k blocks created_at i =
      let entry = index_entry blocks created_at in
      let (s₁, ran₁, i₁, c₁, g₁) = make_room-ok s ks i k in
      let (lru, ran₂, i₂) = record_entry s₁ (kept s k ks) i₁ k entry in
      (
        record s₁ { map = M.insert k entry s₁.map; lru = lru },
        rw (ran₁, insert, ran₂),
        record {
          index = i₂;
          capacity = c₁;
          get = λ j. ground (arith, M.get-insert k j entry s₁.map, g₁ j);
        },
      )

  length-erase-le : (k : K) (ks : List K) → length (erase k ks) ≤ length ks
  length-erase-le k [] = omega arith
  length-erase-le k (x ∷ ks) = ground (arith, length-erase-le k ks)

  length-kept :
      (s : BlockIndex M) (k : K) (ks : List K)
      → Distinct ks
      → length ks ≤ max s.capacity 1
      → length (k ∷ erase k (kept s k ks)) ≤ max s.capacity 1
  unfolding kept
  length-kept s k ks d h = elim (Bool-cases (has k ks)) [
    | inl there ↦ rw (there, kept) (omega (arith, length-erase k ks there))
    | inr out ↦
        rw (out, kept)
          (omega
            (arith, length-erase-le k (take (s.capacity - 1) ks), length-take (s.capacity - 1) ks))
  ]

  -- An index never holds more entries than its capacity, or one if the capacity is 0.
  pub len-insert-le :
      (s s' : BlockIndex M) (ks : List K) (k : K) (entry : IndexEntry)
      → IsIndex M s ks
      → len M s ≤ max s.capacity 1
      → Inserted s s' ks k entry
      → len M s' ≤ max s'.capacity 1
  unfolding len
  len-insert-le s s' ks k entry i h ins =
      omega (arith, ins.index.counted, i.counted, length-kept s k ks i.distinct, ins.capacity)
