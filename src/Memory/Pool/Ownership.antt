-- ===== src/Memory/Pool/Ownership.antt =====
-- Who owns a block: at any time each block is either free or held by one caller.
use cmx_rdma.Base.{
  ℕ, zero, suc, ◌+◌, ◌*◌, ◌/◌, ◌%◌, ◌≤◌, ◌<◌, ◌≡◌, refl, true, false, Option, none, some, List, [],
  ◌∷◌, arith, has, erase, nat_eq, Distinct, erase-Distinct, has-erase_ne, has-erase_self,
  length-erase, length, nil-of-length, cons-of-length,
}
use cmx_rdma.Memory.Bytes.{Region}
use cmx_rdma.Memory.Pool.{
  u32, u64, ok, BlockHandle, MemoryPool, range_down, new, allocate, deallocate, stats, drop,
}

-- The handle that the pool issues for a block.
abbrev pub issued : MemoryPool → ℕ → BlockHandle
issued p i = record {
  pool_id = p.pool_id;
  block_index = i;
  offset = i * p.block_size;
  size = p.block_size;
}

-- Exactly the blocks `live` are held by callers; all others are on the free list, once.
pub record Owns (p : MemoryPool) (live : List ℕ) : Type 0 where
  pub positive : 0 < p.block_size
  pub geometry : p.total_blocks * p.block_size ≡ p.total_size
  pub addressable : p.total_size < u64
  pub numbered : p.total_blocks ≤ u32
  pub free_distinct : Distinct p.free_list
  pub live_distinct : Distinct live
  pub apart : (i : ℕ) → has i p.free_list ≡ true → has i live ≡ false
  pub free_valid : (i : ℕ) → has i p.free_list ≡ true → i < p.total_blocks
  pub live_valid : (i : ℕ) → has i live ≡ true → i < p.total_blocks
  pub counted : length p.free_list + length live ≡ p.total_blocks

range_down-below : (n i : ℕ) → has i (range_down n) ≡ true → i < n
unfolding range_down
range_down-below zero i h = absurd (ground arith)
range_down-below (suc n) i h = ground (arith, range_down-below n i)

range_down-Distinct : (n : ℕ) → Distinct (range_down n)
unfolding range_down
range_down-Distinct zero = tt
range_down-Distinct (suc n) = (ground (arith, range_down-below n n), range_down-Distinct n)

length-range_down : (n : ℕ) → length (range_down n) ≡ n
unfolding range_down
length-range_down zero = refl
length-range_down (suc n) = omega (arith, length-range_down n)

div-exact : (t b : ℕ) → 0 < b → t % b ≡ 0 → t / b * b ≡ t
div-exact t b h e = grind arith

div-le : (t b : ℕ) → 0 < b → t / b ≤ t
div-le t b h = grind arith

-- If the block size is positive, the total size below 2^64 a positive multiple of it with at most
-- 2^32 blocks, and the mapping succeeds, `new` returns a pool of which every block is free.
pub new-Owns :
    (id : ℕ) (region : Region) (t b : ℕ)
    → 0 < b
    → 0 < t
    → t % b ≡ 0
    → t < u64
    → t / b ≤ u32
    → (p : MemoryPool) × (new id (some region) t b ≡ ok (p, (id + 1) % u32))
      × Owns p []
      × (p.region ≡ region)
      × (p.block_size ≡ b)
      × (p.total_size ≡ t)
      × (p.total_blocks ≡ t / b)
unfolding new
new-Owns id region t b hb ht hm small few = (
  record {
    pool_id = id;
    region = region;
    total_size = t;
    block_size = b;
    total_blocks = t / b;
    free_list = range_down (t / b);
  },
  ground arith,
  record {
    positive = hb;
    geometry = div-exact t b hb hm;
    addressable = small;
    numbered = few;
    free_distinct = range_down-Distinct (t / b);
    live_distinct = tt;
    apart = λ i h. refl;
    free_valid = range_down-below (t / b);
    live_valid = λ i h. absurd (ground arith);
    counted = omega (arith, length-range_down (t / b));
  },
  refl,
  refl,
  refl,
  refl,
)

-- `new` succeeds only on such sizes and a mapping that succeeded, and numbers the next pool.
pub new_ok_only :
    (id : ℕ) (mapped : Option Region) (t b : ℕ) (p : MemoryPool) (next : ℕ)
    → new id mapped t b ≡ ok (p, next)
    → (0 < b)
      × (0 < t)
      × (t % b ≡ 0)
      × (mapped ≡ some p.region)
      × (p.pool_id ≡ id)
      × (next ≡ (id + 1) % u32)
unfolding new
new_ok_only id mapped t b p next h = ground arith

module _ (p : MemoryPool) (live : List ℕ) (o : Owns p live) where
  -- A held block lies within the mapping.
  pub issued_in_bounds :
      (i : ℕ) → has i live ≡ true → i * p.block_size + p.block_size ≤ p.total_size
  issued_in_bounds i h = grind (arith, o.live_valid i, o.geometry)

  -- On an exhausted pool `allocate` returns nothing and changes nothing.
  pub allocate_exhausted : length live ≡ p.total_blocks → allocate p ≡ (none, p)
  unfolding allocate
  allocate_exhausted h = ground (arith, nil-of-length p.free_list (omega (arith, o.counted)))

  -- From a pool that satisfies the invariant and has a block that is not held, `allocate` hands out the
  -- handle of a block that nobody holds, takes it off the free list and keeps the invariant.
  pub allocate-Owns :
      length live < p.total_blocks
      → (i : ℕ) × (rest : List ℕ) × (allocate p
          ≡ (some (issued p i), record p { free_list = rest }))
        × (p.free_list ≡ i ∷ rest)
        × (has i live ≡ false)
        × Owns (record p { free_list = rest }) (i ∷ live)
  unfolding allocate
  allocate-Owns h =
      let (i, rest, e) = cons-of-length p.free_list (omega (arith, o.counted)) in
      let valid : i < p.total_blocks = ground (arith, o.free_valid i) in
      let unheld : has i live ≡ false = ground (arith, o.apart i) in
      let distinct : Distinct (i ∷ rest) = rw e at o.free_distinct in
      let inside : i * p.block_size < u64 = grind (arith, o.geometry, o.addressable, o.positive) in
      let small : i < u32 = omega (arith, o.numbered) in
      (
        i,
        rest,
        ground arith,
        e,
        unheld,
        record {
          positive = o.positive;
          geometry = o.geometry;
          addressable = o.addressable;
          numbered = o.numbered;
          free_distinct = distinct.1;
          live_distinct = (unheld, o.live_distinct);
          apart = λ j m. ground (arith, o.apart j, distinct.0);
          free_valid = λ j m. ground (arith, o.free_valid j);
          live_valid = λ j m. ground (arith, o.live_valid j);
          counted = ground (arith, o.counted);
        },
      )

  -- From a pool that satisfies the invariant, `deallocate` of the handle of a held block does not panic,
  -- puts the block on the free list and keeps the invariant with the block no longer held.
  pub deallocate-Owns :
      (i : ℕ)
      → has i live ≡ true
      → (deallocate (issued p i) p ≡ some (record p { free_list = i ∷ p.free_list }))
        × Owns (record p { free_list = i ∷ p.free_list }) (erase i live)
  unfolding deallocate
  deallocate-Owns i h = (
    ground (arith, o.live_valid i),
    record {
      positive = o.positive;
      geometry = o.geometry;
      addressable = o.addressable;
      numbered = o.numbered;
      free_distinct = (ground (arith, o.apart i), o.free_distinct);
      live_distinct = erase-Distinct i live o.live_distinct;
      apart = λ j m.
          ground (arith, has-erase_self i live o.live_distinct, has-erase_ne j i live, o.apart j);
      free_valid = λ j m. ground (arith, o.free_valid j, o.live_valid i);
      live_valid = λ j m.
          ground
            (arith, has-erase_self i live o.live_distinct, has-erase_ne j i live, o.live_valid j);
      counted = omega (arith, length-erase i live h, o.counted);
    },
  )

  -- Ownership does not depend on the bytes.
  pub region-Owns : (m : Region) → Owns (record p { region = m }) live
  region-Owns m = record {
    positive = o.positive;
    geometry = o.geometry;
    addressable = o.addressable;
    numbered = o.numbered;
    free_distinct = o.free_distinct;
    live_distinct = o.live_distinct;
    apart = o.apart;
    free_valid = o.free_valid;
    live_valid = o.live_valid;
    counted = o.counted;
  }

  -- The statistics count the held blocks.
  pub stats-live :
      ((stats p).used_blocks ≡ length live)
      × ((stats p).free_blocks + length live ≡ p.total_blocks)
      × ((stats p).used_bytes ≤ (stats p).total_bytes)
  unfolding stats
  stats-live =
      (omega (arith, o.counted), omega (arith, o.counted), grind (arith, o.counted, o.geometry))

-- The mapping that a dropped pool gives back has every block that is held.
pub live-drop :
    (p : MemoryPool) (live : List ℕ) (i : ℕ)
    → Owns p live
    → has i live ≡ true
    → ((drop p).0 ≤ (issued p i).offset)
      × ((issued p i).offset + (issued p i).size ≤ (drop p).0 + (drop p).1)
unfolding drop
live-drop p live i o h =
    let inside : i + 1 ≤ p.total_blocks = omega (arith, o.live_valid i h) in
    (omega arith, grind (arith, o.geometry))
