-- ===== src/Tests/Data.antt =====
-- The data of the runs: parameters that meet the interfaces, a pool of two blocks, an agent on it.
use cmx_rdma.Base.{
  ℕ_discrete, ℕ, zero, suc, ◌+◌, ◌*◌, ◌/◌, ◌%◌, ◌<◌, ◌≡◌, refl, true, List, [], ◌∷◌, arith, leb,
  has, nat_eq, bytes_eq, Bytes,
}
use cmx_rdma.Base.DashMap.{assoc_map}
use cmx_rdma.Base.Outcome.{Outcome, done, panic}
use cmx_rdma.Memory.Bytes.{Region}
use cmx_rdma.Memory.Pool.{u32, MemoryPool}
use cmx_rdma.Memory.Pool.Ownership.{Owns}
use cmx_rdma.BlockStore.Allocator.{BlockAllocator}
use cmx_rdma.BlockStore.Allocator.Integrity.{IsAllocator}
use cmx_rdma.BlockStore.Index.{IndexEntry}
use cmx_rdma.Agent.Crates.{Crates}
use cmx_rdma.Agent.Floats.{Floats}
use cmx_rdma.Agent.RemoteIndex.{RemoteBlockInfo}
use cmx_rdma.Tests.HexDigits.{to_hex}

-- A sum in place of a checksum.
abbrev pub byte_sum : Bytes → ℕ
byte_sum [] = 0
byte_sum (b ∷ bs) = b + byte_sum bs

abbrev pub sum_crc : Bytes → ℕ
sum_crc bs = byte_sum bs % u32

abbrev pub repeat : ℕ → ℕ → Bytes
repeat zero b = []
repeat (suc n) b = b ∷ repeat n b

abbrev pub toy_sha256 : Bytes → Bytes
toy_sha256 bs = repeat 32 (byte_sum bs % 256)

abbrev pub same_bytes : Bytes → Bytes
same_bytes bs = bs

abbrev pub four_zeros : Bytes
four_zeros = 0 ∷ 0 ∷ 0 ∷ 0 ∷ []

abbrev pub crates : Crates
crates = record {
  crc = sum_crc;
  sha256 = toy_sha256;
  hex_encode = to_hex;
  padding = four_zeros;
  entries = assoc_map Bytes IndexEntry;
  remotes = assoc_map Bytes (List RemoteBlockInfo);
  crc_u32 = λ bs. small (byte_sum bs);
  sha256_size = λ bs. refl;
  padding_size = refl;
}
  where
    small : (n : ℕ) → n % u32 < u32
    small n = omega arith

pub leb_trans : (a b c : ℕ) → leb b a ≡ true → leb c b ≡ true → leb c a ≡ true
leb_trans a b c h g = ground arith

-- Fractions rounded down to hundredths.
abbrev pub hundredths : Floats
hundredths = record {
  Float = ℕ;
  ge = λ a b. leb b a;
  hundredths = λ n. n;
  ratio = λ a b. a * 100 / b;
  ge_trans = λ a b c h g. leb_trans a b c h g;
  ge-hundredths = λ a b h g. refl;
}

abbrev pub zeros : Region
zeros = λ a. 0

-- Two blocks of 32 bytes, both free.
abbrev pub free_pool : MemoryPool
free_pool = record {
  pool_id = 0;
  region = zeros;
  total_size = 64;
  block_size = 32;
  total_blocks = 2;
  free_list = 1 ∷ 0 ∷ [];
}

-- The block 1 is held.
abbrev pub half_pool : MemoryPool
half_pool = record free_pool { free_list = 0 ∷ [] }

pub free_pool-Owns : Owns free_pool []
free_pool-Owns = record {
  positive = omega arith;
  geometry = refl;
  addressable = omega arith;
  numbered = omega arith;
  free_distinct = ground arith;
  live_distinct = tt;
  apart = λ i h. refl;
  free_valid = λ i h. ground arith;
  live_valid = λ i h. absurd (ground arith);
  counted = refl;
}

pub half_pool-Owns : Owns half_pool (1 ∷ [])
half_pool-Owns = record {
  positive = omega arith;
  geometry = refl;
  addressable = omega arith;
  numbered = omega arith;
  free_distinct = ground arith;
  live_distinct = ground arith;
  apart = λ i h. ground arith;
  free_valid = λ i h. ground arith;
  live_valid = λ i h. ground arith;
  counted = refl;
}

abbrev pub free_allocator : BlockAllocator
free_allocator = record { pool = free_pool; node_id = 0; generation = 1 }

abbrev pub half_allocator : BlockAllocator
half_allocator = record { pool = half_pool; node_id = 0; generation = 2 }

pub free_allocator-IsAllocator : IsAllocator free_allocator []
free_allocator-IsAllocator = record {
  owns = free_pool-Owns;
  room = omega arith;
  counter = omega arith;
}

pub half_allocator-IsAllocator : IsAllocator half_allocator (1 ∷ [])
half_allocator-IsAllocator = record {
  owns = half_pool-Owns;
  room = omega arith;
  counter = omega arith;
}

abbrev pub state_of : {S A : Type 0} → Outcome S A → S
state_of (done a s) = s
state_of (panic s) = s

pub block_1_held : has {A = ℕ} 1 (1 ∷ []) ≡ true
unfolding ℕ_discrete
block_1_held = refl
