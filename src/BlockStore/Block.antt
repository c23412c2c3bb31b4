-- ===== src/BlockStore/Block.antt =====
-- Headers and locations of blocks, crates/cmx-block-store/src/block.rs. The checksum is that of the
-- crate `crc32fast`, a parameter. The header is laid out by `repr(C)` on a little-endian machine:
-- between `crc32` and `generation` stand four bytes of padding, which the program never sets.
pub mod Layout
use cmx_rdma.Base.{
  ℕ, zero, suc, ◌+◌, ◌*◌, ◌/◌, ◌%◌, Bool, Option, none, some, [], ◌∷◌, ◌++◌, ◌==◌, leb,
  if◌then◌else◌, length, take, drop, Bytes,
}
use cmx_rdma.Memory.Pool.{u32}

-- `reserved` is `_reserved`.
pub record BlockHeader : Type 0 where
  pub crc32 : ℕ
  pub generation : ℕ
  pub data_size : ℕ
  pub reserved : ℕ

pub record BlockLocation : Type 0 where
  pub node_id : ℕ
  pub block_index : ℕ
  pub offset : ℕ
  pub block_size : ℕ
  pub generation : ℕ

-- `BlockHeader::SIZE`
abbrev pub header_size : ℕ
header_size = 24

-- A machine word as bytes, the lowest first.
unfoldable pub le_bytes : ℕ → ℕ → Bytes
le_bytes zero n = []
le_bytes (suc w) n = n % 256 ∷ le_bytes w (n / 256)

unfoldable pub from_le : Bytes → ℕ
from_le [] = 0
from_le (b ∷ bs) = b + 256 * from_le bs

-- `BlockHeader::new`; the length is cast to `u32`.
unfoldable pub header_new : (crc : Bytes → ℕ) → Bytes → ℕ → BlockHeader
header_new crc payload generation = record {
  crc32 = crc payload;
  generation = generation;
  data_size = length payload % u32;
  reserved = 0;
}

unfoldable pub verify : (crc : Bytes → ℕ) → BlockHeader → Bytes → Bool
verify crc h payload = crc payload == h.crc32

-- The bytes that `write_to` copies, around the padding that it finds.
unfoldable pub write_to : (padding : Bytes) → BlockHeader → Bytes
unfolding le_bytes
write_to padding h =
    le_bytes 4 h.crc32
    ++ (padding ++ (le_bytes 8 h.generation ++ (le_bytes 4 h.data_size ++ le_bytes 4 h.reserved)))

unfoldable pub read_from : Bytes → Option BlockHeader
unfolding from_le
read_from src =
    if leb header_size (length src)
    then some (record {
      crc32 = from_le (take 4 src);
      generation = from_le (take 8 (drop 8 src));
      data_size = from_le (take 4 (drop 16 src));
      reserved = from_le (take 4 (drop 20 src));
    })
    else none
