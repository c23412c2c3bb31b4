-- ===== src/BlockStore/Block/Layout.antt =====
-- A header survives its way through the bytes of a block.
use cmx_rdma.Base.{
  if_true, ℕ, zero, suc, ◌*◌, ◌/◌, ◌<◌, ◌≡◌, refl, ap, ◌∙◌, some, [], ◌∷◌, ◌++◌, arith, le→leb,
  length, Bytes,
}
use cmx_rdma.Memory.Pool.{u32, u64}
use cmx_rdma.BlockStore.Block.{BlockHeader, header_size, le_bytes, from_le, write_to, read_from}

pub length-le_bytes : (w n : ℕ) → length (le_bytes w n) ≡ w
unfolding le_bytes
length-le_bytes zero n = refl
length-le_bytes (suc w) n = ap suc (length-le_bytes w (n / 256))

-- `256 ^ w`, by recursion
abbrev bound : ℕ → ℕ
bound zero = 1
bound (suc w) = 256 * bound w

from_le-le_bytes : (w n : ℕ) → n < bound w → from_le (le_bytes w n) ≡ n
unfolding le_bytes from_le
from_le-le_bytes zero n h = omega arith
from_le-le_bytes (suc w) n h = omega (arith, from_le-le_bytes w (n / 256) (omega arith))

-- The fields fit their types.
pub record IsHeader (h : BlockHeader) : Type 0 where
  pub crc32 : h.crc32 < u32
  pub generation : h.generation < u64
  pub data_size : h.data_size < u32
  pub reserved : h.reserved < u32

pub length-write_to :
    (padding : Bytes) (h : BlockHeader)
    → length padding ≡ 4
    → length (write_to padding h) ≡ header_size
unfolding write_to
length-write_to (a ∷ b ∷ c ∷ d ∷ []) h e = refl
length-write_to padding h e = absurd (omega arith)

-- What `write_to` wrote is read back by `read_from`, whatever the four bytes of padding and whatever
-- follows, if the fields of the header fit their types.
pub read_from-write_to :
    (padding : Bytes) (h : BlockHeader) (rest : Bytes)
    → length padding ≡ 4
    → IsHeader h
    → read_from (write_to padding h ++ rest) ≡ some h
unfolding write_to read_from
read_from-write_to (a ∷ b ∷ c ∷ d ∷ []) h rest e v =
    let field : (w n : ℕ) → n < bound w → from_le (le_bytes w n) ≡ n = from_le-le_bytes in
    let long =
      le→leb header_size (length (write_to (a ∷ b ∷ c ∷ d ∷ []) h ++ rest)) (omega arith) in
    if_true _ _ _ long ∙ λ i. some (record {
      crc32 = field 4 h.crc32 (omega arith) i;
      generation = field 8 h.generation (omega arith) i;
      data_size = field 4 h.data_size (omega arith) i;
      reserved = field 4 h.reserved (omega arith) i;
    })
read_from-write_to padding h rest e v = absurd (omega arith)
