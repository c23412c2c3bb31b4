-- ===== src/Base/Trim.antt =====
-- `str::trim` and `str::parse::<i32>` of the standard library, on the bytes of a text.
use mathlib.Core.List.{reverse}
use cmx_rdma.Base.{
  ℕ, zero, suc, ◌+◌, ◌-◌, ◌*◌, ◌^◌, ◌&&◌, Option, none, some, List, [], ◌∷◌, ◌==◌, leb,
  if◌then◌else◌, length, map, Bytes,
}
use cmx_rdma.Base.Affix.{strip_prefix}

-- The UTF-8 bytes of the characters that are white space.
abbrev pub white_space : List Bytes
white_space =
    (0x09 ∷ [])
    ∷ (0x0a ∷ [])
    ∷ (0x0b ∷ [])
    ∷ (0x0c ∷ [])
    ∷ (0x0d ∷ [])
    ∷ (0x20 ∷ [])
    ∷ (0xc2 ∷ 0x85 ∷ [])
    ∷ (0xc2 ∷ 0xa0 ∷ [])
    ∷ (0xe1 ∷ 0x9a ∷ 0x80 ∷ [])
    ∷ (0xe2 ∷ 0x80 ∷ 0x80 ∷ [])
    ∷ (0xe2 ∷ 0x80 ∷ 0x81 ∷ [])
    ∷ (0xe2 ∷ 0x80 ∷ 0x82 ∷ [])
    ∷ (0xe2 ∷ 0x80 ∷ 0x83 ∷ [])
    ∷ (0xe2 ∷ 0x80 ∷ 0x84 ∷ [])
    ∷ (0xe2 ∷ 0x80 ∷ 0x85 ∷ [])
    ∷ (0xe2 ∷ 0x80 ∷ 0x86 ∷ [])
    ∷ (0xe2 ∷ 0x80 ∷ 0x87 ∷ [])
    ∷ (0xe2 ∷ 0x80 ∷ 0x88 ∷ [])
    ∷ (0xe2 ∷ 0x80 ∷ 0x89 ∷ [])
    ∷ (0xe2 ∷ 0x80 ∷ 0x8a ∷ [])
    ∷ (0xe2 ∷ 0x80 ∷ 0xa8 ∷ [])
    ∷ (0xe2 ∷ 0x80 ∷ 0xa9 ∷ [])
    ∷ (0xe2 ∷ 0x80 ∷ 0xaf ∷ [])
    ∷ (0xe2 ∷ 0x81 ∷ 0x9f ∷ [])
    ∷ (0xe3 ∷ 0x80 ∷ 0x80 ∷ [])
    ∷ []

-- What follows the first of some prefixes that stands there.
unfoldable pub strip_any : List Bytes → Bytes → Option Bytes
unfolding strip_prefix
strip_any [] bs = none
strip_any (p ∷ ps) bs =
    let others = strip_any ps bs in
    elim (strip_prefix p bs) [ none ↦ others | some rest ↦ some rest ]

-- On fuel: each prefix has at least one byte.
unfoldable pub trim_front : ℕ → List Bytes → Bytes → Bytes
unfolding strip_any
trim_front zero ps bs = bs
trim_front (suc fuel) ps bs = elim (strip_any ps bs) [
  | none ↦ bs
  | some rest ↦ trim_front fuel ps rest
]

-- The end is the beginning of the reversed text.
unfoldable pub trim : Bytes → Bytes
unfolding trim_front
trim bs =
    let front = trim_front (length bs) white_space bs in
    reverse (trim_front (length front) (map reverse white_space) (reverse front))

-- The integers over the native numbers.
pub data ℤ : Type 0 where
  pos : ℕ → ℤ
  negsuc : ℕ → ℤ

unfoldable pub parse_digits : ℕ → Bytes → Option ℕ
parse_digits acc [] = some acc
parse_digits acc (b ∷ bs) =
    let rest = parse_digits (acc * 10 + (b - b'0')) bs in
    if leb b'0' b && leb b b'9' then rest else none

-- At least one digit, and a value of at most `bound`.
unfoldable pub magnitude : (bound : ℕ) → Bytes → Option ℕ
unfolding parse_digits
magnitude bound [] = none
magnitude bound (b ∷ bs) = elim (parse_digits 0 (b ∷ bs)) [
  | none ↦ none
  | some n ↦ if leb n bound then some n else none
]

abbrev pub negate : ℕ → ℤ
negate zero = pos zero
negate (suc n) = negsuc n

-- `str::parse::<i32>`: an optional sign and digits.
unfoldable pub parse_i32 : Bytes → Option ℤ
unfolding magnitude
parse_i32 [] = none
parse_i32 (b ∷ bs) =
    if b == b'-'
    then elim (magnitude (2 ^ 31) bs) [ none ↦ none | some n ↦ some (negate n) ]
    else if b == b'+'
    then elim (magnitude (2 ^ 31 - 1) bs) [ none ↦ none | some n ↦ some (pos n) ]
    else elim (magnitude (2 ^ 31 - 1) (b ∷ bs)) [ none ↦ none | some n ↦ some (pos n) ]
