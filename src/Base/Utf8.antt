-- ===== src/Base/Utf8.antt =====
-- `String::from_utf8_lossy` of the standard library: the longest piece that is no part of a character is
-- replaced by U+FFFD.
use cmx_rdma.Base.{
  ◌==◌, ℕ, zero, suc, ◌<◌, ◌≡◌, refl, ap, Bool, ◌&&◌, [], ◌∷◌, ◌++◌, leb, ltb, lt→ltb,
  if◌then◌else◌, All, Bytes,
}

-- The bytes read of a character that is not complete, how many are missing, and the range of the next.
pub data Decoder : Type 0 where
  idle : Decoder
  inside : (read : Bytes) (more low high : ℕ) → Decoder

-- U+FFFD
abbrev pub replacement : Bytes
replacement = 0xef ∷ 0xbf ∷ 0xbd ∷ []

abbrev between : ℕ → ℕ → ℕ → Bool
between low b high = leb low b && leb b high

-- The first byte of a character: what is put out, and the decoder after it.
unfoldable pub lead : ℕ → Bytes × Decoder
lead b =
    if ltb b 0x80
    then (b ∷ [], idle)
    else if between 0xc2 b 0xdf
    then ([], inside (b ∷ []) 0 0x80 0xbf)
    else if b == 0xe0
    then ([], inside (b ∷ []) 1 0xa0 0xbf)
    else if b == 0xed
    then ([], inside (b ∷ []) 1 0x80 0x9f)
    else if between 0xe1 b 0xef
    then ([], inside (b ∷ []) 1 0x80 0xbf)
    else if b == 0xf0
    then ([], inside (b ∷ []) 2 0x90 0xbf)
    else if between 0xf1 b 0xf3
    then ([], inside (b ∷ []) 2 0x80 0xbf)
    else if b == 0xf4
    then ([], inside (b ∷ []) 2 0x80 0x8f)
    else (replacement, idle)

-- One more byte of a character that is not complete.
unfoldable pub advance : Bytes → (more low high b : ℕ) → Bytes × Decoder
unfolding lead
advance read more low high b =
    if between low b high
    then elim more [
      | zero ↦ (read ++ b ∷ [], idle)
      | suc left ↦ ([], inside (read ++ b ∷ []) left 0x80 0xbf)
    ]
    else (replacement ++ (lead b).0, (lead b).1)

unfoldable pub feed : Decoder → ℕ → Bytes × Decoder
unfolding lead advance
feed idle b = lead b
feed (inside read more low high) b = advance read more low high b

unfoldable pub lossy_from : Decoder → Bytes → Bytes
unfolding feed
lossy_from idle [] = []
lossy_from (inside read more low high) [] = replacement
lossy_from d (b ∷ bs) = (feed d b).0 ++ lossy_from (feed d b).1 bs

unfoldable pub from_utf8_lossy : Bytes → Bytes
unfolding lossy_from
from_utf8_lossy bs = lossy_from idle bs

-- Nothing changes in an ASCII text.
pub from_utf8_lossy-ascii : (bs : Bytes) → All (λ b. b < 0x80) bs → from_utf8_lossy bs ≡ bs
unfolding from_utf8_lossy lossy_from feed lead
from_utf8_lossy-ascii [] h = refl
from_utf8_lossy-ascii (b ∷ bs) (h, hs) =
    rw (lt→ltb b 0x80 h, lead) (ap (◌∷◌ b) (from_utf8_lossy-ascii bs hs))
