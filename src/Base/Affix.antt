-- ===== src/Base/Affix.antt =====
-- `str::trim_start_matches` of the standard library with a text for its pattern.
use cmx_rdma.Base.{
  ℕ, zero, suc, ◌≡◌, refl, ◌∙◌, Option, none, some, [], ◌∷◌, ◌++◌, arith, ◌==◌, if◌then◌else◌,
  length, Bytes,
}

-- What follows a prefix.
unfoldable pub strip_prefix : Bytes → Bytes → Option Bytes
strip_prefix [] bs = some bs
strip_prefix (p ∷ ps) [] = none
strip_prefix (p ∷ ps) (b ∷ bs) = if p == b then strip_prefix ps bs else none

-- The prefix is stripped as often as it stands there, on fuel.
unfoldable pub trim_on : ℕ → Bytes → Bytes → Bytes
unfolding strip_prefix
trim_on zero p bs = bs
trim_on (suc fuel) p bs = elim (strip_prefix p bs) [ none ↦ bs | some rest ↦ trim_on fuel p rest ]

-- A pattern that is not empty can be stripped no more often than the text has bytes.
unfoldable pub trim_start_matches : Bytes → Bytes → Bytes
unfolding trim_on
trim_start_matches p bs = trim_on (length bs) p bs

pub strip_prefix-append : (p bs : Bytes) → strip_prefix p (p ++ bs) ≡ some bs
unfolding strip_prefix
strip_prefix-append [] bs = refl
strip_prefix-append (b ∷ p) bs = ground (arith, strip_prefix-append p bs)

trim_on-stop : (fuel : ℕ) (p bs : Bytes) → strip_prefix p bs ≡ none → trim_on fuel p bs ≡ bs
unfolding trim_on
trim_on-stop zero p bs e = refl
trim_on-stop (suc fuel) p bs e = rw (e, trim_on)

trim_on-step :
    (fuel : ℕ) (p bs rest : Bytes)
    → strip_prefix p bs ≡ some rest
    → trim_on (suc fuel) p bs ≡ trim_on fuel p rest
unfolding trim_on
trim_on-step fuel p bs rest e = rw (e, trim_on)

-- A prefix that stands once is stripped.
pub trim_start_matches-append :
    (p : ℕ) (ps bs : Bytes)
    → strip_prefix (p ∷ ps) bs ≡ none
    → trim_start_matches (p ∷ ps) (p ∷ (ps ++ bs)) ≡ bs
unfolding trim_start_matches
trim_start_matches-append p ps bs e =
    trim_on-step (length (ps ++ bs)) (p ∷ ps) (p ∷ (ps ++ bs)) bs (strip_prefix-append (p ∷ ps) bs)
    ∙ trim_on-stop (length (ps ++ bs)) (p ∷ ps) bs e
