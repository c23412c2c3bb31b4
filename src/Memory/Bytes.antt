-- ===== src/Memory/Bytes.antt =====
-- A mapped region as a function from addresses to bytes, relative to its base pointer, and the
-- slices that are read from it and copied into it.
use cmx_rdma.Base.{
  ◌∙◌, ℕ, zero, suc, ◌+◌, ◌≤◌, ◌<◌, ◌≡◌, refl, ap₂, ap, ◌⊎◌, [], ◌∷◌, ◌++◌, arith, ◌==◌,
  if◌then◌else◌, length, Bytes,
}

abbrev pub Region : Type 0
Region = ℕ → ℕ

-- `slice::from_raw_parts(base + off, n)`
unfoldable pub read_bytes : Region → ℕ → ℕ → Bytes
read_bytes m off zero = []
read_bytes m off (suc n) = m off ∷ read_bytes m (suc off) n

-- `copy_from_slice` into the bytes from `off` on
unfoldable pub write_bytes : Region → ℕ → Bytes → Region
write_bytes m off [] a = m a
write_bytes m off (b ∷ bs) a = if a == off then b else write_bytes m (suc off) bs a

pub length-read_bytes : (m : Region) (off n : ℕ) → length (read_bytes m off n) ≡ n
unfolding read_bytes
length-read_bytes m off zero = refl
length-read_bytes m off (suc n) = ap suc (length-read_bytes m (suc off) n)

-- Equal bytes give equal slices.
pub read_bytes-agree :
    (m m' : Region) (off n : ℕ)
    → ((a : ℕ) → off ≤ a → a < off + n → m' a ≡ m a)
    → read_bytes m' off n ≡ read_bytes m off n
unfolding read_bytes
read_bytes-agree m m' off zero h = refl
read_bytes-agree m m' off (suc n) h =
    ap₂ ◌∷◌ (h off (omega arith) (omega arith))
      (read_bytes-agree m m' (suc off) n (λ a l r. h a (omega arith) (omega arith)))

-- A write changes nothing outside its range.
pub write_bytes_outside :
    (m : Region) (off : ℕ) (bs : Bytes) (a : ℕ)
    → (a < off) ⊎ (off + length bs ≤ a)
    → write_bytes m off bs a ≡ m a
unfolding write_bytes
write_bytes_outside m off [] a h = refl
write_bytes_outside m off (b ∷ bs) a h = ground (arith, write_bytes_outside m (suc off) bs a)

pub read-write_apart :
    (m : Region) (off : ℕ) (bs : Bytes) (from n : ℕ)
    → (from + n ≤ off) ⊎ (off + length bs ≤ from)
    → read_bytes (write_bytes m off bs) from n ≡ read_bytes m from n
read-write_apart m off bs from n h =
    read_bytes-agree m (write_bytes m off bs) from n
      (λ a l r. write_bytes_outside m off bs a (omega arith))

-- What was written is read back.
pub read-write_self :
    (m : Region) (off : ℕ) (bs : Bytes) → read_bytes (write_bytes m off bs) off (length bs) ≡ bs
unfolding read_bytes write_bytes
read-write_self m off [] = refl
read-write_self m off (b ∷ bs) = ap₂ ◌∷◌ (ground arith) (
    read_bytes-agree (write_bytes m (suc off) bs) (write_bytes m off (b ∷ bs)) (suc off) (length bs)
      (λ a l r. ground arith)
    ∙ read-write_self m (suc off) bs)

-- A slice is cut in two.
pub read_bytes-split :
    (m : Region) (off n k : ℕ)
    → read_bytes m off (n + k) ≡ read_bytes m off n ++ read_bytes m (off + n) k
unfolding read_bytes
read_bytes-split m off zero k = ap₂ (read_bytes m) (omega arith) (omega arith)
read_bytes-split m off (suc n) k =
    let e : suc n + k ≡ suc (n + k) = omega arith in
    let next : (off' : ℕ) → off' ≡ suc off + n → suc off + n ≡ off + suc n = λ o h. omega arith in
    rw e (
      ap (◌∷◌ (m off)) (
        read_bytes-split m (suc off) n k
        ∙ ap (λ o. read_bytes m (suc off) n ++ read_bytes m o k) (next _ refl)))
