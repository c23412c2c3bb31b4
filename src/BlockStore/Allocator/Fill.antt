-- ===== src/BlockStore/Allocator/Fill.antt =====
-- The copies into a block, and what the checks of `read_verified` find there afterwards.
use cmx_rdma.Base.{
  ℕ, ◌+◌, ◌-◌, ◌*◌, ◌≤◌, ◌<◌, ◌≡◌, refl, ap, ap₂, ◌∙◌, sym, ◌⊎◌, inl, true, false, some, ◌++◌,
  arith, ltb, length, drop, length-append, take-append, drop-append, Bytes,
}
use cmx_rdma.Memory.Bytes.{
  Region, read_bytes, write_bytes, read-write_apart, read-write_self, read_bytes-split,
}
use cmx_rdma.Memory.Pool
use cmx_rdma.Memory.Pool.{u32, u64, BlockHandle, MemoryPool}
use cmx_rdma.Memory.Pool.Ownership.{issued}
use cmx_rdma.BlockStore.Block.{BlockHeader, header_size, header_new, verify, write_to, read_from}
use cmx_rdma.BlockStore.Block.Layout.{IsHeader, length-write_to, read_from-write_to}
use cmx_rdma.BlockStore.Allocator.{fill, verified}

drop-front : (n : ℕ) (xs ys : Bytes) → length xs ≡ n → drop n (xs ++ ys) ≡ ys
drop-front n xs ys e = rw (← e) (drop-append xs ys)

verify-eq :
    (crc : Bytes → ℕ) (h : BlockHeader) (payload : Bytes)
    → crc payload ≡ h.crc32
    → verify crc h payload ≡ true
unfolding verify
verify-eq crc h payload e = ground arith

-- A parsed header whose size and checksum are those of the data passes the checks.
verified-parsed :
    (crc : Bytes → ℕ) (front payload rest : Bytes) (h : BlockHeader)
    → length front ≡ header_size
    → read_from (front ++ (payload ++ rest)) ≡ some h
    → h.data_size ≡ length payload
    → h.crc32 ≡ crc payload
    → verified crc (front ++ (payload ++ rest)) ≡ some payload
unfolding verified
verified-parsed crc front payload rest h long parsed exact sum =
    let whole = front ++ (payload ++ rest) in
    let enough : ltb (length whole) (header_size + length payload) ≡ false =
      ground (arith, length-append front (payload ++ rest), length-append payload rest) in
    let body : drop header_size whole ≡ payload ++ rest =
      drop-front header_size front (payload ++ rest) long in
    let intact : verify crc h payload ≡ true = verify-eq crc h payload (sym sum) in
    rw (parsed, verified, exact, body, take-append payload rest, enough, intact)

write_slice-ok :
    (p : MemoryPool) (i at : ℕ) (bs : Bytes)
    → at + length bs ≤ p.block_size
    → Pool.write_slice (issued p i) at bs p
      ≡ some (record p { region = write_bytes p.region (i * p.block_size + at) bs })
unfolding Pool.write_slice
write_slice-ok p i at bs h = ground arith

module _ (crc : Bytes → ℕ) (padding : Bytes) (four : length padding ≡ 4) (payload : Bytes)
    (gen : ℕ) where
  abbrev header_bytes : Bytes
  header_bytes = write_to padding (header_new crc payload gen)

  -- The two copies into the block at `off`.
  abbrev pub filled : Region → ℕ → Region
  filled m off = write_bytes (write_bytes m off header_bytes) (off + header_size) payload

  -- Nothing outside the header and the data changes.
  pub filled_outside :
      (m : Region) (off from n : ℕ)
      → (from + n ≤ off) ⊎ (off + header_size + length payload ≤ from)
      → read_bytes (filled m off) from n ≡ read_bytes m from n
  filled_outside m off from n h =
      let long : length header_bytes ≡ header_size =
        length-write_to padding (header_new crc payload gen) four in
      read-write_apart (write_bytes m off header_bytes) (off + header_size) payload from n
        (ground (arith, h))
      ∙ read-write_apart m off header_bytes from n (ground (arith, h, long))

  -- The block reads as the header, the data and what was there before.
  pub read-filled :
      (m : Region) (off size : ℕ)
      → header_size + length payload ≤ size
      → (rest : Bytes) × (read_bytes (filled m off) off size ≡ header_bytes ++ (payload ++ rest))
  read-filled m off size h =
      let m' = filled m off in
      let n = length payload in
      let r = size - (header_size + n) in
      let long : length header_bytes ≡ header_size =
        length-write_to padding (header_new crc payload gen) four in
      let cut : size ≡ header_size + (n + r) = omega arith in
      let front : read_bytes m' off header_size ≡ header_bytes =
        read-write_apart (write_bytes m off header_bytes) (off + header_size) payload off
          header_size (inl (omega arith))
        ∙ ap (read_bytes (write_bytes m off header_bytes) off) (sym long)
        ∙ read-write_self m off header_bytes in
      let middle : read_bytes m' (off + header_size) n ≡ payload =
        read-write_self (write_bytes m off header_bytes) (off + header_size) payload in
      let rest = read_bytes m' (off + header_size + n) r in
      (
        rest,
        ap (read_bytes m' off) cut
            ∙ read_bytes-split m' off header_size (n + r)
            ∙ ap₂ ◌++◌ front
                (read_bytes-split m' (off + header_size) n r ∙ ap (λ xs. xs ++ rest) middle),
      )

  -- Such a block passes the checks, and the data comes back.
  pub verified-filled :
      (rest : Bytes)
      → crc payload < u32
      → gen < u64
      → length payload < u32
      → verified crc (header_bytes ++ (payload ++ rest)) ≡ some payload
  unfolding verified header_new verify
  verified-filled rest small young short =
      let h = header_new crc payload gen in
      let long : length header_bytes ≡ header_size = length-write_to padding h four in
      let fits : IsHeader h = record {
        crc32 = small;
        generation = young;
        data_size = omega arith;
        reserved = omega arith;
      } in
      verified-parsed crc header_bytes payload rest h long
        (read_from-write_to padding h (payload ++ rest) four fits) (omega arith) refl

  -- Neither copy leaves the block.
  pub fill-ok :
      (p : MemoryPool) (i : ℕ)
      → header_size + length payload ≤ p.block_size
      → fill crc padding (issued p i) gen payload p
        ≡ some (record p { region = filled p.region (i * p.block_size) })
  unfolding fill
  fill-ok p i h =
      let at = i * p.block_size in
      let long : length header_bytes ≡ header_size =
        length-write_to padding (header_new crc payload gen) four in
      let p₁ = record p { region = write_bytes p.region at header_bytes } in
      let first : Pool.write_slice (issued p i) 0 header_bytes p ≡ some p₁ =
        write_slice-ok p i 0 header_bytes (omega arith)
        ∙ ap (λ n. some (record p { region = write_bytes p.region n header_bytes }))
            (omega arith) in
      rw (first, fill) (write_slice-ok p₁ i header_size payload h)
