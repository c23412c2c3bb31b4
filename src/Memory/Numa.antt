-- ===== src/Memory/Numa.antt =====
-- NUMA placement, crates/cmx-memory/src/numa.rs. `feature` says whether the crate is built with the
-- feature `numa`; without it the functions are stubs. What the system answers is an argument.
pub mod Mask
use cmx_rdma.Base.{
  ℕ, zero, suc, ◌+◌, ◌*◌, ◌/◌, ◌%◌, ◌^◌, Bool, ◌&&◌, Option, none, some, List, [], ◌∷◌, ◌==◌,
  if◌then◌else◌, set, Bytes,
}
use cmx_rdma.Base.Trim.{trim, ℤ, pos, negsuc, parse_i32}

-- `getcpu` gives the processor that runs the call and its node, unless it fails.
unfoldable pub numa_node_of_cpu : (feature : Bool) → (getcpu : Option (ℕ × ℕ)) → (cpu : ℕ) → ℕ
numa_node_of_cpu feature getcpu cpu =
    if feature
    then elim getcpu [ none ↦ 0 | some (cpu_id, node_id) ↦ if cpu_id == cpu then node_id else 0 ]
    else 0

-- The loop over the devices: the first file that can be read and holds a number that is not negative.
unfoldable pub first_affinity : List (Option Bytes) → ℕ
unfolding trim parse_i32
first_affinity [] = 0
first_affinity (none ∷ rest) = first_affinity rest
first_affinity (some content ∷ rest) = elim (parse_i32 (trim content)) [
  | none ↦ first_affinity rest
  | some (negsuc n) ↦ first_affinity rest
  | some (pos node) ↦ node
]

-- `entries` is the directory of devices with what reading each `numa_node` file gives.
unfoldable pub preferred_numa_node : (feature : Bool) → Option (List (Option Bytes)) → ℕ
unfolding first_affinity
preferred_numa_node feature entries =
    if feature then elim entries [ none ↦ 0 | some files ↦ first_affinity files ] else 0

-- `vec![0u64; n]`
unfoldable pub zero_words : ℕ → List ℕ
zero_words zero = []
zero_words (suc n) = 0 ∷ zero_words n

unfoldable pub mask_size : ℕ → ℕ
mask_size node = node / 64 + 1

-- Each word is 0 before, so that the or is an assignment.
unfoldable pub nodemask : ℕ → List ℕ
unfolding zero_words mask_size
nodemask node = set (zero_words (mask_size node)) (node / 64) (2 ^ (node % 64))

-- `mbind` is the system call on the mask and its `maxnode`; whether it succeeds is the result.
unfoldable pub numa_bind_memory :
    (feature : Bool) → (mbind : List ℕ → ℕ → Bool) → (node : ℕ) → Option (Unit {0})
unfolding nodemask mask_size
numa_bind_memory feature mbind node =
    if feature
    then (if mbind (nodemask node) (mask_size node * 64 + 1) then some tt else none)
    else some tt
