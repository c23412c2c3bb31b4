-- ===== src/Memory/Gpu.antt =====
-- Registration of memory for GPUs, crates/cmx-memory/src/gpu.rs. `feature` says whether the crate is built
-- with the feature `gpu`, and `cuda_host_register` is the call of the CUDA runtime, which gives 0 on
-- success.
use cmx_rdma.Base.{ℕ, ◌+◌, Bool, Option, none, some, ◌==◌, if◌then◌else◌}

abbrev pub portable : ℕ
portable = 1

abbrev pub mapped : ℕ
mapped = 2

-- The two flags have no bit in common, so that the or is a sum. `none` is an error.
unfoldable pub register_gpu_memory :
    (feature : Bool)
    → (cuda_host_register : (ptr size flags : ℕ) → ℕ) → (ptr size : ℕ) → Option (Unit {0})
register_gpu_memory feature cuda_host_register ptr size =
    if feature
    then (if cuda_host_register ptr size (portable + mapped) == 0 then some tt else none)
    else some tt
