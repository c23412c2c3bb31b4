-- ===== src/Agent/Crates.antt =====
-- What the service takes from other crates: the checksum of `crc32fast`, SHA-256 of `sha2`,
-- `hex::encode`, the concurrent maps of `dashmap`; and the bytes that the padding of a header holds.
use cmx_rdma.Base.{ℕ, ◌<◌, ◌≡◌, List, length, bytes_eq, Bytes}
use cmx_rdma.Base.DashMap.{DashMap}
use cmx_rdma.Memory.Pool.{u32}
use cmx_rdma.BlockStore.Index.{IndexEntry}
use cmx_rdma.Agent.RemoteIndex.{RemoteBlockInfo}

-- A prefix hash or an index key, `[u8; 16]`.
abbrev pub Key : Type 0
Key = Bytes

pub record Crates : Type 1 where
  pub crc : Bytes → ℕ
  pub sha256 : Bytes → Bytes
  pub hex_encode : Bytes → Bytes
  pub padding : Bytes
  pub entries : DashMap Key IndexEntry
  pub remotes : DashMap Key (List RemoteBlockInfo)
  pub crc_u32 : (bs : Bytes) → crc bs < u32
  pub sha256_size : (bs : Bytes) → length (sha256 bs) ≡ 32
  pub padding_size : length padding ≡ 4
