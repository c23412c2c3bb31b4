-- ===== src/Agent/Codecs.antt =====
-- The values in etcd, crates/cmx-agent/src/metadata.rs, and the crates that write and read them,
-- `serde_json` and `hex`, as interfaces.
use cmx_rdma.Base.{ℕ, ◌≡◌, ◌<◌, ◌||◌, true, Option, some, All, leb, ◌&&◌, Bool, Bytes}

pub record NodeInfo : Type 0 where
  pub node_id : Bytes
  pub addr : Bytes

pub record BlockLocationMeta : Type 0 where
  pub node_id : Bytes
  pub node_addr : Bytes
  pub offset : ℕ
  pub size : ℕ
  pub generation : ℕ

-- `to_string` and `from_slice` for a type; what was written can be read again.
pub record Json (A : Type 0) : Type 0 where
  pub to_string : A → Option Bytes
  pub from_slice : Bytes → Option A
  pub from_slice-to_string :
      (a : A) (text : Bytes) → to_string a ≡ some text → from_slice text ≡ some a

abbrev pub is_hex_digit : ℕ → Bool
is_hex_digit b = leb b'0' b && leb b b'9' || leb b'a' b && leb b b'f'

-- `hex::decode` for the encoder of the service, which writes lower case digits.
pub record Hex (encode : Bytes → Bytes) : Type 0 where
  pub decode : Bytes → Option Bytes
  pub decode-encode : (bs : Bytes) → All (λ b. b < 256) bs → decode (encode bs) ≡ some bs
  pub encode-digits : (bs : Bytes) → All (λ b. is_hex_digit b ≡ true) (encode bs)
