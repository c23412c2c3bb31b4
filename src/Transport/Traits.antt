-- ===== src/Transport/Traits.antt =====
-- The trait of transports, crates/cmx-transport/src/traits.rs, as a record of operations on the state
-- of a transport. Local buffers lie in one memory, a function from addresses to bytes.
use cmx_rdma.Base.{ℕ, Option, Bytes}
use cmx_rdma.Memory.Bytes.{Region}

-- `PeerId`, a name
abbrev pub PeerId : Type 0
PeerId = Bytes

pub record RemoteMemoryRegion : Type 0 where
  pub peer : PeerId
  pub addr : ℕ
  pub size : ℕ
  pub rkey : ℕ

pub record LocalBuffer : Type 0 where
  pub ptr : ℕ
  pub size : ℕ
  pub lkey : ℕ

pub data TransportError : Type 0 where
  connection_failed : PeerId → Bytes → TransportError
  transfer_failed : PeerId → ℕ → TransportError
  peer_not_found : PeerId → TransportError
  timeout : ℕ → TransportError
  not_available : Bytes → TransportError

pub data TransportType : Type 0 where
  infini_band ro_ce_v2 tcp mock : TransportType

pub data Returned (A : Type 0) : Type 0 where
  ok : A → Returned A
  err : TransportError → Returned A

-- `read` gives the memory after the transfer, beside the number of bytes.
pub record Transport : Type 1 where
  pub State : Type 0
  pub connect : PeerId → (addr : Bytes) → State → Returned TransportType × State
  pub disconnect : PeerId → State → Returned (Unit {0}) × State
  pub read : RemoteMemoryRegion → LocalBuffer → Region → State → Returned (ℕ × Region)
  pub write : LocalBuffer → RemoteMemoryRegion → Region → State → Returned ℕ × State
  pub register_memory : (ptr size : ℕ) → State → Returned ℕ × State
  pub deregister_memory : (lkey : ℕ) → State → Returned (Unit {0}) × State
  pub transport_type : PeerId → State → Option TransportType
