-- ===== src/Transport/Mock.antt =====
-- The transport for tests, crates/cmx-transport/src/mock.rs. A lock is held within one call, so that
-- `try_read` succeeds.
pub mod Laws
use cmx_rdma.Base.{
  ℕ, ◌+◌, ◌%◌, min, Option, none, some, List, [], Eq, bytes_eq, pair_eq, nat_eq, is_some,
  if◌then◌else◌, length, take, Bytes,
}
use cmx_rdma.Base.Assoc
use cmx_rdma.Memory.Bytes.{Region, read_bytes, write_bytes}
use cmx_rdma.Memory.Pool.{u32}
use cmx_rdma.Transport.Traits.{
  PeerId, RemoteMemoryRegion, LocalBuffer, transfer_failed, peer_not_found, TransportType, mock,
  Returned, ok, err, Transport,
}

pub record MockTransport : Type 0 where
  pub connections : List (PeerId × Unit {0})
  pub remote_memory : List ((PeerId × ℕ) × Bytes)
  pub next_lkey : ℕ

unfoldable pub new : MockTransport
new = record { connections = []; remote_memory = []; next_lkey = 1 }

unfoldable pub insert_remote_memory : PeerId → ℕ → Bytes → MockTransport → MockTransport
insert_remote_memory peer addr bytes t = record t {
  remote_memory = Assoc.insert (peer, addr) bytes t.remote_memory;
}

unfoldable pub connect : PeerId → Bytes → MockTransport → Returned TransportType × MockTransport
connect peer addr t = (ok mock, record t { connections = Assoc.insert peer tt t.connections })

unfoldable pub disconnect : PeerId → MockTransport → Returned (Unit {0}) × MockTransport
disconnect peer t =
    if is_some (Assoc.lookup peer t.connections)
    then (ok tt, record t { connections = Assoc.remove peer t.connections })
    else (err (peer_not_found peer), t)

unfoldable pub read :
    RemoteMemoryRegion → LocalBuffer → Region → MockTransport → Returned (ℕ × Region)
unfolding write_bytes
read remote local memory t =
    if is_some (Assoc.lookup remote.peer t.connections)
    then elim (Assoc.lookup (remote.peer, remote.addr) t.remote_memory) [
      | none ↦ err (transfer_failed remote.peer remote.addr)
      | some bytes ↦
          let bytes_to_copy = min (min local.size (length bytes)) remote.size in
          ok (bytes_to_copy, write_bytes memory local.ptr (take bytes_to_copy bytes))
    ]
    else err (peer_not_found remote.peer)

unfoldable pub write :
    LocalBuffer → RemoteMemoryRegion → Region → MockTransport → Returned ℕ × MockTransport
unfolding read_bytes
write local remote memory t =
    let bytes_to_copy = min local.size remote.size in
    let bytes = read_bytes memory local.ptr bytes_to_copy in
    if is_some (Assoc.lookup remote.peer t.connections)
    then (
      ok bytes_to_copy,
      record t { remote_memory = Assoc.insert (remote.peer, remote.addr) bytes t.remote_memory },
    )
    else (err (peer_not_found remote.peer), t)

unfoldable pub register_memory : (ptr size : ℕ) → MockTransport → Returned ℕ × MockTransport
register_memory ptr size t = (ok t.next_lkey, record t { next_lkey = (t.next_lkey + 1) % u32 })

unfoldable pub deregister_memory : (lkey : ℕ) → MockTransport → Returned (Unit {0}) × MockTransport
deregister_memory lkey t = (ok tt, t)

unfoldable pub transport_type : PeerId → MockTransport → Option TransportType
transport_type peer t = if is_some (Assoc.lookup peer t.connections) then some mock else none

-- `impl Transport for MockTransport`
unfoldable pub mock_transport : Transport
unfolding connect disconnect read write register_memory deregister_memory transport_type
mock_transport = record {
  State = MockTransport;
  connect = connect;
  disconnect = disconnect;
  read = read;
  write = write;
  register_memory = register_memory;
  deregister_memory = deregister_memory;
  transport_type = transport_type;
}
