-- ===== src/Transport/Nixl.antt =====
-- The NIXL transport, crates/cmx-transport/src/nixl.rs, with the feature `nixl`: what stands there
-- until the bindings exist. It transfers nothing and reports the full size.
use cmx_rdma.Base.{ℕ, Option, none, some, List, [], bytes_eq, is_some, if◌then◌else◌, Bytes}
use cmx_rdma.Base.Assoc
use cmx_rdma.Memory.Bytes.{Region}
use cmx_rdma.Transport.Traits.{
  PeerId, RemoteMemoryRegion, LocalBuffer, peer_not_found, TransportType, ro_ce_v2, Returned, ok,
  err, Transport,
}

pub record NixlConnection : Type 0 where
  pub transport_type : TransportType
  pub addr : Bytes

abbrev pub NixlTransport : Type 0
NixlTransport = List (PeerId × NixlConnection)

unfoldable pub new : NixlTransport
new = []

unfoldable pub connect : PeerId → Bytes → NixlTransport → Returned TransportType × NixlTransport
connect peer addr t =
    (ok ro_ce_v2, Assoc.insert peer (record { transport_type = ro_ce_v2; addr = addr }) t)

unfoldable pub disconnect : PeerId → NixlTransport → Returned (Unit {0}) × NixlTransport
disconnect peer t =
    if is_some (Assoc.lookup peer t)
    then (ok tt, Assoc.remove peer t)
    else (err (peer_not_found peer), t)

unfoldable pub read :
    RemoteMemoryRegion → LocalBuffer → Region → NixlTransport → Returned (ℕ × Region)
read remote local memory t =
    if is_some (Assoc.lookup remote.peer t)
    then ok (remote.size, memory)
    else err (peer_not_found remote.peer)

unfoldable pub write :
    LocalBuffer → RemoteMemoryRegion → Region → NixlTransport → Returned ℕ × NixlTransport
write local remote memory t =
    if is_some (Assoc.lookup remote.peer t)
    then (ok remote.size, t)
    else (err (peer_not_found remote.peer), t)

unfoldable pub register_memory : (ptr size : ℕ) → NixlTransport → Returned ℕ × NixlTransport
register_memory ptr size t = (ok 0, t)

unfoldable pub deregister_memory : (lkey : ℕ) → NixlTransport → Returned (Unit {0}) × NixlTransport
deregister_memory lkey t = (ok tt, t)

unfoldable pub transport_type : PeerId → NixlTransport → Option TransportType
transport_type peer t = elim (Assoc.lookup peer t) [ none ↦ none | some c ↦ some c.transport_type ]

-- `impl Transport for NixlTransport`
unfoldable pub nixl_transport : Transport
unfolding connect disconnect read write register_memory deregister_memory transport_type
nixl_transport = record {
  State = NixlTransport;
  connect = connect;
  disconnect = disconnect;
  read = read;
  write = write;
  register_memory = register_memory;
  deregister_memory = deregister_memory;
  transport_type = transport_type;
}
