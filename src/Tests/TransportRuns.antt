-- ===== src/Tests/TransportRuns.antt =====
-- Runs of the transport for tests and of the pool of connections over it.
use cmx_rdma.Base.{◌≡◌, refl, true, [], ◌∷◌, arith, bytes_eq}
use cmx_rdma.Base.DashMap.{DashMap, assoc_map}
use cmx_rdma.Memory.Bytes.{read_bytes, write_bytes}
use cmx_rdma.Transport.Traits.{PeerId, RemoteMemoryRegion, LocalBuffer, mock, ok}
use cmx_rdma.Transport.Mock.{MockTransport, connect, read, write, mock_transport}
use cmx_rdma.Transport.Mock.Laws.{connected, read-write}
use cmx_rdma.Transport.Pool.{ConnectionState, ConnectionPool, cache, get_or_connect}
use cmx_rdma.Tests.Data.{zeros}

abbrev peer : PeerId
peer = 112 ∷ []

abbrev connected_mock : MockTransport
connected_mock = record { connections = (peer, tt) ∷ []; remote_memory = []; next_lkey = 1 }

abbrev remote : RemoteMemoryRegion
remote = record { peer = peer; addr = 4096; size = 8; rkey = 1 }

abbrev buffer : LocalBuffer
buffer = record { ptr = 16; size = 6; lkey = 1 }

is_connected : connected peer connected_mock ≡ true
is_connected = ground arith

read-write_example :
    (t' : MockTransport) × (write buffer remote zeros connected_mock ≡ (ok 6, t'))
    × (read remote buffer zeros t' ≡ ok (6, write_bytes zeros 16 (read_bytes zeros 16 6)))
read-write_example =
    read-write buffer buffer remote zeros zeros connected_mock is_connected (omega arith)

abbrev states : DashMap PeerId ConnectionState
states = assoc_map PeerId ConnectionState

abbrev state : ConnectionState
state = record { transport_type = mock; addr = []; connected_at = 3 }

abbrev connections : ConnectionPool mock_transport states
unfolding mock_transport
connections = record {
  transport = connected_mock;
  connections = ((113 ∷ [], state) ∷ [], (refl, tt));
}

-- The first call connects and caches.
abbrev connections_after : ConnectionPool mock_transport states
unfolding mock_transport
connections_after = record {
  transport = record connected_mock { connections = (peer, tt) ∷ [] };
  connections =
      states.insert peer (record { transport_type = mock; addr = []; connected_at = 4 })
        connections.connections;
}

connected_first :
    get_or_connect mock_transport states 4 peer [] connections ≡ (ok mock, connections_after)
unfolding get_or_connect cache mock_transport connect
connected_first = ground arith
