-- ===== src/Transport/Pool.antt =====
-- The pool of connections, crates/cmx-transport/src/pool.rs, over any transport and the concurrent map
-- of `dashmap`. The time of a connection is an argument.
pub mod Laws
use cmx_rdma.Base.{
  ℕ, Bool, Option, none, some, List, [], ◌∷◌, bytes_eq, is_some, if◌then◌else◌, Bytes,
}
use cmx_rdma.Base.DashMap.{DashMap}
use cmx_rdma.Transport.Traits.{PeerId, TransportError, TransportType, Returned, ok, err, Transport}

pub record ConnectionState : Type 0 where
  pub transport_type : TransportType
  pub addr : Bytes
  pub connected_at : ℕ

pub record ConnectionPool (T : Transport) (D : DashMap PeerId ConnectionState) : Type 0 where
  pub transport : T.State
  pub connections : D.Map

module _ (T : Transport) (D : DashMap PeerId ConnectionState) where
  unfoldable pub new : T.State → ConnectionPool T D
  new transport = record { transport = transport; connections = D.empty }

  -- What follows `connect(..).await?`.
  unfoldable pub cache :
      (now : ℕ)
      → PeerId
      → (addr : Bytes) → Returned TransportType
      → ConnectionPool T D
      → Returned TransportType × ConnectionPool T D
  cache now peer addr (err e) p = (err e, p)
  cache now peer addr (ok tt') p =
      let state : ConnectionState = record {
        transport_type = tt';
        addr = addr;
        connected_at = now;
      } in
      (ok tt', record p { connections = D.insert peer state p.connections })

  unfoldable pub get_or_connect :
      (now : ℕ)
      → PeerId
      → (addr : Bytes) → ConnectionPool T D
      → Returned TransportType × ConnectionPool T D
  unfolding cache
  get_or_connect now peer addr p = elim (D.get peer p.connections) [
    | some entry ↦ (ok entry.transport_type, p)
    | none ↦
        let (result, transport) = T.connect peer addr p.transport in
        cache now peer addr result (record p { transport = transport })
  ]

  unfoldable pub disconnect : PeerId → ConnectionPool T D → Returned (Unit {0}) × ConnectionPool T D
  disconnect peer p =
      let (result, transport) = T.disconnect peer p.transport in
      (result, record { transport = transport; connections = D.remove peer p.connections })

  unfoldable pub connected_peers : ConnectionPool T D → List PeerId
  connected_peers p = D.keys p.connections

  -- The inner loop of the health check, over the peers that were listed.
  unfoldable pub drop_stale : List PeerId → ConnectionPool T D → ConnectionPool T D
  drop_stale [] p = p
  drop_stale (peer ∷ peers) p = drop_stale peers (
      if is_some (T.transport_type peer p.transport)
      then p
      else record p { connections = D.remove peer p.connections })

  -- One round of the health check.
  unfoldable pub health_check : ConnectionPool T D → ConnectionPool T D
  unfolding drop_stale connected_peers
  health_check p = drop_stale (connected_peers p) p
