-- ===== src/Transport/Mock/Laws.antt =====
-- What the transport for tests promises.
use cmx_rdma.Base.{
  ℕ, zero, suc, ◌≤◌, ◌≡◌, refl, ap, ◌∙◌, Bool, true, false, some, [], ◌∷◌, arith, bytes_eq, pair_eq,
  nat_eq, same, is_some, if◌then◌else◌, length, take, min, Bytes,
}
use cmx_rdma.Base.Assoc
use cmx_rdma.Base.Assoc.{lookup-insert, lookup-remove, keys}
use cmx_rdma.Base.{Distinct}
use cmx_rdma.Memory.Bytes.{Region, read_bytes, write_bytes, length-read_bytes}
use cmx_rdma.Transport.Traits.{PeerId, RemoteMemoryRegion, LocalBuffer, peer_not_found, ok, err}
use cmx_rdma.Transport.Mock.{MockTransport, connect, disconnect, read, write}

-- The peers that the transport is connected to.
abbrev pub connected : PeerId → MockTransport → Bool
connected peer t = is_some (Assoc.lookup peer t.connections)

take_exact : (n : ℕ) (bs : Bytes) → length bs ≤ n → take n bs ≡ bs
take_exact zero [] h = refl
take_exact zero (b ∷ bs) h = absurd (omega arith)
take_exact (suc n) [] h = refl
take_exact (suc n) (b ∷ bs) h = ap (◌∷◌ b) (take_exact n bs (omega arith))

write-connected :
    (local : LocalBuffer) (remote : RemoteMemoryRegion) (memory : Region) (t : MockTransport)
    → connected remote.peer t ≡ true
    → write local remote memory t ≡ (
      ok (min local.size remote.size),
      record t {
        remote_memory =
            Assoc.insert
              (remote.peer, remote.addr)
              (read_bytes memory local.ptr (min local.size remote.size))
              t.remote_memory;
      },
    )
unfolding write
write-connected local remote memory t h = rw h

read-present :
    (remote : RemoteMemoryRegion) (local : LocalBuffer) (memory : Region) (t : MockTransport)
    (bytes : Bytes)
    → connected remote.peer t ≡ true
    → Assoc.lookup (remote.peer, remote.addr) t.remote_memory ≡ some bytes
    → read remote local memory t ≡ (
        let n = min (min local.size (length bytes)) remote.size in
        ok (n, write_bytes memory local.ptr (take n bytes)))
unfolding read
read-present remote local memory t bytes h at = rw (h, at)

-- To a connected peer, `write` reports the smaller of the two sizes, and a `read` of the same region
-- into a buffer of at least that size gives exactly the bytes that were written.
pub read-write :
    (source target : LocalBuffer) (remote : RemoteMemoryRegion) (memory memory' : Region)
    (t : MockTransport)
    → connected remote.peer t ≡ true
    → min source.size remote.size ≤ target.size
    → (t' : MockTransport) × (write source remote memory t ≡ (ok (min source.size remote.size), t'))
      × (read remote target memory' t'
          ≡ ok (
            min source.size remote.size,
            write_bytes memory' target.ptr
                (read_bytes memory source.ptr (min source.size remote.size)),
          ))
read-write source target remote memory memory' t h fits =
    let n = min source.size remote.size in
    let bytes = read_bytes memory source.ptr n in
    let t' : MockTransport = record t {
      remote_memory = Assoc.insert (remote.peer, remote.addr) bytes t.remote_memory;
    } in
    let size : min (min target.size (length bytes)) remote.size ≡ n =
      omega (arith, length-read_bytes memory source.ptr n) in
    let there : Assoc.lookup (remote.peer, remote.addr) t'.remote_memory ≡ some bytes = ground (
      arith,
      lookup-insert (remote.peer, remote.addr) (remote.peer, remote.addr) bytes t.remote_memory,
    ) in
    (
      t',
      write-connected source remote memory t h,
      read-present remote target memory' t' bytes h there
          ∙ ap (λ m. ok (m, write_bytes memory' target.ptr (take m bytes))) size
          ∙ ap (λ bs. ok (n, write_bytes memory' target.ptr bs))
              (take_exact n bytes (omega (arith, length-read_bytes memory source.ptr n))),
    )

-- `connect` connects its peer and no other; `disconnect` leaves its peer disconnected and every other
-- peer as it was, and fails exactly if its peer was not connected; so a second one always fails.
pub lifecycle :
    (peer other : PeerId) (addr : Bytes) (t : MockTransport)
    → Distinct (keys t.connections)
    → (connected other (connect peer addr t).1
        ≡ (if same peer other then true else connected other t))
      × (connected other (disconnect peer t).1
          ≡ (if same peer other then false else connected other t))
      × ((disconnect peer t).0 ≡ (if connected peer t then ok tt else err (peer_not_found peer)))
      × ((disconnect peer (disconnect peer t).1).0 ≡ err (peer_not_found peer))
unfolding connect disconnect
lifecycle peer other addr t d = (
  ground (arith, lookup-insert peer other tt t.connections),
  ground (arith, lookup-remove peer other t.connections d),
  ground arith,
  ground (arith, lookup-remove peer peer t.connections d),
)
