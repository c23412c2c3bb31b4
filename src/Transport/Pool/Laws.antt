-- ===== src/Transport/Pool/Laws.antt =====
-- What the pool of connections promises, over any transport.
use cmx_rdma.Base.{
  ℕ, ◌≡◌, refl, ap, ◌∙◌, sym, inl, inr, Bool, true, false, Option, none, some, List, [], ◌∷◌, arith,
  bytes_eq, same, has, is_some, if_true, if_false, if◌then◌else◌, Bytes, Bool-cases, Option-cases,
}
use cmx_rdma.Base.DashMap.{DashMap}
use cmx_rdma.Transport.Traits.{PeerId, TransportType, Returned, ok, err, Transport}
use cmx_rdma.Transport.Pool.{
  ConnectionState, ConnectionPool, cache, get_or_connect, disconnect, connected_peers, drop_stale,
  health_check,
}

module _ (T : Transport) (D : DashMap PeerId ConnectionState) where
  -- The cached connection of a peer.
  abbrev pub cached : PeerId → ConnectionPool T D → Option ConnectionState
  cached peer p = D.get peer p.connections

  -- A dropped peer has no connection in the transport.
  abbrev pub alive : PeerId → ConnectionPool T D → Bool
  alive peer p = is_some (T.transport_type peer p.transport)

  drop_living :
      (x : PeerId) (peers : List PeerId) (p : ConnectionPool T D)
      → alive x p ≡ true
      → drop_stale T D (x ∷ peers) p ≡ drop_stale T D peers p
  unfolding drop_stale
  drop_living x peers p living = ap (drop_stale T D peers) (if_true _ _ _ living)

  drop_dead :
      (x : PeerId) (peers : List PeerId) (p : ConnectionPool T D)
      → alive x p ≡ false
      → drop_stale T D (x ∷ peers) p
        ≡ drop_stale T D peers (record p { connections = D.remove x p.connections })
  unfolding drop_stale
  drop_dead x peers p stale = ap (drop_stale T D peers) (if_false _ _ _ stale)

  drop_stale-cached :
      (peers : List PeerId) (peer : PeerId) (p : ConnectionPool T D)
      → ((drop_stale T D peers p).transport ≡ p.transport)
        × (cached peer (drop_stale T D peers p) ≡ (
            if has peer peers
            then (if alive peer p then cached peer p else none)
            else cached peer p))
  unfolding drop_stale
  drop_stale-cached [] peer p = (refl, refl)
  drop_stale-cached (x ∷ peers) peer p = elim (Bool-cases (alive x p)) [
    | inl living ↦
        let (kept, rest) = drop_stale-cached peers peer p in
        (
          ap (λ q. q.transport) (drop_living x peers p living) ∙ kept,
          ap (cached peer) (drop_living x peers p living) ∙ rest ∙ ground (arith, living),
        )
    | inr stale ↦
        let p' : ConnectionPool T D = record p { connections = D.remove x p.connections } in
        let (kept, rest) = drop_stale-cached peers peer p' in
        (
          ap (λ q. q.transport) (drop_dead x peers p stale) ∙ kept,
          ap (cached peer) (drop_dead x peers p stale)
              ∙ rest
              ∙ ground (arith, stale, D.get-remove x peer p.connections),
        )
  ]

  -- A health check leaves the transport alone and keeps exactly the cached connections of the peers
  -- that the transport still knows.
  pub health_check-cached :
      (peer : PeerId) (p : ConnectionPool T D)
      → ((health_check T D p).transport ≡ p.transport)
        × (cached peer (health_check T D p) ≡ (if alive peer p then cached peer p else none))
  unfolding health_check connected_peers
  health_check-cached peer p =
      let (kept, rest) = drop_stale-cached (D.keys p.connections) peer p in
      (kept, ground (arith, rest, D.has-keys peer p.connections))

  answer_cached :
      (now : ℕ) (peer : PeerId) (addr : Bytes) (p : ConnectionPool T D) (state : ConnectionState)
      → cached peer p ≡ some state
      → get_or_connect T D now peer addr p ≡ (ok state.transport_type, p)
  unfolding get_or_connect
  answer_cached now peer addr p state at = rw (at, get_or_connect)

  answer_new :
      (now : ℕ) (peer : PeerId) (addr : Bytes) (p : ConnectionPool T D)
      (result : Returned TransportType) (s : T.State)
      → cached peer p ≡ none
      → T.connect peer addr p.transport ≡ (result, s)
      → get_or_connect T D now peer addr p
        ≡ cache T D now peer addr result (record p { transport = s })
  unfolding get_or_connect
  answer_new now peer addr p result s absent ran = rw (absent, get_or_connect, ran)

  -- Once `get_or_connect` has succeeded, the peer is cached: another call with whatever address and
  -- time gives the same answer and touches neither the transport nor the cache. The other peers are
  -- cached as they were.
  pub get_or_connect_again :
      (now later : ℕ) (peer other : PeerId) (addr addr' : Bytes) (p p' : ConnectionPool T D)
      (tt' : TransportType)
      → get_or_connect T D now peer addr p ≡ (ok tt', p')
      → (get_or_connect T D later peer addr' p' ≡ (ok tt', p'))
        × (cached other p' ≡ (if same peer other then cached peer p' else cached other p))
  unfolding cache
  get_or_connect_again now later peer other addr addr' p p' tt' ran =
      elim (Option-cases (cached peer p)) [
        | inr (state, at) ↦
            let first = answer_cached now peer addr p state at in
            let same_pool : p ≡ p' = ap (λ x. x.1) (sym first ∙ ran) in
            let same_type : ok state.transport_type ≡ ok tt' = ap (λ x. x.0) (sym first ∙ ran) in
            (
              rw (← same_pool)
                  (answer_cached later peer addr' p state at ∙ ap (λ r. (r, p)) same_type),
              rw (← same_pool) (ground arith),
            )
        | inl absent ↦ connected_now (T.connect peer addr p.transport) refl absent
      ]
    where
      connected_now :
          (r : Returned TransportType × T.State)
          → T.connect peer addr p.transport ≡ r
          → cached peer p ≡ none
          → (get_or_connect T D later peer addr' p' ≡ (ok tt', p'))
            × (cached other p' ≡ (if same peer other then cached peer p' else cached other p))
      connected_now (err e, s) called absent = absurd (
          ground
            (arith, ap (λ x. x.0) (sym (answer_new now peer addr p (err e) s absent called) ∙ ran)))
      connected_now (ok kind, s) called absent =
          let state : ConnectionState = record {
            transport_type = kind;
            addr = addr;
            connected_at = now;
          } in
          let first = sym (answer_new now peer addr p (ok kind) s absent called) ∙ ran in
          let known = D.get-insert peer peer state p.connections in
          let known' = D.get-insert peer other state p.connections in
          let there : cached peer p' ≡ some state =
            rw (← ap (λ x. x.1) first) (ground (arith, known)) in
          (
            answer_cached later peer addr' p' state there ∙ ap (λ r. (r, p')) (ap (λ x. x.0) first),
            rw there (rw (← ap (λ x. x.1) first) (ground (arith, known'))),
          )

  -- After `disconnect` the peer is not cached, whatever the transport answered, and every other peer is
  -- as it was; so the next `get_or_connect` connects anew.
  pub disconnect-cached :
      (peer other : PeerId) (p : ConnectionPool T D)
      → ((disconnect T D peer p).0 ≡ (T.disconnect peer p.transport).0)
        × (cached other (disconnect T D peer p).1
            ≡ (if same peer other then none else cached other p))
  unfolding disconnect
  disconnect-cached peer other p = (refl, D.get-remove peer other p.connections)
