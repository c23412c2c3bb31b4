-- ===== src/Agent/Watch/Alive.antt =====
-- How long the lease of an agent is kept alive, crates/cmx-agent/src/metadata.rs.
use cmx_rdma.Base.{
  ℕ, zero, suc, ◌*◌, ◌^◌, ◌≤◌, ◌<◌, ◌≡◌, refl, none, some, Option, List, [], ◌∷◌, ◌++◌, All, length,
  arith,
}
use cmx_rdma.Agent.Metadata.{interval}
use cmx_rdma.Agent.Watch.{
  Round, refused, answered, stream_ended, stream_failed, Stopped, request_failed, lease_expired,
  no_more_answers, answer_failed, keepalive_loop,
}

-- What ends the loop in a round, if anything does.
abbrev pub ends : Round → Option Stopped
ends refused = some request_failed
ends (answered zero) = some lease_expired
ends (answered (suc n)) = none
ends stream_ended = some no_more_answers
ends stream_failed = some answer_failed

keepalive_loop-one :
    (round : Round) (rest : List Round)
    → ends round ≡ none
    → keepalive_loop (round ∷ rest) ≡ ((keepalive_loop rest).0, suc (keepalive_loop rest).1)
unfolding keepalive_loop
keepalive_loop-one refused rest h = absurd (ground arith)
keepalive_loop-one (answered zero) rest h = absurd (ground arith)
keepalive_loop-one (answered (suc n)) rest h = ground arith
keepalive_loop-one stream_ended rest h = absurd (ground arith)
keepalive_loop-one stream_failed rest h = absurd (ground arith)

keepalive_loop-last :
    (round : Round) (rest : List Round) (stopped : Stopped)
    → ends round ≡ some stopped
    → keepalive_loop (round ∷ rest) ≡ (some stopped, 1)
unfolding keepalive_loop
keepalive_loop-last refused rest stopped h = ground arith
keepalive_loop-last (answered zero) rest stopped h = ground arith
keepalive_loop-last (answered (suc n)) rest stopped h = absurd (ground arith)
keepalive_loop-last stream_ended rest stopped h = ground arith
keepalive_loop-last stream_failed rest stopped h = ground arith

keepalive_loop-goes_on :
    (rounds : List Round)
    → All (λ r. ends r ≡ none) rounds
    → keepalive_loop rounds ≡ (none, length rounds)
unfolding keepalive_loop
keepalive_loop-goes_on [] h = refl
keepalive_loop-goes_on (r ∷ rounds) (h, hs) =
    ground (arith, keepalive_loop-one r rounds, keepalive_loop-goes_on rounds hs)

keepalive_loop-returns :
    (rounds : List Round) (last : Round) (stopped : Stopped) (rest : List Round)
    → All (λ r. ends r ≡ none) rounds
    → ends last ≡ some stopped
    → keepalive_loop (rounds ++ last ∷ rest) ≡ (some stopped, suc (length rounds))
keepalive_loop-returns [] last stopped rest h g = keepalive_loop-last last rest stopped g
keepalive_loop-returns (r ∷ rounds) last stopped rest (h, hs) g = ground (
  arith,
  keepalive_loop-one r (rounds ++ last ∷ rest),
  keepalive_loop-returns rounds last stopped rest hs g,
)

-- As long as requests succeed and are answered with a time to live that is not 0, the loop goes on, and
-- it has slept once for each round. It returns in the first round in which a request fails, the answer
-- is a time to live of 0, or the answers end or fail, with that reason, and without a look at what comes
-- later.
pub keepalive_loop-stops :
    (rounds : List Round) (last : Round) (stopped : Stopped) (rest : List Round)
    → All (λ r. ends r ≡ none) rounds
    → ends last ≡ some stopped
    → (keepalive_loop rounds ≡ (none, length rounds))
      × (keepalive_loop (rounds ++ last ∷ rest) ≡ (some stopped, suc (length rounds)))
keepalive_loop-stops rounds last stopped rest h g =
    (keepalive_loop-goes_on rounds h, keepalive_loop-returns rounds last stopped rest h g)

-- For a lease of at least 3 seconds, three intervals fit into its time to live; the interval is never
-- 0, and it is not longer than a lease of a positive time to live.
pub interval-bounds :
    (ttl : ℕ)
    → 0 < ttl
    → ttl < 2 ^ 63
    → (0 < interval ttl) × (interval ttl ≤ ttl) × (3 ≤ ttl → 3 * interval ttl ≤ ttl)
unfolding interval
interval-bounds ttl h g = (ground arith, ground arith, λ three. ground arith)
