-- ===== src/Agent/Sessions.antt =====
-- Sequences of requests to the service of crates/cmx-agent/src/grpc.rs, with the ticks of the pressure
-- monitor between them: what a client may expect of the cache.
pub mod Steps
pub mod Effects
pub mod Faithful
pub mod Exact
pub mod Held
pub mod Pending
pub mod Recovery
use cmx_rdma.Base.{ℕ, Bool, Option, none, some, List, [], ◌∷◌, same, if◌then◌else◌, bytes_eq, Bytes}
use cmx_rdma.Base.Outcome.{Outcome, done, panic}
use cmx_rdma.Agent.Crates.{Key, Crates}
use cmx_rdma.Agent.Floats.{Floats}
use cmx_rdma.Agent.Pressure.{Thresholds, tick}
use cmx_rdma.Agent.Service.{Reply, ok, err, Service, parse_prefix_hash, composite_key}
use cmx_rdma.Agent.Grpc.Store.{
  Message, header, chunk, no_payload, failed, StoreResponse, collect_chunks, store,
}
use cmx_rdma.Agent.Grpc.Fetch.{GetRequest, get}
use cmx_rdma.Agent.Grpc.Lookup.{LookupRequest, BatchLookupRequest, lookup, batch_lookup}
use cmx_rdma.Agent.Grpc.Admin.{delete}

-- What happens to the service: a call of a handler, or a tick of the monitor.
pub data Event : Type 0 where
  stores : (now : ℕ) → List Message → Event
  gets : GetRequest → Event
  looks_up : LookupRequest → Event
  looks_up_all : BatchLookupRequest → Event
  deletes : (hash : Bytes) → Event
  ticks : Event

-- The state that a call leaves, also when it panics.
abbrev pub state_after {ℓ κ} : {S : Type ℓ} {A : Type κ} → Outcome S A → S
state_after (done a s) = s
state_after (panic s) = s

-- What the client has stored last under each key, and not deleted since.
abbrev pub Latest : Type 0
Latest = Key → Option Bytes

abbrev pub set : Key → Option Bytes → Latest → Latest
set key bytes latest j = if same key j then bytes else latest j

-- The data of a stream, under the key of its header.
abbrev pub put_data : Key → Reply Bytes → Latest → Latest
put_data key (ok bytes) latest = set key (some bytes) latest
put_data key (err e) latest = latest

abbrev pub put_stream : (Bytes → Bytes) → List Message → Latest → Latest
put_stream sha256 [] latest = latest
put_stream sha256 (header h ∷ rest) latest =
    put_data (composite_key sha256 h.model_id h.prefix_hash) (collect_chunks [] rest) latest
put_stream sha256 (chunk bytes ∷ rest) latest = latest
put_stream sha256 (no_payload ∷ rest) latest = latest
put_stream sha256 (failed ∷ rest) latest = latest

-- Only a success of `store` counts.
abbrev pub stored {ℓ} :
    {S : Type ℓ} (sha256 : Bytes → Bytes)
    → List Message
    → Outcome S (Reply StoreResponse)
    → Latest
    → Latest
stored sha256 stream (done (ok r) s) latest = put_stream sha256 stream latest
stored sha256 stream (done (err e) s) latest = latest
stored sha256 stream (panic s) latest = latest

abbrev pub deleted : Reply Key → Latest → Latest
deleted (ok key) latest = set key none latest
deleted (err e) latest = latest

module _ (c : Crates) (F : Floats) (t : Thresholds F) where
  abbrev pub step : Event → Service c → Service c
  step (stores now stream) s = state_after (store c now stream s)
  step (gets req) s = state_after (get c req s)
  step (looks_up req) s = state_after (lookup c req s)
  step (looks_up_all req) s = state_after (batch_lookup c req s)
  step (deletes hash) s = state_after (delete c hash s)
  step ticks s = tick F t s

  abbrev pub learn : Event → Service c → Latest → Latest
  learn (stores now stream) s latest = stored c.sha256 stream (store c now stream s) latest
  learn (gets req) s latest = latest
  learn (looks_up req) s latest = latest
  learn (looks_up_all req) s latest = latest
  learn (deletes hash) s latest = deleted (parse_prefix_hash hash) latest
  learn ticks s latest = latest

  -- The state after a sequence of events, and what the client has stored by then.
  abbrev pub run : List Event → Service c → Service c
  run [] s = s
  run (e ∷ events) s = run events (step e s)

  abbrev pub learned : List Event → Service c → Latest → Latest
  learned [] s latest = latest
  learned (e ∷ events) s latest = learned events (step e s) (learn e s latest)
