-- ===== src/Agent/Watch/Ring.antt =====
-- The ring that the watch of the nodes of crates/cmx-agent/src/metadata.rs leaves behind does not
-- depend on the other watch.
use cmx_rdma.Base.{
  ℕ, ◌+◌, ◌*◌, ◌≡◌, refl, sym, ◌∙◌, true, Option, none, some, List, [], ◌∷◌, ◌++◌, inl, inr,
  Option-cases, arith, length, bytes_eq, Bytes,
}
use cmx_rdma.Agent.Crates.{Crates}
use cmx_rdma.Agent.Etcd.{
  EventType, put_event, delete_event, KeyValue, Event, Received, response, ended, failed,
}
use cmx_rdma.Agent.Codecs.{BlockLocationMeta, Json, Hex}
use cmx_rdma.Agent.Placement
use cmx_rdma.Agent.Placement.{HashRing}
use cmx_rdma.Agent.Watch.{Watches, on_ring, node_of, node_event, step_nodes, step_blocks}
use cmx_rdma.Agent.Watch.Runs.{
  NodesMove, leaves, event, answer, stop, step_nodes-NodesMove, BlocksMove, change, finish,
  step_blocks-BlocksMove, Step, blocks_first, nodes_first, Run, here, next,
}
use cmx_rdma.Agent.Watch.Ends.{to_read, waiting, todo}

-- The events of a stream up to its end.
abbrev pub arriving : List Received → List Event
arriving [] = []
arriving (response events ∷ rest) = events ++ arriving rest
arriving (ended ∷ rest) = []
arriving (failed ∷ rest) = []

pub nothing :
    (pending : List Event) (nodes : List Received) (leaving : Option Bytes)
    → to_read nodes + 2 * length pending + waiting leaving ≡ 0
    → (pending ≡ []) × (nodes ≡ []) × (leaving ≡ none)
nothing [] [] none h = (refl, refl, refl)
nothing [] [] (some node) h = absurd (omega arith)
nothing [] (response events ∷ rest) leaving h = absurd (omega arith)
nothing [] (ended ∷ rest) leaving h = absurd (omega arith)
nothing [] (failed ∷ rest) leaving h = absurd (omega arith)
nothing (e ∷ rest) nodes leaving h = absurd (omega arith)

module _ (c : Crates) where
  -- What an event means for the ring, in one go.
  abbrev pub joins_or_leaves : EventType → Bytes → HashRing → HashRing
  joins_or_leaves put_event node ring = Placement.add_node c.sha256 node ring
  joins_or_leaves delete_event node ring = Placement.remove_node node ring

  abbrev pub change_ring : Option KeyValue → EventType → Option HashRing → Option HashRing
  change_ring none type ring = ring
  change_ring (some kv) type ring = on_ring c (joins_or_leaves type (node_of kv.key)) ring

  -- The ring after some events, one after the other.
  abbrev pub ring_after : List Event → Option HashRing → Option HashRing
  ring_after [] ring = ring
  ring_after (e ∷ rest) ring = ring_after rest (change_ring e.kv e.event_type ring)

  abbrev pub without_leaving : Option Bytes → Option HashRing → Option HashRing
  without_leaving none ring = ring
  without_leaving (some node) ring = on_ring c (Placement.remove_node node) ring

  -- The ring that the messages that have arrived lead to.
  abbrev pub ring_to_come : Watches c → Option HashRing
  ring_to_come w =
      ring_after (w.pending ++ arriving w.nodes) (without_leaving w.leaving w.hash_ring)

  node_event-ring :
      (e : Event) (kv : Option KeyValue) (type : EventType) (w : Watches c)
      → e.kv ≡ kv
      → e.event_type ≡ type
      → w.leaving ≡ none
      → (without_leaving (node_event c e w).leaving (node_event c e w).hash_ring
          ≡ change_ring kv type w.hash_ring)
        × ((node_event c e w).pending ≡ w.pending)
        × ((node_event c e w).nodes ≡ w.nodes)
  unfolding node_event on_ring
  node_event-ring e none type w h g l = rw (h, node_event, l) (refl, refl, refl)
  node_event-ring e (some kv) put_event w h g l = rw (h, node_event, g, l) (refl, refl, refl)
  node_event-ring e (some kv) delete_event w h g l = elim (Option-cases w.hash_ring) [
    | inl no_ring ↦ rw (h, node_event, g, no_ring) (refl, refl, refl)
    | inr (ring, at) ↦ rw (h, node_event, g, at) (refl, refl, refl)
  ]

  ring_to_come-node_event :
      (e : Event) (rest : List Event) (w : Watches c)
      → w.leaving ≡ none
      → w.pending ≡ e ∷ rest
      → ring_to_come (node_event c e (record w { pending = rest })) ≡ ring_to_come w
  ring_to_come-node_event e rest w l p =
      let (ring, pending, nodes) =
        node_event-ring e e.kv e.event_type (record w { pending = rest }) refl refl l in
      rw (ring, pending, nodes, p, l) refl

  NodesMove-ring_to_come :
      {w t : Watches c} → NodesMove w t → t.running ≡ true → ring_to_come t ≡ ring_to_come w
  NodesMove-ring_to_come (leaves node l e) r = rw (e, l) refl
  NodesMove-ring_to_come {w} (event ev rest l p e) r = rw e (ring_to_come-node_event ev rest w l p)
  NodesMove-ring_to_come (answer events rest l p n e) r = rw (e, p, l, n) refl
  NodesMove-ring_to_come (stop last rest x n e) r = absurd (ground arith)

  module _ (meta_json : Json BlockLocationMeta) (hex : Hex c.hex_encode) where
    BlocksMove-ring_to_come :
        {w t : Watches c}
        → BlocksMove c meta_json hex w t
        → t.running ≡ true
        → ring_to_come t ≡ ring_to_come w
    BlocksMove-ring_to_come (change events rest b e) r = rw e refl
    BlocksMove-ring_to_come (finish last rest x b e) r = absurd (ground arith)

    pub Step-ring_to_come :
        {w t : Watches c}
        → Step c meta_json hex w t
        → t.running ≡ true
        → ring_to_come t ≡ ring_to_come w
    Step-ring_to_come {w} {t} (blocks_first h) r =
        BlocksMove-ring_to_come (step_blocks-BlocksMove c meta_json hex w t h) r
    Step-ring_to_come {w} {t} (nodes_first h) r =
        NodesMove-ring_to_come (step_nodes-NodesMove w t h) r

    Step-running : {w t : Watches c} → Step c meta_json hex w t → w.running ≡ true
    unfolding step_blocks step_nodes
    Step-running {w} (blocks_first h) = ground arith
    Step-running {w} (nodes_first h) = ground arith

    Run-ring_to_come :
        {w : Watches c} {n : ℕ} {t : Watches c}
        → Run c meta_json hex w n t
        → t.running ≡ true
        → ring_to_come t ≡ ring_to_come w
    Run-ring_to_come here r = refl
    Run-ring_to_come (next run step) r =
        Step-ring_to_come step r ∙ Run-ring_to_come run (Step-running step)

    pub all_taken : (t : Watches c) → todo t ≡ 0 → ring_to_come t ≡ t.hash_ring
    all_taken t h =
        let (pending, nodes, leaving) = nothing t.pending t.nodes t.leaving (omega arith) in
        rw (pending, nodes, leaving) refl

    -- When a run from a state with nothing at hand has taken all that arrived and no watch has returned,
    -- the ring is the one after the events of the nodes, one after the other, whatever the events of
    -- the blocks were and in whatever order the two watches took turns.
    pub Run-ring :
        {w : Watches c} {n : ℕ} {t : Watches c}
        → Run c meta_json hex w n t
        → w.pending ≡ []
        → w.leaving ≡ none
        → t.running ≡ true
        → todo t ≡ 0
        → t.hash_ring ≡ ring_after (arriving w.nodes) w.hash_ring
    Run-ring {w} {n} {t} run p l r h =
        sym (all_taken t h) ∙ (Run-ring_to_come run r ∙ rw (p, l) refl)
