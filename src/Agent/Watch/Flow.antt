-- ===== src/Agent/Watch/Flow.antt =====
-- What one step of the watches of crates/cmx-agent/src/metadata.rs does while their streams stay open.
use cmx_rdma.Base.{
  ◌≡◌, ◌⊎◌, refl, ◌∙◌, inl, inr, Bool, true, false, none, List, ◌∷◌, ◌++◌, ◌||◌, All, arith,
  bytes_eq, if◌then◌else◌, Bytes,
}
use cmx_rdma.Agent.Crates.{Key, Crates}
use cmx_rdma.Agent.Etcd.{Event, Received, response}
use cmx_rdma.Agent.Codecs.{BlockLocationMeta, Json, Hex}
use cmx_rdma.Agent.Watch.{Watches}
use cmx_rdma.Agent.Watch.Runs.{
  is_response, NodesMove, leaves, event, answer, stop, step_nodes-NodesMove, BlocksMove, change,
  finish, step_blocks-BlocksMove, Step, blocks_first, nodes_first,
}
use cmx_rdma.Agent.Watch.Ring.{arriving}
use cmx_rdma.Agent.Watch.Cells.{
  removed, removes, cell, node_event-cell, cell_after, block_events-cell,
}

-- A stream that brings responses only.
abbrev pub IsOpen : List Received → Type 0
IsOpen = All (λ r. is_response r ≡ true)

module _ (c : Crates) (k : Key) (node : Bytes) where
  -- The events of the nodes that have arrived and are not taken yet.
  abbrev pub left : Watches c → List Event
  left w = w.pending ++ arriving w.nodes

  -- Both watches run, and their streams stay open.
  pub record Flows (w : Watches c) : Type 0 where
    pub running : w.running ≡ true
    pub blocks : IsOpen w.blocks
    pub nodes : IsOpen w.nodes

  -- A step of the watch of the nodes takes the cell away, or leaves it.
  pub record Effect (w t : Watches c) : Type 0 where
    pub gone : Bool
    pub left : removed node (left w) ≡ (gone || removed node (left t))
    pub cell : cell c k node t.remote_index ≡ (if gone then none else cell c k node w.remote_index)
    pub blocks : t.blocks ≡ w.blocks
    pub flows : Flows t

  NodesMove-Effect : {w t : Watches c} → NodesMove w t → Flows w → Effect w t
  NodesMove-Effect {w} (leaves n l e) f = rw e record {
    gone = false;
    left = refl;
    cell = refl;
    blocks = refl;
    flows = record { running = f.running; blocks = f.blocks; nodes = f.nodes };
  }
  NodesMove-Effect {w} (event ev rest l p e) f =
      let (at, pending, nodes, blocks, running) =
        node_event-cell c k node ev ev.kv ev.event_type (record w { pending = rest }) refl refl in
      rw e record {
        gone = removes node ev.kv ev.event_type;
        left = rw (pending, nodes, p) refl;
        cell = at;
        blocks = blocks;
        flows = record {
          running = running ∙ f.running;
          blocks = rw blocks f.blocks;
          nodes = rw nodes f.nodes;
        };
      }
  NodesMove-Effect {w} (answer events rest l p n e) f =
      let opened : IsOpen (response events ∷ rest) = rw n at f.nodes in
      rw e record {
        gone = false;
        left = rw (p, n) refl;
        cell = refl;
        blocks = refl;
        flows = record { running = f.running; blocks = f.blocks; nodes = opened.1 };
      }
  NodesMove-Effect {w} (stop last rest x n e) f =
      let opened : IsOpen (last ∷ rest) = rw n at f.nodes in absurd (ground (arith, opened.0))

  module _ (meta_json : Json BlockLocationMeta) (hex : Hex c.hex_encode) where
    -- A step of the watch of the blocks takes one response.
    pub record Taken (w t : Watches c) : Type 0 where
      pub events : List Event
      pub arrived : arriving w.blocks ≡ events ++ arriving t.blocks
      pub cell :
          cell c k node t.remote_index
          ≡ cell_after c k node meta_json hex events (cell c k node w.remote_index)
      pub left : left t ≡ left w
      pub flows : Flows t

    BlocksMove-Taken : {w t : Watches c} → BlocksMove c meta_json hex w t → Flows w → Taken w t
    BlocksMove-Taken {w} (change events rest b e) f =
        let opened : IsOpen (response events ∷ rest) = rw b at f.blocks in
        rw e record {
          events = events;
          arrived = rw b refl;
          cell = block_events-cell c k node meta_json hex events w.remote_index;
          left = refl;
          flows = record { running = f.running; blocks = opened.1; nodes = f.nodes };
        }
    BlocksMove-Taken {w} (finish last rest x b e) f =
        let opened : IsOpen (last ∷ rest) = rw b at f.blocks in absurd (ground (arith, opened.0))

    pub Step-cases : {w t : Watches c} → Step c meta_json hex w t → Flows w → Taken w t ⊎ Effect w t
    Step-cases {w} {t} (blocks_first h) f =
        inl (BlocksMove-Taken (step_blocks-BlocksMove c meta_json hex w t h) f)
    Step-cases {w} {t} (nodes_first h) f = inr (NodesMove-Effect (step_nodes-NodesMove w t h) f)
