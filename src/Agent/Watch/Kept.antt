-- ===== src/Agent/Watch/Kept.antt =====
-- What every interleaving of the two watches of crates/cmx-agent/src/metadata.rs keeps.
use cmx_rdma.Base.{
  ℕ, ◌≡◌, refl, none, some, Option, List, [], ◌∷◌, Option-cases, inl, inr, same, bytes_eq, Bytes,
}
use cmx_rdma.Agent.Crates.{Key, Crates}
use cmx_rdma.Agent.Etcd.{KeyValue, Event, EventType, put_event, delete_event}
use cmx_rdma.Agent.Codecs.{BlockLocationMeta, Json, Hex}
use cmx_rdma.Agent.Metadata.{to_info}
use cmx_rdma.Agent.Placement
use cmx_rdma.Agent.Placement.{HashRing}
use cmx_rdma.Agent.Placement.Order.{IsRing, add_node-IsRing, remove_node-IsRing}
use cmx_rdma.Agent.RemoteIndex.{lookup, remove}
use cmx_rdma.Agent.RemoteIndex.Laws.{IsRemote, IsEntry-if, insert-IsRemote, remove_node-IsRemote}
use cmx_rdma.Agent.Watch.{
  Watches, on_ring, node_of, node_event, hash_of, block_change, block_event, block_events,
}
use cmx_rdma.Agent.Watch.Runs.{
  NodesMove, leaves, event, answer, stop, step_nodes-NodesMove, BlocksMove, change, finish,
  step_blocks-BlocksMove, Step, blocks_first, nodes_first, Run, here, next,
}

module _ (c : Crates) (meta_json : Json BlockLocationMeta) (hex : Hex c.hex_encode) where
  abbrev pub IsOnRing : Option HashRing → Type 0
  IsOnRing none = Unit {0}
  IsOnRing (some r) = IsRing r

  -- The index of remote blocks and the ring satisfy their invariants.
  abbrev pub IsWatching : Watches c → Type 0
  IsWatching w = IsRemote c.remotes w.remote_index × IsOnRing w.hash_ring

  on_ring-IsOnRing :
      (f : HashRing → HashRing) (ring : Option HashRing)
      → ((r : HashRing) → IsRing r → IsRing (f r))
      → IsOnRing ring
      → IsOnRing (on_ring c f ring)
  unfolding on_ring
  on_ring-IsOnRing f none h v = tt
  on_ring-IsOnRing f (some r) h v = h r v

  remove-IsRemote :
      (k : Key) (m : c.remotes.Map)
      → IsRemote c.remotes m
      → IsRemote c.remotes (remove c.remotes k m)
  unfolding lookup remove
  remove-IsRemote k m v j =
      rw (c.remotes.get-remove k j m) (IsEntry-if (same k j) none (c.remotes.get j m) tt (v j))

  block_change-IsRemote :
      (hash : Key) (value : Bytes) (type : EventType) (m : c.remotes.Map)
      → IsRemote c.remotes m
      → IsRemote c.remotes (block_change c meta_json hex hash value type m)
  unfolding block_change
  block_change-IsRemote hash value delete_event m v = remove-IsRemote hash m v
  block_change-IsRemote hash value put_event m v =
      elim (Option-cases (meta_json.from_slice value)) [
        | inl bad ↦ rw (bad, block_change) v
        | inr (meta, good) ↦
            rw (good, block_change) (insert-IsRemote c.remotes hash (to_info meta) m v)
      ]

  keyed-IsRemote :
      (kv : KeyValue) (type : EventType) (m : c.remotes.Map)
      → IsRemote c.remotes m
      → IsRemote c.remotes
          (block_event c meta_json hex (record { kv = some kv; event_type = type }) m)
  unfolding block_event
  keyed-IsRemote kv type m v = elim (Option-cases (hash_of c meta_json hex kv.key)) [
    | inl bad ↦ rw (bad, block_event) v
    | inr (hash, good) ↦ rw (good, block_event) (block_change-IsRemote hash kv.value type m v)
  ]

  pub block_event-IsRemote :
      (e : Event) (m : c.remotes.Map)
      → IsRemote c.remotes m
      → IsRemote c.remotes (block_event c meta_json hex e m)
  unfolding block_event
  block_event-IsRemote e m v = elim (Option-cases e.kv) [
    | inl bad ↦ rw (bad, block_event) v
    | inr (kv, good) ↦ rw (good, block_event) (keyed-IsRemote kv e.event_type m v)
  ]

  block_events-IsRemote :
      (es : List Event) (m : c.remotes.Map)
      → IsRemote c.remotes m
      → IsRemote c.remotes (block_events c meta_json hex es m)
  unfolding block_events
  block_events-IsRemote [] m v = v
  block_events-IsRemote (e ∷ es) m v =
      block_events-IsRemote es (block_event c meta_json hex e m) (block_event-IsRemote e m v)

  node_event-IsWatching :
      (e : Event) (kv : Option KeyValue) (type : EventType) (w : Watches c)
      → e.kv ≡ kv
      → e.event_type ≡ type
      → IsWatching w
      → IsWatching (node_event c e w)
  unfolding node_event
  node_event-IsWatching e none type w h g v = rw (h, node_event) v
  node_event-IsWatching e (some kv) put_event w h g (m, r) =
      rw (h, node_event, g)
        (
          m,
          on_ring-IsOnRing (Placement.add_node c.sha256 (node_of kv.key)) w.hash_ring
              (add_node-IsRing c.sha256 (node_of kv.key)) r,
        )
  node_event-IsWatching e (some kv) delete_event w h g (m, r) =
      rw (h, node_event, g) (remove_node-IsRemote c.remotes (node_of kv.key) w.remote_index m, r)

  NodesMove-IsWatching : {w t : Watches c} → NodesMove w t → IsWatching w → IsWatching t
  NodesMove-IsWatching {w} (leaves node l e) (m, r) =
      rw e
        (m, on_ring-IsOnRing (Placement.remove_node node) w.hash_ring (remove_node-IsRing node) r)
  NodesMove-IsWatching {w} (event ev rest l p e) v =
      rw e (node_event-IsWatching ev ev.kv ev.event_type (record w { pending = rest }) refl refl v)
  NodesMove-IsWatching (answer events rest l p n e) v = rw e v
  NodesMove-IsWatching (stop last rest x n e) v = rw e v

  BlocksMove-IsWatching :
      {w t : Watches c} → BlocksMove c meta_json hex w t → IsWatching w → IsWatching t
  BlocksMove-IsWatching {w} (change events rest b e) (m, r) =
      rw e (block_events-IsRemote events w.remote_index m, r)
  BlocksMove-IsWatching (finish last rest x b e) v = rw e v

  Step-IsWatching : {w t : Watches c} → Step c meta_json hex w t → IsWatching w → IsWatching t
  Step-IsWatching {w} {t} (blocks_first h) v =
      BlocksMove-IsWatching (step_blocks-BlocksMove c meta_json hex w t h) v
  Step-IsWatching {w} {t} (nodes_first h) v = NodesMove-IsWatching (step_nodes-NodesMove w t h) v

  -- However the steps of the two watches interleave, the index of remote blocks keeps at least one
  -- block, and at most one of each node, under every key that it knows, and the ring stays sorted with
  -- no node that was not added.
  pub Run-IsWatching :
      {w : Watches c} {n : ℕ} {t : Watches c}
      → Run c meta_json hex w n t
      → IsWatching w
      → IsWatching t
  Run-IsWatching here v = v
  Run-IsWatching (next run step) v = Step-IsWatching step (Run-IsWatching run v)
