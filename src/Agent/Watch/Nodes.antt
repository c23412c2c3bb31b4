-- ===== src/Agent/Watch/Nodes.antt =====
-- How a node leaves, crates/cmx-agent/src/metadata.rs: first the index of remote blocks, then the ring.
use cmx_rdma.Base.{
  ap, ◌∙◌, ◌<◌, ◌≡◌, refl, true, none, some, List, ◌∷◌, ◌++◌, All, same, bytes_eq, if◌then◌else◌,
  Bytes, arith,
}
use cmx_rdma.Base.Affix.{strip_prefix}
use cmx_rdma.Agent.Crates.{Key, Crates}
use cmx_rdma.Agent.Etcd.{delete_event, Event}
use cmx_rdma.Agent.Metadata.{nodes_prefix}
use cmx_rdma.Agent.Placement
use cmx_rdma.Agent.Placement.{HashRing}
use cmx_rdma.Agent.RemoteIndex
use cmx_rdma.Agent.RemoteIndex.Laws.{found, found-remove_node}
use cmx_rdma.Agent.Watch.{Watches, on_ring, node_of, node_event, step_nodes}
use cmx_rdma.Agent.Watch.Blocks.{on_key, node_of-key}

module _ (c : Crates) where
  -- Between the two steps of an event that says that a node has left, the index of remote blocks is
  -- without the node and the ring still has it.
  abbrev pub half_left : Bytes → List Event → Watches c → Watches c
  half_left node rest w = record w {
    remote_index = RemoteIndex.remove_node c.remotes node w.remote_index;
    pending = rest;
    leaving = some node;
  }

  takes_next :
      (w : Watches c) (e : Event) (rest : List Event)
      → w.running ≡ true
      → w.leaving ≡ none
      → w.pending ≡ e ∷ rest
      → step_nodes c w ≡ some (node_event c e (record w { pending = rest }))
  unfolding step_nodes
  takes_next w e rest r l p = ground arith

  gone_from_index :
      (key value : Bytes) (node : Bytes) (w : Watches c) (ring : HashRing)
      → node_of key ≡ node
      → w.hash_ring ≡ some ring
      → node_event c (on_key delete_event key value) w ≡ half_left node w.pending w
  unfolding node_event
  gone_from_index key value node w ring named h = ground arith

  takes_lock :
      (w : Watches c) (node : Bytes) (ring : HashRing)
      → w.running ≡ true
      → w.leaving ≡ some node
      → w.hash_ring ≡ some ring
      → step_nodes c w
        ≡ some (record w { hash_ring = some (Placement.remove_node node ring); leaving = none })
  unfolding step_nodes on_ring
  takes_lock w node ring r l h = ground arith

  -- The event that a node has left takes two steps. After the first, the index of remote blocks has no
  -- block of that node and every other block, and the ring is as it was; the second, if the ring has not
  -- been changed meanwhile, takes the node out of the ring.
  pub leaves_in_two :
      (w : Watches c) (node value : Bytes) (rest : List Event) (ring : HashRing)
      → All (λ b. b < 0x80) node
      → strip_prefix nodes_prefix node ≡ none
      → w.running ≡ true
      → w.leaving ≡ none
      → w.pending ≡ on_key delete_event (nodes_prefix ++ node) value ∷ rest
      → w.hash_ring ≡ some ring
      → (t : Watches c) × (step_nodes c w ≡ some t)
        × ((k : Key) (other : Bytes)
            → found c.remotes k other t.remote_index
              ≡ (if same node other then none else found c.remotes k other w.remote_index))
        × (t.hash_ring ≡ some ring)
        × (step_nodes c t
            ≡ some
                (record t { hash_ring = some (Placement.remove_node node ring); leaving = none }))
  leaves_in_two w node value rest ring ascii apart r l p h =
      let named = node_of-key node ascii apart in
      (
        half_left node rest w,
        takes_next w (on_key delete_event (nodes_prefix ++ node) value) rest r l p
            ∙ ap some (
                gone_from_index (nodes_prefix ++ node) value node (record w { pending = rest }) ring
                  named h),
        λ k other. found-remove_node c.remotes k node other w.remote_index,
        h,
        takes_lock (half_left node rest w) node ring r refl h,
      )
