-- ===== src/Tests/WatchRuns.antt =====
-- Runs of the watches.
use cmx_rdma.Base.{
  false, ℕ, ◌≡◌, refl, true, none, some, [], ◌∷◌, ◌++◌, arith, bytes_eq, same, if◌then◌else◌, Bytes,
}
use cmx_rdma.Base.Outcome.{done}
use cmx_rdma.BlockStore.Index.{BlockIndex}
use cmx_rdma.Base.Affix.{strip_prefix}
use cmx_rdma.Agent.Crates.{Key}
use cmx_rdma.Agent.Etcd.{Event, put_event, delete_event, response}
use cmx_rdma.Agent.Codecs.{BlockLocationMeta}
use cmx_rdma.Agent.Metadata.{nodes_prefix, blocks_prefix, to_info, block_record}
use cmx_rdma.Agent.Placement
use cmx_rdma.Agent.Placement.{HashRing}
use cmx_rdma.Agent.RemoteIndex
use cmx_rdma.Agent.RemoteIndex.{RemoteBlockInfo}
use cmx_rdma.Agent.RemoteIndex.Laws.{found}
use cmx_rdma.Agent.Service.{Service, ok, hit, composite_key}
use cmx_rdma.Agent.Grpc.Lookup.{lookup}
use cmx_rdma.Agent.Grpc.Looked
use cmx_rdma.Agent.Watch.{
  hash_of, node_of, node_event, block_events, on_ring, Watches, block_event, step_nodes,
  step_blocks,
}
use cmx_rdma.Agent.Watch.Runs.{blocks_first, nodes_first, Run, here, next}
use cmx_rdma.Agent.Watch.Kept.{IsWatching, Run-IsWatching}
use cmx_rdma.Agent.Watch.Ends.{todo}
use cmx_rdma.Agent.Watch.Cells.{removed, published, cell_after}
use cmx_rdma.Agent.Watch.Converges.{Run-converges, Run-forgets}
use cmx_rdma.Agent.Watch.Ring.{arriving, ring_after, Run-ring}
use cmx_rdma.Agent.Watch.Blocks.{on_key, block_event-deleted}
use cmx_rdma.Agent.Watch.Nodes.{half_left, leaves_in_two}
use cmx_rdma.Agent.Watch.Sharing.{lookup-published}
use cmx_rdma.Tests.Data.{crates}
use cmx_rdma.Tests.HexDigits.{to_hex, hex}
use cmx_rdma.Tests.Cluster.{meta_json}
use cmx_rdma.Tests.AgentRuns.{two_nodes, two_nodes-IsRing, node_a, node_b}
use cmx_rdma.Tests.ServiceRuns.{hash, other_hash, service, service-IsIndex}

-- A block of the node `a`.
abbrev block_meta : BlockLocationMeta
block_meta = record {
  node_id = node_a;
  node_addr = 49 ∷ [];
  offset = 32;
  size = 32;
  generation = 1;
}

abbrev block_key : Bytes
block_key = blocks_prefix ++ to_hex other_hash

abbrev block_value : Bytes
block_value = 1 ∷ 32 ∷ 32 ∷ 1 ∷ 97 ∷ 49 ∷ []

recorded :
    block_record meta_json to_hex node_a (49 ∷ []) other_hash 32 32 1
    ≡ some (block_key, block_value)
unfolding block_record
recorded = refl

block_event-deleted_example :
    found crates.remotes other_hash node_a
      (block_event crates meta_json hex (on_key delete_event block_key []) crates.remotes.empty)
    ≡ (if same other_hash other_hash
        then none
        else found crates.remotes other_hash node_a crates.remotes.empty)
block_event-deleted_example =
    block_event-deleted crates meta_json hex other_hash [] crates.remotes.empty refl (ground arith)
      other_hash node_a

-- The index of remote blocks at first has nothing, the ring two nodes; a block is published, and then the
-- node `b` leaves.
abbrev leave : Event
leave = on_key delete_event (nodes_prefix ++ node_b) []

abbrev watches : Watches crates
watches = record {
  remote_index = crates.remotes.empty;
  hash_ring = some two_nodes;
  blocks = response (on_key put_event block_key block_value ∷ []) ∷ [];
  nodes = response (leave ∷ []) ∷ [];
  pending = [];
  leaving = none;
  running = true;
}

abbrev announced : Watches crates
announced = record watches { nodes = []; pending = leave ∷ [] }

reads_response : step_nodes crates watches ≡ some announced
unfolding step_nodes
reads_response = refl

one_step : Run crates meta_json hex watches 1 announced
one_step = next here (nodes_first reads_response)

watches-IsWatching : IsWatching crates meta_json hex watches
unfolding RemoteIndex.lookup
watches-IsWatching = (λ k. tt, two_nodes-IsRing)

Run-IsWatching_example : IsWatching crates meta_json hex announced
Run-IsWatching_example = Run-IsWatching crates meta_json hex one_step watches-IsWatching

others_stay : removed node_a (arriving watches.nodes) ≡ false
unfolding node_of
others_stay = ground arith

b_leaves : removed node_b (arriving watches.nodes) ≡ true
unfolding node_of
b_leaves = ground arith

b_is_silent : published crates other_hash node_b meta_json hex (arriving watches.blocks) ≡ false
unfolding hash_of
b_is_silent = ground arith

Run-converges_example :
    (m : ℕ) × (t : Watches crates) × Run crates meta_json hex announced m t
    × (todo t ≡ 0)
    × (t.running ≡ true)
    × (t.hash_ring ≡ ring_after crates (arriving watches.nodes) watches.hash_ring)
    × (found crates.remotes other_hash node_a t.remote_index
        ≡ cell_after crates other_hash node_a meta_json hex
            (arriving watches.blocks)
            (found crates.remotes other_hash node_a watches.remote_index))
Run-converges_example =
    Run-converges crates other_hash node_a meta_json hex one_step refl refl refl (refl, tt)
      (refl, tt) others_stay

Run-forgets_example :
    (m : ℕ) × (t : Watches crates) × Run crates meta_json hex announced m t
    × (todo t ≡ 0)
    × (t.running ≡ true)
    × (found crates.remotes other_hash node_b t.remote_index ≡ none)
Run-forgets_example =
    Run-forgets crates other_hash node_b meta_json hex one_step refl refl refl (refl, tt) (refl, tt)
      b_leaves b_is_silent

leaves_in_two_example :
    (t : Watches crates) × (step_nodes crates announced ≡ some t)
    × ((k : Key) (other : Bytes)
        → found crates.remotes k other t.remote_index ≡ (
            if same node_b other
            then none
            else found crates.remotes k other announced.remote_index))
    × (t.hash_ring ≡ some two_nodes)
    × (step_nodes crates t
        ≡ some (record t {
          hash_ring = some (Placement.remove_node node_b two_nodes);
          leaving = none;
        }))
unfolding strip_prefix
leaves_in_two_example =
    leaves_in_two crates announced node_b [] [] two_nodes (omega arith, tt) refl refl refl refl refl

lookup-published_example :
    (index : BlockIndex crates.entries) × (let known =
        block_event crates meta_json hex
          (on_key put_event block_key block_value)
          crates.remotes.empty in
      let s' : Service crates = record service { remote_index = some known } in
      lookup crates (record { prefix_hash = other_hash; model_id = [] }) s'
      ≡ done
          (ok (Looked.response crates none (some (to_info block_meta)) service.node_id))
          (hit (record s' { index = index })))
unfolding composite_key RemoteIndex.lookup
lookup-published_example =
    lookup-published crates meta_json hex block_meta block_key block_value
      (record { prefix_hash = other_hash; model_id = [] }) service crates.remotes.empty
      (hash ∷ [], service-IsIndex) refl refl (ground arith) recorded (ground arith) refl

-- The four steps of a run: the watch of the nodes reads its response and takes the node out of the index, the
-- watch of the blocks takes its response, and the watch of the nodes takes the node out of the ring.
abbrev half : Watches crates
half = half_left crates node_b [] announced

leaves_index : step_nodes crates announced ≡ some half
unfolding step_nodes node_event node_of
leaves_index = refl

abbrev between : Watches crates
between = record half {
  blocks = [];
  remote_index =
      block_events crates meta_json hex (on_key put_event block_key block_value ∷ [])
        half.remote_index;
}

takes_block : step_blocks crates meta_json hex half ≡ some between
unfolding step_blocks
takes_block = refl

abbrev last : Watches crates
last = record between { hash_ring = some (Placement.remove_node node_b two_nodes); leaving = none }

leaves_ring : step_nodes crates between ≡ some last
unfolding step_nodes on_ring
leaves_ring = refl

Run-ring_example :
    last.hash_ring ≡ ring_after crates (arriving (response (leave ∷ []) ∷ [])) (some two_nodes)
Run-ring_example =
    Run-ring crates meta_json hex
      (next (next (next one_step (nodes_first leaves_index)) (blocks_first takes_block))
        (nodes_first leaves_ring))
      refl refl refl refl
