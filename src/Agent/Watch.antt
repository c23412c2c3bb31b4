-- ===== src/Agent/Watch.antt =====
-- The tasks of crates/cmx-agent/src/metadata.rs that run in the background: the two watches and the
-- loop that keeps the lease alive. The streams are lists of what they give, the next first.
pub mod Runs
pub mod Alive
pub mod Kept
pub mod Ends
pub mod Ring
pub mod Blocks
pub mod Nodes
pub mod Sharing
pub mod Cells
pub mod Flow
pub mod Converges
use cmx_rdma.Base.{
  not, ℕ, zero, suc, ◌+◌, Bool, true, false, Option, none, some, List, [], ◌∷◌, ◌==◌, if◌then◌else◌,
  length, codes, bytes_eq, Bytes,
}
use cmx_rdma.Base.Utf8.{from_utf8_lossy}
use cmx_rdma.Base.Affix.{trim_start_matches}
use cmx_rdma.Agent.Crates.{Key, Crates}
use cmx_rdma.Agent.Etcd.{
  KeyValue, Event, EventType, put_event, delete_event, Received, response, ended, failed,
}
use cmx_rdma.Agent.Codecs.{BlockLocationMeta, Json, Hex}
use cmx_rdma.Agent.Metadata.{blocks_prefix, nodes_prefix, to_info}
use cmx_rdma.Agent.Placement
use cmx_rdma.Agent.Placement.{HashRing}
use cmx_rdma.Agent.RemoteIndex
use cmx_rdma.Agent.RemoteIndex.{RemoteBlockInfo}

-- What one round of `keepalive_loop` meets: the request fails, an answer with a time to live, the end
-- of the stream, or an error of it.
pub data Round : Type 0 where
  refused : Round
  answered : (ttl : ℕ) → Round
  stream_ended : Round
  stream_failed : Round

-- Why `keepalive_loop` returns.
pub data Stopped : Type 0 where
  request_failed : Stopped
  lease_expired : Stopped
  no_more_answers : Stopped
  answer_failed : Stopped

-- Why the loop has returned, if it has, and how often it has slept.
unfoldable pub keepalive_loop : List Round → Option Stopped × ℕ
keepalive_loop [] = (none, 0)
keepalive_loop (refused ∷ rest) = (some request_failed, 1)
keepalive_loop (answered ttl ∷ rest) =
    let (stopped, sleeps) = keepalive_loop rest in
    if ttl == 0 then (some lease_expired, 1) else (stopped, suc sleeps)
keepalive_loop (stream_ended ∷ rest) = (some no_more_answers, 1)
keepalive_loop (stream_failed ∷ rest) = (some answer_failed, 1)

-- The node of a key like `/cmx/nodes/<node>`.
unfoldable pub node_of : Bytes → Bytes
unfolding from_utf8_lossy trim_start_matches
node_of key = trim_start_matches nodes_prefix (from_utf8_lossy key)

module _ (c : Crates) where
  -- The state that the two watches share, what their streams still hold, and how far the watch of the
  -- nodes is: the rest of the response at hand, and the node that it has removed from the index and
  -- will remove from the ring, if there is one, once it has the lock. `running` ends with the first watch that returns.
  pub record Watches : Type 0 where
    pub remote_index : c.remotes.Map
    pub hash_ring : Option HashRing
    pub blocks : List Received
    pub nodes : List Received
    pub pending : List Event
    pub leaving : Option Bytes
    pub running : Bool

  -- `None` leaves the ring out.
  unfoldable pub on_ring : (HashRing → HashRing) → Option HashRing → Option HashRing
  on_ring f none = none
  on_ring f (some ring) = some (f ring)

  -- An event of the watch of the nodes, up to the point where it waits for the lock.
  unfoldable pub node_event : Event → Watches → Watches
  unfolding node_of on_ring Placement.add_node RemoteIndex.remove_node
  node_event event w = elim event.kv [
    | none ↦ w
    | some kv ↦ elim event.event_type [
      | put_event ↦ record w {
        hash_ring = on_ring (Placement.add_node c.sha256 (node_of kv.key)) w.hash_ring;
      }
      | delete_event ↦ record w {
        remote_index = RemoteIndex.remove_node c.remotes (node_of kv.key) w.remote_index;
        leaving = elim w.hash_ring [ none ↦ none | some _ ↦ some (node_of kv.key) ];
      }
    ]
  ]

  -- A step of the watch of the nodes, when it can make one.
  unfoldable pub step_nodes : Watches → Option Watches
  unfolding node_event on_ring Placement.remove_node
  step_nodes w = if not w.running then none else elim w.leaving [
    | some node ↦
        some (record w {
          hash_ring = on_ring (Placement.remove_node node) w.hash_ring;
          leaving = none;
        })
    | none ↦ elim w.pending [
      | event ∷ rest ↦ some (node_event event (record w { pending = rest }))
      | [] ↦ elim w.nodes [
        | [] ↦ none
        | response events ∷ rest ↦ some (record w { nodes = rest; pending = events })
        | ended ∷ rest ↦ some (record w { nodes = rest; running = false })
        | failed ∷ rest ↦ some (record w { nodes = rest; running = false })
      ]
    ]
  ]

  module _ (meta_json : Json BlockLocationMeta) (hex : Hex c.hex_encode) where
    -- The prefix hash of a key like `/cmx/blocks/<hex>`.
    unfoldable pub hash_of : Bytes → Option Key
    unfolding from_utf8_lossy trim_start_matches
    hash_of key = elim (hex.decode (trim_start_matches blocks_prefix (from_utf8_lossy key))) [
      | none ↦ none
      | some b ↦ if length b == 16 then some b else none
    ]

    unfoldable pub block_change : Key → Bytes → EventType → c.remotes.Map → c.remotes.Map
    unfolding to_info RemoteIndex.insert RemoteIndex.remove
    block_change hash value put_event m = elim (meta_json.from_slice value) [
      | none ↦ m
      | some meta ↦ RemoteIndex.insert c.remotes hash (to_info meta) m
    ]
    block_change hash value delete_event m = RemoteIndex.remove c.remotes hash m

    unfoldable pub block_event : Event → c.remotes.Map → c.remotes.Map
    unfolding hash_of block_change
    block_event event m = elim event.kv [
      | none ↦ m
      | some kv ↦ elim (hash_of kv.key) [
        | none ↦ m
        | some hash ↦ block_change hash kv.value event.event_type m
      ]
    ]

    -- The events of one response, which no lock interrupts.
    unfoldable pub block_events : List Event → c.remotes.Map → c.remotes.Map
    unfolding block_event
    block_events [] m = m
    block_events (event ∷ rest) m = block_events rest (block_event event m)

    -- A step of the watch of the blocks, when it can make one.
    unfoldable pub step_blocks : Watches → Option Watches
    unfolding block_events
    step_blocks w = if not w.running then none else elim w.blocks [
      | [] ↦ none
      | response events ∷ rest ↦
          some (record w { blocks = rest; remote_index = block_events events w.remote_index })
      | ended ∷ rest ↦ some (record w { blocks = rest; running = false })
      | failed ∷ rest ↦ some (record w { blocks = rest; running = false })
    ]
