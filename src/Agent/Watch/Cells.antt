-- ===== src/Agent/Watch/Cells.antt =====
-- One cell of the index of remote blocks, the block of one node under one key, and what the events of
-- crates/cmx-agent/src/metadata.rs mean for it.
use cmx_rdma.Base.{
  ◌++◌, ◌≡◌, refl, inl, inr, Bool, false, Option, none, some, List, [], ◌∷◌, ◌||◌, ◌&&◌, ◌>>=◌,
  Option-cases, arith, same, bytes_eq, if◌then◌else◌, Bytes, is_some,
}
use cmx_rdma.Agent.Crates.{Key, Crates}
use cmx_rdma.Agent.Etcd.{EventType, put_event, delete_event, KeyValue, Event}
use cmx_rdma.Agent.Codecs.{BlockLocationMeta, Json, Hex}
use cmx_rdma.Agent.Metadata.{to_info}
use cmx_rdma.Agent.RemoteIndex.{RemoteBlockInfo}
use cmx_rdma.Agent.RemoteIndex.Laws.{found, found-insert, found-remove, found-remove_node}
use cmx_rdma.Agent.Watch.{
  Watches, node_of, node_event, hash_of, block_change, block_event, block_events,
}

-- The event says that the node has left.
abbrev pub removes : Bytes → Option KeyValue → EventType → Bool
removes node none type = false
removes node (some kv) put_event = false
removes node (some kv) delete_event = same (node_of kv.key) node

-- Some event says that the node has left.
abbrev pub removed : Bytes → List Event → Bool
removed node [] = false
removed node (e ∷ rest) = removes node e.kv e.event_type || removed node rest

module _ (c : Crates) (k : Key) (node : Bytes) where
  abbrev pub cell : c.remotes.Map → Option RemoteBlockInfo
  cell m = found c.remotes k node m

  pub node_event-cell :
      (e : Event) (kv : Option KeyValue) (type : EventType) (w : Watches c)
      → e.kv ≡ kv
      → e.event_type ≡ type
      → (cell (node_event c e w).remote_index
          ≡ (if removes node kv type then none else cell w.remote_index))
        × ((node_event c e w).pending ≡ w.pending)
        × ((node_event c e w).nodes ≡ w.nodes)
        × ((node_event c e w).blocks ≡ w.blocks)
        × ((node_event c e w).running ≡ w.running)
  unfolding node_event
  node_event-cell e none type w h g = rw (h, node_event) (refl, refl, refl, refl, refl)
  node_event-cell e (some kv) put_event w h g = rw (h, node_event, g) (refl, refl, refl, refl, refl)
  node_event-cell e (some kv) delete_event w h g =
      rw (h, node_event, g)
        (found-remove_node c.remotes k (node_of kv.key) node w.remote_index, refl, refl, refl, refl)

  module _ (meta_json : Json BlockLocationMeta) (hex : Hex c.hex_encode) where
    -- The record that a value holds, if it is one of the node.
    abbrev pub of_node : Bytes → Option RemoteBlockInfo
    of_node value = meta_json.from_slice value >>= λ meta.
        if same meta.node_id node
        then some (record {
          node_id = meta.node_id;
          node_addr = meta.node_addr;
          offset = meta.offset;
          size = meta.size;
          generation = meta.generation;
        })
        else none

    -- The key of etcd names the key of the cell.
    abbrev pub names : Bytes → Bool
    names key = elim (hash_of c meta_json hex key) [ none ↦ false | some hash ↦ same hash k ]

    -- What one event of the blocks means for the cell.
    abbrev pub change_cell :
        Option KeyValue → EventType → Option RemoteBlockInfo → Option RemoteBlockInfo
    change_cell none type old = old
    change_cell (some kv) put_event old =
        if names kv.key then elim (of_node kv.value) [ none ↦ old | some info ↦ some info ] else old
    change_cell (some kv) delete_event old = if names kv.key then none else old

    abbrev pub cell_after : List Event → Option RemoteBlockInfo → Option RemoteBlockInfo
    cell_after [] old = old
    cell_after (e ∷ rest) old = cell_after rest (change_cell e.kv e.event_type old)

    -- Some event puts a block of the node under the key.
    abbrev pub publishes : Option KeyValue → EventType → Bool
    publishes none type = false
    publishes (some kv) put_event = names kv.key && is_some (of_node kv.value)
    publishes (some kv) delete_event = false

    abbrev pub published : List Event → Bool
    published [] = false
    published (e ∷ rest) = publishes e.kv e.event_type || published rest

    block_event-cell :
        (e : Event) (kv : Option KeyValue) (type : EventType) (m : c.remotes.Map)
        → e.kv ≡ kv
        → e.event_type ≡ type
        → cell (block_event c meta_json hex e m) ≡ change_cell kv type (cell m)
    unfolding block_event block_change to_info
    block_event-cell e none type m h g = rw (h, block_event) refl
    block_event-cell e (some kv) put_event m h g =
        elim (Option-cases (hash_of c meta_json hex kv.key)) [
          | inl no_hash ↦ ground (arith, h, g, no_hash)
          | inr (hash, at) ↦ elim (Option-cases (meta_json.from_slice kv.value)) [
            | inl no_meta ↦ ground (arith, h, g, no_meta)
            | inr (meta, read) ↦
                ground (arith, h, g, read, found-insert c.remotes hash k node (to_info meta) m)
          ]
        ]
    block_event-cell e (some kv) delete_event m h g =
        elim (Option-cases (hash_of c meta_json hex kv.key)) [
          | inl no_hash ↦ ground (arith, h, g, no_hash)
          | inr (hash, at) ↦ ground (arith, h, g, found-remove c.remotes hash k node m)
        ]

    pub cell_after-append :
        (es fs : List Event) (old : Option RemoteBlockInfo)
        → cell_after (es ++ fs) old ≡ cell_after fs (cell_after es old)
    cell_after-append [] fs old = refl
    cell_after-append (e ∷ es) fs old = cell_after-append es fs (change_cell e.kv e.event_type old)

    pub published-append :
        (es fs : List Event) → published (es ++ fs) ≡ (published es || published fs)
    published-append [] fs = refl
    published-append (e ∷ es) fs = ground (arith, published-append es fs)

    unpublished :
        (kv : Option KeyValue) (type : EventType)
        → publishes kv type ≡ false
        → change_cell kv type none ≡ none
    unpublished none type h = refl
    unpublished (some kv) put_event h = ground arith
    unpublished (some kv) delete_event h = ground arith

    -- A cell that no event fills stays empty.
    pub cell_after-none : (es : List Event) → published es ≡ false → cell_after es none ≡ none
    cell_after-none [] h = refl
    cell_after-none (e ∷ es) h =
        let quiet : change_cell e.kv e.event_type none ≡ none =
          unpublished e.kv e.event_type (ground arith) in
        rw quiet (cell_after-none es (ground arith))

    pub block_events-cell :
        (events : List Event) (m : c.remotes.Map)
        → cell (block_events c meta_json hex events m) ≡ cell_after events (cell m)
    unfolding block_events
    block_events-cell [] m = refl
    block_events-cell (e ∷ rest) m = ground (
      arith,
      block_event-cell e e.kv e.event_type m refl refl,
      block_events-cell rest (block_event c meta_json hex e m),
    )
