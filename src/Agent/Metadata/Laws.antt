-- ===== src/Agent/Metadata/Laws.antt =====
-- What the client of etcd, crates/cmx-agent/src/metadata.rs, writes it reads back.
use cmx_rdma.Base.{
  ◌≡◌, refl, ◌∙◌, sym, ap, inl, inr, true, Option, some, List, [], ◌∷◌, ◌++◌, arith, has, same,
  bytes_eq, Option-cases, Bool-cases, Bytes,
}
use cmx_rdma.Base.Affix.{strip_prefix-append}
use cmx_rdma.Agent.Crates.{Key}
use cmx_rdma.Agent.Etcd.{Etcd}
use cmx_rdma.Agent.Codecs.{NodeInfo, BlockLocationMeta, Json}
use cmx_rdma.Agent.RemoteIndex.{RemoteBlockInfo}
use cmx_rdma.Agent.Metadata.{
  ℕ, MetadataClient, blocks_prefix, nodes_prefix, to_info, or_empty, read_nodes, first_info,
  block_record, register_node, list_nodes, publish_block, lookup_block,
}

module _ (E : Etcd) where
  -- The block of this agent at an offset.
  abbrev pub own_block : MetadataClient E → (offset size generation : ℕ) → BlockLocationMeta
  own_block m offset size generation = record {
    node_id = m.node_id;
    node_addr = m.node_addr;
    offset = offset;
    size = size;
    generation = generation;
  }

  module _ (hex_encode : Bytes → Bytes) (meta_json : Json BlockLocationMeta) where
    -- A call of `publish_block` that succeeds has put the text of the block under its key.
    publish_block-put :
        (hash : Key) (offset size generation : ℕ) (m m' : MetadataClient E)
        → publish_block E hex_encode meta_json hash offset size generation m ≡ (some tt, m')
        → (value : Bytes) × (meta_json.to_string (own_block m offset size generation) ≡ some value)
          × (E.put (blocks_prefix ++ hex_encode hash) value m.lease_id m.client
              ≡ (some tt, m'.client))
    unfolding publish_block block_record
    publish_block-put hash offset size generation m m' h =
        elim (Option-cases (meta_json.to_string (own_block m offset size generation))) [
          | inl bad ↦ absurd (ground arith)
          | inr (value, good) ↦ (value, good, ground arith)
        ]

    lookup_block-get :
        (hash : Key) (found : Option RemoteBlockInfo) (m m' : MetadataClient E)
        → lookup_block E hex_encode meta_json hash m ≡ (some found, m')
        → (values : List Bytes) × (E.get (blocks_prefix ++ hex_encode hash) m.client
            ≡ (some values, m'.client))
          × (first_info meta_json values ≡ found)
    unfolding lookup_block
    lookup_block-get hash found m m' h =
        elim (Option-cases (E.get (blocks_prefix ++ hex_encode hash) m.client).0) [
          | inl bad ↦ absurd (ground arith)
          | inr (values, good) ↦ (values, ground arith, ground arith)
        ]

    first_info-written :
        (meta : BlockLocationMeta) (value : Bytes)
        → meta_json.to_string meta ≡ some value
        → first_info meta_json (value ∷ []) ≡ some (to_info meta)
    unfolding first_info to_info
    first_info-written meta value h =
        rw (meta_json.from_slice-to_string meta value h, first_info) refl

    -- A lookup that succeeds right after a publication that succeeded gives the location that was
    -- published, with the node and the address of the client.
    pub lookup_block-publish_block :
        (hash : Key) (offset size generation : ℕ) (m m' m'' : MetadataClient E)
        (found : Option RemoteBlockInfo)
        → publish_block E hex_encode meta_json hash offset size generation m ≡ (some tt, m')
        → lookup_block E hex_encode meta_json hash m' ≡ (some found, m'')
        → found ≡ some (to_info (own_block m offset size generation))
    lookup_block-publish_block hash offset size generation m m' m'' found p l =
        let (value, text, stored) = publish_block-put hash offset size generation m m' p in
        let (values, got, first) = lookup_block-get hash found m' m'' l in
        let one : values ≡ value ∷ [] =
          E.get-put (blocks_prefix ++ hex_encode hash) value m.lease_id m.client m'.client
            m''.client values stored got in
        sym first
        ∙ (ap (first_info meta_json) one
            ∙ first_info-written (own_block m offset size generation) value text)

  module _ (node_json : Json NodeInfo) where
    abbrev pub own_node : MetadataClient E → NodeInfo
    own_node m = record { node_id = m.node_id; addr = m.node_addr }

    register_node-put :
        (m m' : MetadataClient E) (value : Bytes)
        → node_json.to_string (own_node m) ≡ some value
        → register_node E node_json m ≡ (some tt, m')
        → (id : ℕ) × (client : E.Client) × (m'.lease_id ≡ some id)
          × (E.put (nodes_prefix ++ m.node_id) value (some id) client ≡ (some tt, m'.client))
    unfolding register_node or_empty
    register_node-put m m' value text h =
        elim (Option-cases (E.lease_grant m.lease_ttl m.client).0) [
          | inl bad ↦ absurd (ground arith)
          | inr (id, good) ↦
              (id, (E.lease_grant m.lease_ttl m.client).1, ground arith, ground arith)
        ]

    list_nodes-get :
        (nodes : List NodeInfo) (m m' : MetadataClient E)
        → list_nodes E node_json m ≡ (some nodes, m')
        → (values : List Bytes) × (E.get_prefix nodes_prefix m.client ≡ (some values, m'.client))
          × (read_nodes node_json values ≡ nodes)
    unfolding list_nodes
    list_nodes-get nodes m m' h = elim (Option-cases (E.get_prefix nodes_prefix m.client).0) [
      | inl bad ↦ absurd (ground arith)
      | inr (values, good) ↦ (values, ground arith, ground arith)
    ]

    -- The list has an element.
    abbrev pub IsListed : NodeInfo → List NodeInfo → Type 0
    IsListed info nodes = (before after : List NodeInfo) × (nodes ≡ before ++ info ∷ after)

    read_nodes-IsListed :
        (info : NodeInfo) (value : Bytes) (values : List Bytes)
        → node_json.from_slice value ≡ some info
        → has value values ≡ true
        → IsListed info (read_nodes node_json values)
    unfolding read_nodes
    read_nodes-IsListed info value [] text h = absurd (ground arith)
    read_nodes-IsListed info value (v ∷ vs) text h = elim (Bool-cases (same v value)) [
      | inl here ↦
          let same_text : node_json.from_slice v ≡ some info = ground arith in
          ([], read_nodes node_json vs, rw (same_text, read_nodes) refl)
      | inr there ↦
          let (before, after, e) = read_nodes-IsListed info value vs text (ground arith) in
          elim (Option-cases (node_json.from_slice v)) [
            | inl bad ↦ (before, after, rw (bad, read_nodes) e)
            | inr (other, good) ↦ (other ∷ before, after, rw (good, read_nodes) (ap (◌∷◌ other) e))
          ]
    ]

    -- A node that has registered is listed by a call of `list_nodes` that succeeds right after.
    pub list_nodes-register_node :
        (m m' m'' : MetadataClient E) (value : Bytes) (nodes : List NodeInfo)
        → node_json.to_string (own_node m) ≡ some value
        → register_node E node_json m ≡ (some tt, m')
        → list_nodes E node_json m' ≡ (some nodes, m'')
        → IsListed (own_node m) nodes
    list_nodes-register_node m m' m'' value nodes text r l =
        let (id, client, leased, stored) = register_node-put m m' value text r in
        let (values, got, read) = list_nodes-get nodes m' m'' l in
        let there : has value values ≡ true =
          E.get_prefix-put nodes_prefix (nodes_prefix ++ m.node_id) m.node_id value (some id) client
            m'.client m''.client values stored (strip_prefix-append nodes_prefix m.node_id) got in
        rw (sym read) (
          read_nodes-IsListed (own_node m) value values
            (node_json.from_slice-to_string (own_node m) value text) there)
