-- ===== src/Agent/Metadata.antt =====
-- The client of etcd, crates/cmx-agent/src/metadata.rs. `none` stands for an error, whose message is
-- left out. The locks around the connection and the lease are taken by one call at a time.
pub mod Laws
use cmx_rdma.Base.{
  ℕ, ◌/◌, ◌^◌, max, Option, none, some, List, [], ◌∷◌, ◌++◌, ltb, if◌then◌else◌, codes, Bytes,
}
use cmx_rdma.Agent.Crates.{Key}
use cmx_rdma.Agent.Etcd.{Etcd}
use cmx_rdma.Agent.Codecs.{NodeInfo, BlockLocationMeta, Json}
use cmx_rdma.Agent.RemoteIndex.{RemoteBlockInfo}

abbrev pub blocks_prefix : Bytes
blocks_prefix = codes "/cmx/blocks/"

abbrev pub nodes_prefix : Bytes
nodes_prefix = codes "/cmx/nodes/"

-- `lease_ttl` is an `i64`, written as its 64 bits.
pub record MetadataClient (E : Etcd) : Type 0 where
  pub client : E.Client
  pub lease_id : Option ℕ
  pub node_id : Bytes
  pub node_addr : Bytes
  pub lease_ttl : ℕ

-- `(ttl / 3).max(1)` on `i64`: the quotient of a negative number is 0 or negative.
unfoldable pub interval : ℕ → ℕ
interval ttl = if ltb ttl (2 ^ 63) then max (ttl / 3) 1 else 1

-- The block that a value of etcd describes.
unfoldable pub to_info : BlockLocationMeta → RemoteBlockInfo
to_info meta = record {
  node_id = meta.node_id;
  node_addr = meta.node_addr;
  offset = meta.offset;
  size = meta.size;
  generation = meta.generation;
}

-- `unwrap_or_default` on a text
unfoldable pub or_empty : Option Bytes → Bytes
or_empty none = []
or_empty (some text) = text

module _ (node_json : Json NodeInfo) where
  -- The values that can be read.
  unfoldable pub read_nodes : List Bytes → List NodeInfo
  read_nodes [] = []
  read_nodes (v ∷ vs) = elim (node_json.from_slice v) [
    | none ↦ read_nodes vs
    | some info ↦ info ∷ read_nodes vs
  ]

module _ (meta_json : Json BlockLocationMeta) where
  -- The first value, when it can be read.
  unfoldable pub first_info : List Bytes → Option RemoteBlockInfo
  unfolding to_info
  first_info [] = none
  first_info (v ∷ _) = elim (meta_json.from_slice v) [
    | none ↦ none
    | some meta ↦ some (to_info meta)
  ]

  module _ (hex_encode : Bytes → Bytes) where
    -- What `publish_block` puts: a key and a value.
    unfoldable pub block_record :
        (node_id node_addr : Bytes) → Key → (offset size generation : ℕ) → Option (Bytes × Bytes)
    block_record node_id node_addr prefix_hash offset size generation =
        elim (meta_json.to_string (record {
          node_id = node_id;
          node_addr = node_addr;
          offset = offset;
          size = size;
          generation = generation;
        })) [ none ↦ none | some value ↦ some (blocks_prefix ++ hex_encode prefix_hash, value) ]

module _ (E : Etcd) where
  unfoldable pub connect :
      (endpoints : List Bytes)
      → (node_id node_addr : Bytes) → (lease_ttl : ℕ) → Option (MetadataClient E)
  connect endpoints node_id node_addr lease_ttl = elim (E.connect endpoints) [
    | none ↦ none
    | some client ↦ some (record {
      client = client;
      lease_id = none;
      node_id = node_id;
      node_addr = node_addr;
      lease_ttl = lease_ttl;
    })
  ]

  -- Starts the task that keeps the lease alive, which the client's interval is for: the result is the
  -- lease and the interval in seconds.
  unfoldable pub start_keepalive : MetadataClient E → Option (ℕ × ℕ) × MetadataClient E
  unfolding interval
  start_keepalive m = elim m.lease_id [
    | none ↦ (none, m)
    | some id ↦
        let (started, client) = E.lease_keep_alive id m.client in
        let m' = record m { client = client } in
        elim started [ none ↦ (none, m') | some _ ↦ (some (id, interval m.lease_ttl), m') ]
  ]

  -- The two watches that `start_block_watch` opens before it spawns their task.
  unfoldable pub start_block_watch : MetadataClient E → Option (Unit {0}) × MetadataClient E
  start_block_watch m =
      let (blocks, client) = E.watch blocks_prefix m.client in
      elim blocks [
        | none ↦ (none, record m { client = client })
        | some _ ↦
            let (nodes, client') = E.watch nodes_prefix client in
            (nodes, record m { client = client' })
      ]

  unfoldable pub revoke_lease : MetadataClient E → Option (Unit {0}) × MetadataClient E
  revoke_lease m = elim m.lease_id [
    | none ↦ (some tt, m)
    | some id ↦
        let (revoked, client) = E.lease_revoke id m.client in
        (revoked, record m { client = client })
  ]

  module _ (node_json : Json NodeInfo) where
    unfoldable pub register_node : MetadataClient E → Option (Unit {0}) × MetadataClient E
    unfolding or_empty
    register_node m =
        let (lease, client) = E.lease_grant m.lease_ttl m.client in
        elim lease [
          | none ↦ (none, record m { client = client })
          | some id ↦
              let value =
                or_empty
                  (node_json.to_string (record { node_id = m.node_id; addr = m.node_addr })) in
              let (stored, client') = E.put (nodes_prefix ++ m.node_id) value (some id) client in
              (stored, record m { client = client'; lease_id = some id })
        ]

    unfoldable pub list_nodes : MetadataClient E → Option (List NodeInfo) × MetadataClient E
    unfolding read_nodes
    list_nodes m =
        let (found, client) = E.get_prefix nodes_prefix m.client in
        let m' = record m { client = client } in
        elim found [ none ↦ (none, m') | some values ↦ (some (read_nodes node_json values), m') ]

  module _ (hex_encode : Bytes → Bytes) (meta_json : Json BlockLocationMeta) where
    unfoldable pub publish_block :
        Key → (offset size generation : ℕ) → MetadataClient E → Option (Unit {0}) × MetadataClient E
    unfolding block_record
    publish_block prefix_hash offset size generation m =
        elim (block_record meta_json hex_encode m.node_id m.node_addr prefix_hash offset size
          generation) [
            | none ↦ (none, m)
            | some (key, value) ↦
                let (stored, client) = E.put key value m.lease_id m.client in
                (stored, record m { client = client })
          ]

    unfoldable pub lookup_block :
        Key → MetadataClient E → Option (Option RemoteBlockInfo) × MetadataClient E
    unfolding first_info
    lookup_block prefix_hash m =
        let (found, client) = E.get (blocks_prefix ++ hex_encode prefix_hash) m.client in
        let m' = record m { client = client } in
        elim found [ none ↦ (none, m') | some values ↦ (some (first_info meta_json values), m') ]
