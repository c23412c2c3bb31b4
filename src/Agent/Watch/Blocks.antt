-- ===== src/Agent/Watch/Blocks.antt =====
-- What an event of etcd changes in the index of remote blocks, crates/cmx-agent/src/metadata.rs.
use cmx_rdma.Base.{
  inr, inl, sym, Option-cases, if_true, ℕ, ◌<◌, ◌≡◌, refl, ◌∙◌, ap, true, none, some, [], ◌∷◌, ◌++◌,
  arith, All, length, same, bytes_eq, if◌then◌else◌, ◌==◌, Bytes,
}
use cmx_rdma.Base.Utf8.{from_utf8_lossy, from_utf8_lossy-ascii}
use cmx_rdma.Base.Affix.{strip_prefix, trim_start_matches, trim_start_matches-append}
use cmx_rdma.Agent.Crates.{Key, Crates}
use cmx_rdma.Agent.Etcd.{EventType, put_event, delete_event, Event}
use cmx_rdma.Agent.Codecs.{BlockLocationMeta, Json, Hex, is_hex_digit}
use cmx_rdma.Agent.Metadata.{blocks_prefix, nodes_prefix, to_info, block_record}
use cmx_rdma.Agent.RemoteIndex
use cmx_rdma.Agent.RemoteIndex.{RemoteBlockInfo}
use cmx_rdma.Agent.RemoteIndex.Laws.{found, found-insert, found-remove}
use cmx_rdma.Agent.Watch.{codes, node_of, hash_of, block_change, block_event}

-- An event of a key.
abbrev pub on_key : EventType → (key value : Bytes) → Event
on_key type key value = record {
  kv = some (record { key = key; value = value });
  event_type = type;
}

All-append : (P : ℕ → Type 0) (xs ys : Bytes) → All P xs → All P ys → All P (xs ++ ys)
All-append P [] ys hx hy = hy
All-append P (x ∷ xs) ys (h, hs) hy = (h, All-append P xs ys hs hy)

digits-ascii : (bs : Bytes) → All (λ b. is_hex_digit b ≡ true) bs → All (λ b. b < 0x80) bs
digits-ascii [] h = tt
digits-ascii (b ∷ bs) (h, hs) = (ground arith, digits-ascii bs hs)

no_slash : (bs : Bytes) → All (λ b. is_hex_digit b ≡ true) bs → strip_prefix blocks_prefix bs ≡ none
unfolding strip_prefix
no_slash [] h = refl
no_slash (b ∷ bs) (h, hs) = ground arith

blocks_prefix-ascii : All (λ b. b < 0x80) blocks_prefix
blocks_prefix-ascii = ground arith

nodes_prefix-ascii : All (λ b. b < 0x80) nodes_prefix
nodes_prefix-ascii = ground arith

-- The key of a node whose name is ASCII and does not begin with the prefix of the keys names the node.
pub node_of-key :
    (node : Bytes)
    → All (λ b. b < 0x80) node
    → strip_prefix nodes_prefix node ≡ none
    → node_of (nodes_prefix ++ node) ≡ node
unfolding node_of
node_of-key node ascii apart =
    ap (trim_start_matches nodes_prefix) (
      from_utf8_lossy-ascii (nodes_prefix ++ node)
        (All-append (λ b. b < 0x80) nodes_prefix node nodes_prefix-ascii ascii))
    ∙ trim_start_matches-append b'/' (codes "cmx/nodes/") node apart

module _ (c : Crates) (meta_json : Json BlockLocationMeta) (hex : Hex c.hex_encode) where
  -- The hash can be read back from the key.
  pub hash_of-key :
      (hash : Key)
      → length hash ≡ 16
      → All (λ b. b < 256) hash
      → hash_of c meta_json hex (blocks_prefix ++ c.hex_encode hash) ≡ some hash
  unfolding hash_of
  hash_of-key hash sixteen small =
      let digits = hex.encode-digits hash in
      let lossy : from_utf8_lossy (blocks_prefix ++ c.hex_encode hash)
          ≡ blocks_prefix ++ c.hex_encode hash =
        from_utf8_lossy-ascii (blocks_prefix ++ c.hex_encode hash) (
          All-append (λ b. b < 0x80) blocks_prefix (c.hex_encode hash) blocks_prefix-ascii
            (digits-ascii (c.hex_encode hash) digits)) in
      let trimmed : trim_start_matches blocks_prefix (blocks_prefix ++ c.hex_encode hash)
          ≡ c.hex_encode hash =
        trim_start_matches-append b'/' (codes "cmx/blocks/") (c.hex_encode hash)
          (no_slash (c.hex_encode hash) digits) in
      let decoded : hex.decode (
            trim_start_matches blocks_prefix (from_utf8_lossy (blocks_prefix ++ c.hex_encode hash)))
          ≡ some hash =
        ap (λ x. hex.decode (trim_start_matches blocks_prefix x)) lossy
        ∙ (ap hex.decode trimmed ∙ hex.decode-encode hash small) in
      ap (λ o. elim o [ none ↦ none | some b ↦ if length b == 16 then some b else none ]) decoded
      ∙ if_true (length hash == 16) (some hash) none (ground arith)

  recorded :
      (meta : BlockLocationMeta) (hash : Key) (key value : Bytes)
      → block_record meta_json c.hex_encode meta.node_id meta.node_addr hash meta.offset meta.size
          meta.generation
        ≡ some (key, value)
      → (blocks_prefix ++ c.hex_encode hash ≡ key) × (meta_json.from_slice value ≡ some meta)
  unfolding block_record
  recorded meta hash key value h = elim (Option-cases (meta_json.to_string meta)) [
    | inl bad ↦ absurd (ground arith)
    | inr (text, good) ↦ (ground arith, meta_json.from_slice-to_string meta value (ground arith))
  ]

  block_event-read :
      (key value : Bytes) (hash : Key) (meta : BlockLocationMeta) (m : c.remotes.Map)
      → hash_of c meta_json hex key ≡ some hash
      → meta_json.from_slice value ≡ some meta
      → block_event c meta_json hex (on_key put_event key value) m
        ≡ RemoteIndex.insert c.remotes hash (to_info meta) m
  unfolding block_event block_change
  block_event-read key value hash meta m h f = rw (h, block_event, f, block_change) refl

  block_event-dropped :
      (key value : Bytes) (hash : Key) (m : c.remotes.Map)
      → hash_of c meta_json hex key ≡ some hash
      → block_event c meta_json hex (on_key delete_event key value) m
        ≡ RemoteIndex.remove c.remotes hash m
  unfolding block_event block_change
  block_event-dropped key value hash m h = rw (h, block_event, block_change) refl

  pub block_event-inserts :
      (meta : BlockLocationMeta) (hash : Key) (key value : Bytes) (m : c.remotes.Map)
      → length hash ≡ 16
      → All (λ b. b < 256) hash
      → block_record meta_json c.hex_encode meta.node_id meta.node_addr hash meta.offset meta.size
          meta.generation
        ≡ some (key, value)
      → block_event c meta_json hex (on_key put_event key value) m
        ≡ RemoteIndex.insert c.remotes hash (to_info meta) m
  block_event-inserts meta hash key value m sixteen small h =
      let (at, read) = recorded meta hash key value h in
      block_event-read key value hash meta m (rw (sym at) (hash_of-key hash sixteen small)) read

  -- What `publish_block` puts into etcd, the watch of the blocks of any agent reads back: the event of
  -- the put sets the block of the publishing node under the hash, and no other block.
  pub block_event-published :
      (meta : BlockLocationMeta) (hash : Key) (key value : Bytes) (m : c.remotes.Map)
      → length hash ≡ 16
      → All (λ b. b < 256) hash
      → block_record meta_json c.hex_encode meta.node_id meta.node_addr hash meta.offset meta.size
          meta.generation
        ≡ some (key, value)
      → (k : Key) (node : Bytes)
      → found c.remotes k node (block_event c meta_json hex (on_key put_event key value) m) ≡ (
          if same hash k
          then (if same meta.node_id node then some (to_info meta) else found c.remotes hash node m)
          else found c.remotes k node m)
  unfolding to_info
  block_event-published meta hash key value m sixteen small h k node =
      ap (found c.remotes k node) (block_event-inserts meta hash key value m sixteen small h)
      ∙ found-insert c.remotes hash k node (to_info meta) m

  -- When etcd deletes the key of a block, because the lease of the node that wrote it last has ended,
  -- the watch drops the blocks of every node under that hash, and no block under another.
  pub block_event-deleted :
      (hash : Key) (value : Bytes) (m : c.remotes.Map)
      → length hash ≡ 16
      → All (λ b. b < 256) hash
      → (k : Key) (node : Bytes)
      → found c.remotes k node (
          block_event c meta_json hex
            (on_key delete_event (blocks_prefix ++ c.hex_encode hash) value)
            m)
        ≡ (if same hash k then none else found c.remotes k node m)
  block_event-deleted hash value m sixteen small k node =
      ap (found c.remotes k node) (
        block_event-dropped (blocks_prefix ++ c.hex_encode hash) value hash m
          (hash_of-key hash sixteen small))
      ∙ found-remove c.remotes hash k node m
