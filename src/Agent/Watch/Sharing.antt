-- ===== src/Agent/Watch/Sharing.antt =====
-- A block that one agent publishes is found by another: crates/cmx-agent/src/metadata.rs together with
-- `lookup` of crates/cmx-agent/src/grpc.rs.
use cmx_rdma.Base.{
  ap₂, if◌then◌else◌, arith, ◌<◌, ◌≡◌, ap, ◌∙◌, none, some, [], ◌∷◌, All, length, same_refl,
  bytes_eq, if◌then◌else◌, Bytes, ◌>>=◌, head?,
}
use cmx_rdma.Base.Outcome.{done}
use cmx_rdma.BlockStore.Index.{BlockIndex}
use cmx_rdma.Agent.Crates.{Key, Crates}
use cmx_rdma.Agent.Etcd.{put_event}
use cmx_rdma.Agent.Codecs.{BlockLocationMeta, Json, Hex}
use cmx_rdma.Agent.Metadata.{to_info, block_record}
use cmx_rdma.Agent.RemoteIndex
use cmx_rdma.Agent.RemoteIndex.{RemoteBlockInfo}
use cmx_rdma.Agent.Service.{miss, ok, Service, hit, composite_key}
use cmx_rdma.Agent.Grpc.Lookup.{LookupRequest, remote_block, lookup}
use cmx_rdma.Agent.Grpc.Looked.{counts, Indexed, response, lookup-run}
use cmx_rdma.Agent.Grpc.Serving.{entry_at}
use cmx_rdma.Agent.Watch.{block_event}
use cmx_rdma.Agent.Watch.Blocks.{on_key, block_event-inserts}

module _ (c : Crates) (meta_json : Json BlockLocationMeta) (hex : Hex c.hex_encode) where
  lookup-insert :
      (k : Key) (info : RemoteBlockInfo) (m : c.remotes.Map)
      → RemoteIndex.lookup c.remotes k m ≡ none
      → RemoteIndex.lookup c.remotes k (RemoteIndex.insert c.remotes k info m) ≡ some (info ∷ [])
  unfolding RemoteIndex.lookup RemoteIndex.insert
  lookup-insert k info m h = ground (arith, c.remotes.get-insert k k (info ∷ []) m, same_refl k)

  -- An agent that does not hold a block and knows it of no other agent answers, after the event of a
  -- put that publishes the block, with the location that was published: found, not local, on the
  -- publishing node, and it counts a hit.
  pub lookup-published :
      (meta : BlockLocationMeta) (key value : Bytes) (req : LookupRequest) (s : Service c)
      (m : c.remotes.Map)
      → Indexed c s
      → length req.prefix_hash ≡ 16
      → length (composite_key c.sha256 req.model_id req.prefix_hash) ≡ 16
      → All (λ b. b < 256) (composite_key c.sha256 req.model_id req.prefix_hash)
      → block_record meta_json c.hex_encode meta.node_id meta.node_addr
          (composite_key c.sha256 req.model_id req.prefix_hash)
          meta.offset
          meta.size
          meta.generation
        ≡ some (key, value)
      → entry_at c (composite_key c.sha256 req.model_id req.prefix_hash) s ≡ none
      → RemoteIndex.lookup c.remotes (composite_key c.sha256 req.model_id req.prefix_hash) m ≡ none
      → (index : BlockIndex c.entries) × (let known =
            block_event c meta_json hex (on_key put_event key value) m in
          let s' = record s { remote_index = some known } in
          lookup c req s'
          ≡ done
              (ok (response c none (some (to_info meta)) s.node_id))
              (hit (record s' { index = index })))
  unfolding remote_block
  lookup-published meta key value req s m i sixteen long small h absent unknown =
      let k = composite_key c.sha256 req.model_id req.prefix_hash in
      let known = block_event c meta_json hex (on_key put_event key value) m in
      let s' : Service c = record s { remote_index = some known } in
      let listed : RemoteIndex.lookup c.remotes k known ≡ some (to_info meta ∷ []) =
        ap (RemoteIndex.lookup c.remotes k)
          (block_event-inserts c meta_json hex meta k key value m long small h)
        ∙ lookup-insert k (to_info meta) m unknown in
      let first : remote_block c k s' ≡ some (to_info meta) = ap (λ o. o >>= head?) listed in
      let (index, answer, same_map, i') = lookup-run c req s' i sixteen in
      let after : Service c = record s' { index = index } in
      (
        index,
        answer
            ∙ ap₂
                (λ entry remote.
                  done (ok (response c entry remote s.node_id))
                    (if counts c entry remote then hit after else miss after))
                absent first,
      )
