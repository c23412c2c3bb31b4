-- ===== src/Tests/MetadataRuns.antt =====
-- Runs of the client of etcd and of the loop that keeps its lease alive.
use cmx_rdma.Base.{same_refl, ◌≡◌, refl, none, some, Option, List, [], ◌∷◌, ◌++◌, bytes_eq}
use cmx_rdma.Agent.RemoteIndex.{RemoteBlockInfo}
use cmx_rdma.Agent.Metadata.{
  blocks_prefix, MetadataClient, to_info, publish_block, block_record, lookup_block, first_info,
}
use cmx_rdma.Agent.Metadata.Laws.{own_block, lookup_block-publish_block}
use cmx_rdma.Agent.Watch.{Round, answered, refused, request_failed, keepalive_loop}
use cmx_rdma.Agent.Watch.Alive.{keepalive_loop-stops}
use cmx_rdma.Tests.HexDigits.{to_hex}
use cmx_rdma.Tests.Cluster.{etcd, meta_json}
use cmx_rdma.Tests.ServiceRuns.{hash}

abbrev client : MetadataClient etcd
client = record {
  client = [];
  lease_id = some 7;
  node_id = 97 ∷ [];
  node_addr = 49 ∷ [];
  lease_ttl = 30;
}

-- The client after a publication.
abbrev published : MetadataClient etcd
published = (publish_block etcd to_hex meta_json hash 32 32 1 client).1

publishes : publish_block etcd to_hex meta_json hash 32 32 1 client ≡ (some tt, published)
unfolding publish_block block_record
publishes = refl

abbrev looked_up : Option RemoteBlockInfo
looked_up = some (to_info (own_block etcd client 32 32 1))

looks_up : lookup_block etcd to_hex meta_json hash published ≡ (some looked_up, published)
unfolding lookup_block first_info publish_block block_record to_info
looks_up = rw (same_refl (blocks_prefix ++ to_hex hash)) refl

lookup_block-publish_block_example : looked_up ≡ some (to_info (own_block etcd client 32 32 1))
lookup_block-publish_block_example =
    lookup_block-publish_block etcd to_hex meta_json hash 32 32 1 client published published
      looked_up publishes looks_up

abbrev two_rounds : List Round
two_rounds = answered 30 ∷ answered 1 ∷ []

keepalive_loop-stops_example :
    (keepalive_loop two_rounds ≡ (none, 2))
    × (keepalive_loop (two_rounds ++ refused ∷ answered 30 ∷ []) ≡ (some request_failed, 3))
keepalive_loop-stops_example =
    keepalive_loop-stops two_rounds refused request_failed (answered 30 ∷ []) (refl, (refl, tt))
      refl
