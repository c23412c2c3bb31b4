-- ===== src/Agent/Watch/Runs.antt =====
-- The two watches of crates/cmx-agent/src/metadata.rs side by side: every interleaving of their steps.
use cmx_rdma.Base.{
  Bool-cases, ℕ, suc, ◌≡◌, Bool, true, false, Option, none, some, List, [], ◌∷◌, inl, inr, refl,
  arith, bytes_eq, Bytes,
}
use cmx_rdma.Agent.Crates.{Crates}
use cmx_rdma.Agent.Etcd.{Event, Received, response, ended, failed}
use cmx_rdma.Agent.Codecs.{BlockLocationMeta, Json, Hex}
use cmx_rdma.Agent.Placement
use cmx_rdma.Agent.Placement.{HashRing}
use cmx_rdma.Agent.Watch.{Watches, on_ring, node_event, step_nodes, block_events, step_blocks}

abbrev pub is_response : Received → Bool
is_response (response events) = true
is_response ended = false
is_response failed = false

module _ {c : Crates} where
  -- What a step of the watch of the nodes does.
  pub data NodesMove (w t : Watches c) : Type 0 where
    leaves :
        (node : Bytes)
        → w.leaving ≡ some node
        → t ≡ record w {
          hash_ring = on_ring c (Placement.remove_node node) w.hash_ring;
          leaving = none;
        }
        → NodesMove w t
    event :
        (e : Event) (rest : List Event)
        → w.leaving ≡ none
        → w.pending ≡ e ∷ rest
        → t ≡ node_event c e (record w { pending = rest })
        → NodesMove w t
    answer :
        (events : List Event) (rest : List Received)
        → w.leaving ≡ none
        → w.pending ≡ []
        → w.nodes ≡ response events ∷ rest
        → t ≡ record w { nodes = rest; pending = events }
        → NodesMove w t
    stop :
        (last : Received) (rest : List Received)
        → is_response last ≡ false
        → w.nodes ≡ last ∷ rest
        → t ≡ record w { nodes = rest; running = false }
        → NodesMove w t

  reads_next :
      (w t : Watches c) (nodes : List Received)
      → w.running ≡ true
      → w.leaving ≡ none
      → w.pending ≡ []
      → w.nodes ≡ nodes
      → step_nodes c w ≡ some t
      → NodesMove w t
  unfolding step_nodes
  reads_next w t [] r l p n h = absurd (ground arith)
  reads_next w t (response events ∷ rest) r l p n h = answer events rest l p n (ground arith)
  reads_next w t (ended ∷ rest) r l p n h = stop ended rest refl n (ground arith)
  reads_next w t (failed ∷ rest) r l p n h = stop failed rest refl n (ground arith)

  takes_event :
      (w t : Watches c) (pending : List Event)
      → w.running ≡ true
      → w.leaving ≡ none
      → w.pending ≡ pending
      → step_nodes c w ≡ some t
      → NodesMove w t
  unfolding step_nodes
  takes_event w t [] r l p h = reads_next w t w.nodes r l p refl h
  takes_event w t (e ∷ rest) r l p h = event e rest l p (ground arith)

  moves :
      (w t : Watches c) (running : Bool) (leaving : Option Bytes)
      → w.running ≡ running
      → w.leaving ≡ leaving
      → step_nodes c w ≡ some t
      → NodesMove w t
  unfolding step_nodes
  moves w t false leaving r l h = absurd (ground arith)
  moves w t true none r l h = takes_event w t w.pending r l refl h
  moves w t true (some node) r l h = leaves node l (ground arith)

  pub step_nodes-NodesMove : (w t : Watches c) → step_nodes c w ≡ some t → NodesMove w t
  step_nodes-NodesMove w t h = moves w t w.running w.leaving refl refl h

module _ (c : Crates) (meta_json : Json BlockLocationMeta) (hex : Hex c.hex_encode) where
  -- What a step of the watch of the blocks does.
  pub data BlocksMove (w t : Watches c) : Type 0 where
    change :
        (events : List Event) (rest : List Received)
        → w.blocks ≡ response events ∷ rest
        → t ≡ record w {
          blocks = rest;
          remote_index = block_events c meta_json hex events w.remote_index;
        }
        → BlocksMove w t
    finish :
        (last : Received) (rest : List Received)
        → is_response last ≡ false
        → w.blocks ≡ last ∷ rest
        → t ≡ record w { blocks = rest; running = false }
        → BlocksMove w t

  takes_response :
      (w t : Watches c) (blocks : List Received)
      → w.running ≡ true
      → w.blocks ≡ blocks
      → step_blocks c meta_json hex w ≡ some t
      → BlocksMove w t
  unfolding step_blocks
  takes_response w t [] r b h = absurd (ground arith)
  takes_response w t (response events ∷ rest) r b h = change events rest b (ground arith)
  takes_response w t (ended ∷ rest) r b h = finish ended rest refl b (ground arith)
  takes_response w t (failed ∷ rest) r b h = finish failed rest refl b (ground arith)

  pub step_blocks-BlocksMove :
      (w t : Watches c) → step_blocks c meta_json hex w ≡ some t → BlocksMove w t
  unfolding step_blocks
  step_blocks-BlocksMove w t h = elim (Bool-cases w.running) [
    | inl r ↦ takes_response w t w.blocks r refl h
    | inr r ↦ absurd (ground arith)
  ]

  -- One of the two watches makes a step.
  pub data Step (w t : Watches c) : Type 0 where
    blocks_first : step_blocks c meta_json hex w ≡ some t → Step w t
    nodes_first : step_nodes c w ≡ some t → Step w t

  -- A run of `n` steps, in any interleaving.
  pub data Run (w : Watches c) : ℕ → Watches c → Type 0 where
    here : Run w 0 w
    next : {n : ℕ} {t u : Watches c} → Run w n t → Step t u → Run w (suc n) u
