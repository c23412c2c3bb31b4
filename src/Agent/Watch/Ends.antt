-- ===== src/Agent/Watch/Ends.antt =====
-- What the streams of the tasks of crates/cmx-agent/src/metadata.rs still hold, and how much is left.
use cmx_rdma.Base.{
  ℕ, zero, suc, ◌+◌, ◌*◌, ◌≤◌, ◌<◌, ◌≡◌, ◌⊎◌, inl, inr, refl, true, false, Option, none, some, List,
  [], ◌∷◌, Option-cases, List-cases, Bool-cases, arith, length, bytes_eq, Bytes,
}
use cmx_rdma.Agent.Crates.{Crates}
use cmx_rdma.Agent.Etcd.{
  EventType, put_event, delete_event, KeyValue, Event, Received, response, ended, failed,
}
use cmx_rdma.Agent.Codecs.{BlockLocationMeta, Json, Hex}
use cmx_rdma.Agent.Watch.{Watches, node_event, step_nodes, step_blocks}
use cmx_rdma.Agent.Watch.Runs.{
  NodesMove, leaves, event, answer, stop, step_nodes-NodesMove, BlocksMove, change, finish,
  step_blocks-BlocksMove, Step, blocks_first, nodes_first, Run, next,
}

-- The steps that the messages of the nodes take: one to read a response, up to two for an event.
abbrev pub to_read : List Received → ℕ
to_read [] = 0
to_read (response events ∷ rest) = 1 + 2 * length events + to_read rest
to_read (ended ∷ rest) = 1 + to_read rest
to_read (failed ∷ rest) = 1 + to_read rest

abbrev pub waiting : Option Bytes → ℕ
waiting none = 0
waiting (some node) = 1

to_read-cons : (last : Received) (rest : List Received) → to_read rest < to_read (last ∷ rest)
to_read-cons (response events) rest = omega arith
to_read-cons ended rest = omega arith
to_read-cons failed rest = omega arith

module _ {c : Crates} where
  -- The steps that are left at most.
  abbrev pub todo : Watches c → ℕ
  todo w = length w.blocks + to_read w.nodes + 2 * length w.pending + waiting w.leaving

  -- A watch has returned, or there is nothing left to do.
  abbrev pub IsSettled : Watches c → Type 0
  IsSettled w = (w.running ≡ false) ⊎ (todo w ≡ 0)

  node_event-todo :
      (e : Event) (kv : Option KeyValue) (type : EventType) (w : Watches c)
      → e.kv ≡ kv
      → e.event_type ≡ type
      → w.leaving ≡ none
      → todo (node_event c e w) ≤ suc (todo w)
  unfolding node_event
  node_event-todo e none type w h g l = rw (h, node_event) (omega arith)
  node_event-todo e (some kv) put_event w h g l = rw (h, node_event, g) (omega arith)
  node_event-todo e (some kv) delete_event w h g l = elim (Option-cases w.hash_ring) [
    | inl no_ring ↦ ground arith
    | inr (ring, at) ↦ ground arith
  ]

  NodesMove-todo : {w t : Watches c} → NodesMove w t → todo t < todo w
  NodesMove-todo (leaves node l e) = rw e (ground arith)
  NodesMove-todo {w} (event ev rest l p e) =
      let small : todo (node_event c ev (record w { pending = rest }))
          ≤ suc (todo (record w { pending = rest })) =
        node_event-todo ev ev.kv ev.event_type (record w { pending = rest }) refl refl l in
      ground arith
  NodesMove-todo (answer events rest l p n e) = ground arith
  NodesMove-todo {w} (stop last rest x n e) = ground (arith, to_read-cons last rest)

  idle_nodes :
      (w : Watches c)
      → w.running ≡ true
      → step_nodes c w ≡ none
      → (w.leaving ≡ none) × (w.pending ≡ []) × (w.nodes ≡ [])
  unfolding step_nodes
  idle_nodes w r h = elim (Option-cases w.leaving) [
    | inr (node, at) ↦ absurd (ground arith)
    | inl l ↦ elim (List-cases w.pending) [
      | inr (e, rest, at) ↦ absurd (ground arith)
      | inl p ↦ (l, p, no_message w w.nodes r l p refl h)
    ]
  ]
    where
      no_message :
          (w : Watches c) (nodes : List Received)
          → w.running ≡ true
          → w.leaving ≡ none
          → w.pending ≡ []
          → w.nodes ≡ nodes
          → step_nodes c w ≡ none
          → nodes ≡ []
      no_message w [] r l p n h = refl
      no_message w (response events ∷ rest) r l p n h = absurd (ground arith)
      no_message w (ended ∷ rest) r l p n h = absurd (ground arith)
      no_message w (failed ∷ rest) r l p n h = absurd (ground arith)

module _ (c : Crates) (meta_json : Json BlockLocationMeta) (hex : Hex c.hex_encode) where
  BlocksMove-todo : {w t : Watches c} → BlocksMove c meta_json hex w t → todo t < todo w
  BlocksMove-todo (change events rest b e) = ground arith
  BlocksMove-todo (finish last rest x b e) = ground arith

  Step-todo : {w t : Watches c} → Step c meta_json hex w t → todo t < todo w
  Step-todo {w} {t} (blocks_first h) =
      BlocksMove-todo (step_blocks-BlocksMove c meta_json hex w t h)
  Step-todo {w} {t} (nodes_first h) = NodesMove-todo (step_nodes-NodesMove w t h)

  idle_blocks :
      (w : Watches c) (blocks : List Received)
      → w.running ≡ true
      → w.blocks ≡ blocks
      → step_blocks c meta_json hex w ≡ none
      → w.blocks ≡ []
  unfolding step_blocks
  idle_blocks w [] r b h = b
  idle_blocks w (response events ∷ rest) r b h = absurd (ground arith)
  idle_blocks w (ended ∷ rest) r b h = absurd (ground arith)
  idle_blocks w (failed ∷ rest) r b h = absurd (ground arith)

  -- A state is settled, or one of the watches can make a step.
  progress : (w : Watches c) → IsSettled w ⊎ ((t : Watches c) × Step c meta_json hex w t)
  progress w = elim (Bool-cases w.running) [
    | inr stopped ↦ inl (inl stopped)
    | inl r ↦ elim (Option-cases (step_blocks c meta_json hex w)) [
      | inr (t, h) ↦ inr (t, blocks_first h)
      | inl b ↦ elim (Option-cases (step_nodes c w)) [
        | inr (t, h) ↦ inr (t, nodes_first h)
        | inl i ↦
            let no_blocks = idle_blocks w w.blocks r refl b in
            let (l, p, n) = idle_nodes w r i in inl (inr (ground arith))
      ]
    ]
  ]

  pub settles_on :
      (fuel : ℕ) (w : Watches c) (n : ℕ) (v : Watches c)
      → Run c meta_json hex w n v
      → todo v ≤ fuel
      → (m : ℕ) × (t : Watches c) × Run c meta_json hex w m t × IsSettled t
  settles_on zero w n v run h = (n, v, run, inr (omega arith))
  settles_on (suc fuel) w n v run h = elim (progress v) [
    | inl settled ↦ (n, v, run, settled)
    | inr (t, step) ↦ settles_on fuel w (suc n) t (next run step) (omega (arith, Step-todo step))
  ]
