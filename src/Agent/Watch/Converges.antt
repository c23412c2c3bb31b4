-- ===== src/Agent/Watch/Converges.antt =====
-- Where the two watches of crates/cmx-agent/src/metadata.rs come to when their streams stay open.
use cmx_rdma.Base.{
  ℕ, ◌≡◌, ◌⊎◌, refl, sym, ap, ◌∙◌, inl, inr, true, false, Option, none, [], ◌||◌, Bool-cases,
  nil-of-length, arith, bytes_eq, Bytes,
}
use cmx_rdma.Agent.Crates.{Key, Crates}
use cmx_rdma.Agent.Codecs.{BlockLocationMeta, Json, Hex}
use cmx_rdma.Agent.Placement.{HashRing}
use cmx_rdma.Agent.RemoteIndex.{RemoteBlockInfo}
use cmx_rdma.Agent.RemoteIndex.Laws.{found}
use cmx_rdma.Agent.Watch.{Watches}
use cmx_rdma.Agent.Watch.Runs.{Step, Run, here, next}
use cmx_rdma.Agent.Watch.Ends.{todo, settles_on}
use cmx_rdma.Agent.Watch.Ring.{
  nothing, arriving, ring_after, ring_to_come, Step-ring_to_come, all_taken,
}
use cmx_rdma.Agent.Watch.Cells.{
  removed, cell, published, cell_after, cell_after-append, published-append, cell_after-none,
}
use cmx_rdma.Agent.Watch.Flow.{IsOpen, left, Flows, Step-cases}

module _ (c : Crates) (k : Key) (node : Bytes) where
  module _ (meta_json : Json BlockLocationMeta) (hex : Hex c.hex_encode) where
    -- What every step keeps holds after every run.
    Run-keeps :
        {w : Watches c} {n : ℕ} {t : Watches c} (P : Watches c → Type 0)
        → ((w t : Watches c) → Step c meta_json hex w t → P w → P t)
        → Run c meta_json hex w n t
        → P w
        → P t
    Run-keeps P keeps here p = p
    Run-keeps P keeps (next {t} {u} run step) p = keeps t u step (Run-keeps P keeps run p)

    -- The cell and the ring that everything that has arrived leads to, when the node does not leave.
    record Tracks (final : Option RemoteBlockInfo) (ring : Option HashRing) (w : Watches c)
        : Type 0 where
      flows : Flows c k node w
      stays : removed node (left c k node w) ≡ false
      cell :
          cell_after c k node meta_json hex (arriving w.blocks) (cell c k node w.remote_index)
          ≡ final
      joined : ring_to_come c w ≡ ring

    Step-Tracks :
        (final : Option RemoteBlockInfo) (ring : Option HashRing) (w t : Watches c)
        → Step c meta_json hex w t
        → Tracks final ring w
        → Tracks final ring t
    Step-Tracks final ring w t step h = elim (Step-cases c k node meta_json hex step h.flows) [
      | inl x ↦ record {
        flows = x.flows;
        stays = ap (removed node) x.left ∙ h.stays;
        cell =
            ap (cell_after c k node meta_json hex (arriving t.blocks)) x.cell
            ∙ sym (
                cell_after-append c k node meta_json hex x.events (arriving t.blocks)
                  (cell c k node w.remote_index))
            ∙ ap (λ es. cell_after c k node meta_json hex es (cell c k node w.remote_index))
                (sym x.arrived)
            ∙ h.cell;
        joined = Step-ring_to_come c meta_json hex step x.flows.running ∙ h.joined;
      }
      | inr x ↦
          let still : x.gone ≡ false = ground (arith, x.left, h.stays) in
          record {
            flows = x.flows;
            stays = ground (arith, x.left, h.stays);
            cell = rw (x.blocks, x.cell, still) h.cell;
            joined = Step-ring_to_come c meta_json hex step x.flows.running ∙ h.joined;
          }
    ]

    -- The node has left or is about to, and nothing that has arrived is published by it.
    record Fades (w : Watches c) : Type 0 where
      flows : Flows c k node w
      silent : published c k node meta_json hex (arriving w.blocks) ≡ false
      fades : (removed node (left c k node w) ≡ true) ⊎ (cell c k node w.remote_index ≡ none)

    Step-Fades : (w t : Watches c) → Step c meta_json hex w t → Fades w → Fades t
    Step-Fades w t step h = elim (Step-cases c k node meta_json hex step h.flows) [
      | inl x ↦
          let both : (published c k node meta_json hex x.events
                || published c k node meta_json hex (arriving t.blocks))
              ≡ false =
            sym (published-append c k node meta_json hex x.events (arriving t.blocks))
            ∙ ap (published c k node meta_json hex) (sym x.arrived)
            ∙ h.silent in
          record {
            flows = x.flows;
            silent = ground (arith, both);
            fades = elim h.fades [
              | inl leaving ↦ inl (ap (removed node) x.left ∙ leaving)
              | inr empty ↦ inr (
                  x.cell
                  ∙ ap (cell_after c k node meta_json hex x.events) empty
                  ∙ cell_after-none c k node meta_json hex x.events (ground (arith, both)))
            ];
          }
      | inr x ↦ record {
        flows = x.flows;
        silent = ap (λ bs. published c k node meta_json hex (arriving bs)) x.blocks ∙ h.silent;
        fades = elim (Bool-cases x.gone) [
          | inl gone ↦ inr (x.cell ∙ rw gone refl)
          | inr kept ↦ elim h.fades [
            | inl leaving ↦ inl (ground (arith, x.left, leaving, kept))
            | inr empty ↦ inr (x.cell ∙ rw kept empty)
          ]
        ];
      }
    ]

    taken_all : (t : Watches c) → todo t ≡ 0 → (left c k node t ≡ []) × (t.blocks ≡ [])
    taken_all t h =
        let (pending, nodes, _) = nothing t.pending t.nodes t.leaving (omega arith) in
        (rw (pending, nodes) refl, nil-of-length t.blocks (omega arith))

    -- An open state goes on until all that has arrived is taken.
    goes_on :
        (P : Watches c → Type 0)
        → ((w t : Watches c) → Step c meta_json hex w t → P w → P t)
        → ((w : Watches c) → P w → Flows c k node w)
        → (v : Watches c) → P v
        → (m : ℕ) × (t : Watches c) × Run c meta_json hex v m t × (todo t ≡ 0) × P t
    goes_on P keeps open_in v p =
        let (m, t, run, settled) = settles_on c meta_json hex (todo v) v 0 v here (omega arith) in
        let q = Run-keeps P keeps run p in
        elim settled [
          | inl stopped ↦ absurd (ground (arith, stopped, (open_in t q).running))
          | inr done ↦ (m, t, run, done, q)
        ]

    module _ {w : Watches c} {n : ℕ} {v : Watches c} (run : Run c meta_json hex w n v)
        (pending : w.pending ≡ []) (leaving : w.leaving ≡ none) (running : w.running ≡ true)
        (blocks : IsOpen w.blocks) (nodes : IsOpen w.nodes) where
      flows : Flows c k node w
      flows = record { running = running; blocks = blocks; nodes = nodes }

      -- From a state in which both watches run with nothing at hand, over streams that bring
      -- responses only, every run goes on, in some interleaving, until all that has arrived is
      -- taken, and both watches still run. Then the ring is the one after the events of the nodes,
      -- one after the other. For a node of which no event says that it has left, the block that
      -- the index has of it under a key is the one that the events of the blocks lead to, one
      -- after the other: the last record of the node under that key, or none after the key is
      -- deleted.
      pub Run-converges :
          removed node (arriving w.nodes) ≡ false
          → (m : ℕ) × (t : Watches c) × Run c meta_json hex v m t
            × (todo t ≡ 0)
            × (t.running ≡ true)
            × (t.hash_ring ≡ ring_after c (arriving w.nodes) w.hash_ring)
            × (found c.remotes k node t.remote_index
                ≡ cell_after c k node meta_json hex
                    (arriving w.blocks)
                    (found c.remotes k node w.remote_index))
      Run-converges stays =
          let final =
            cell_after c k node meta_json hex (arriving w.blocks)
              (found c.remotes k node w.remote_index) in
          let ring = ring_after c (arriving w.nodes) w.hash_ring in
          let first : Tracks final ring w = record {
            flows = flows;
            stays = rw pending stays;
            cell = refl;
            joined = rw (pending, leaving) refl;
          } in
          let (m, t, run', done, h) =
            goes_on (Tracks final ring) (Step-Tracks final ring) (λ u x. x.flows) v
              (Run-keeps (Tracks final ring) (Step-Tracks final ring) run first) in
          let (_, no_blocks) = taken_all t done in
          (
            m,
            t,
            run',
            done,
            h.flows.running,
            sym (all_taken c meta_json hex t done) ∙ h.joined,
            ap
                  (λ bs.
                    cell_after c k node meta_json hex (arriving bs) (cell c k node t.remote_index))
                  (sym no_blocks)
                ∙ h.cell,
          )

      -- From a state in which both watches run with nothing at hand, over streams that bring
      -- responses only, every run goes on, in some interleaving, until all that has arrived is
      -- taken, and both watches still run. Then the index has no block under a key of a node of
      -- which some event says that it has left, if no event publishes a block of the node under
      -- that key, whatever the index had before and whatever order the watches took turns in.
      pub Run-forgets :
          removed node (arriving w.nodes) ≡ true
          → published c k node meta_json hex (arriving w.blocks) ≡ false
          → (m : ℕ) × (t : Watches c) × Run c meta_json hex v m t
            × (todo t ≡ 0)
            × (t.running ≡ true)
            × (found c.remotes k node t.remote_index ≡ none)
      Run-forgets leaves' silent =
          let first : Fades w = record {
            flows = flows;
            silent = silent;
            fades = inl (rw pending leaves');
          } in
          let (m, t, run', done, h) =
            goes_on Fades Step-Fades (λ u x. x.flows) v (Run-keeps Fades Step-Fades run first) in
          let (no_nodes, _) = taken_all t done in
          (
            m,
            t,
            run',
            done,
            h.flows.running,
            elim h.fades [
              | inl waits ↦ absurd (ground (arith, waits, no_nodes))
              | inr empty ↦ empty
            ],
          )
