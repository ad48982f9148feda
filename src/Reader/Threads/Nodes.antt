-- ===== src/Reader/Threads/Nodes.antt =====
-- What becomes of the nodes: every one that was put into the queue of nodes is done, held by the decoder thread,
-- or still in the queue.
use smart_fridge.Prelude.{some, List, [], ◌∷◌, ◌++◌}
use mathlib.Core.List.{Perm}
use mathlib.Core.List.Perm
use smart_fridge.Queue.{sf_queue_add}
use smart_fridge.Queue.Holds.{Holds}
use smart_fridge.Queue.Refine.{add_refines}
use smart_fridge.Queue.Moves.{if_accepted, added-Perm, taken-Perm, in_front}
use smart_fridge.Decoder.{ProductNode}
use smart_fridge.Reader.Codes.{Made}
use smart_fridge.Reader.Threads.{
  State, Step, scan, end_scan, take_node, queue_product, queue_null, skip_node, miss_node,
  wait_node, end_decoder, take_product, send_product, miss_product, wait_product, end_storer, Reach,
  here, then,
}
use smart_fridge.Reader.Threads.Conserved.{held}

module _ (makes : ProductNode → Made → Type 0) where
  -- What a step puts into the queue, and what it is done with.
  abbrev pub scanned_by : {u v : State} → Step makes u v → List ProductNode
  scanned_by {u} (scan node o) = if_accepted (sf_queue_add u.idq (some node)).0 node
  scanned_by _ = []

  abbrev pub done_by : {u v : State} → Step makes u v → List ProductNode
  done_by (queue_product node message b m) = node ∷ []
  done_by (queue_null node b m) = node ∷ []
  done_by (skip_node node b m) = node ∷ []
  done_by _ = []

  unfoldable pub scanned : {u v : State} → Reach makes u v → List ProductNode
  scanned here = []
  scanned (then r step) = scanned_by step ++ scanned r

  unfoldable pub done : {u v : State} → Reach makes u v → List ProductNode
  done here = []
  done (then r step) = done_by step ++ done r

  -- The nodes that are left: with the decoder and in the queue.
  abbrev pub left_nodes : State → List ProductNode → List ProductNode
  left_nodes u nodes = held u.decoder ++ nodes

  abbrev Moves : {u v : State} → Step makes u v → List ProductNode → Type 0
  Moves {u} {v} step nodes =
      (nodes' : List ProductNode) × Holds v.idq nodes'
      × Perm (scanned_by step ++ left_nodes u nodes) (done_by step ++ left_nodes v nodes')

  step-Moves :
      {u v : State} (step : Step makes u v) (nodes : List ProductNode)
      → Holds u.idq nodes
      → Moves step nodes
  step-Moves {u} (scan node o) ns h =
      (_, (add_refines u.idq ns node h).1, added-Perm u.idq node (held u.decoder) ns h)
  step-Moves (end_scan o) ns h = (ns, h, Perm.refl _)
  step-Moves {u} (take_node node i g) ns h =
      let (rest, holds, perm) = taken-Perm u.idq node ns h g in (rest, holds, rw i perm)
  step-Moves (queue_product node message b m) ns h = (ns, h, rw b (Perm.refl (node ∷ ns)))
  step-Moves (queue_null node b m) ns h = (ns, h, rw b (Perm.refl (node ∷ ns)))
  step-Moves (skip_node node b m) ns h = (ns, h, rw b (Perm.refl (node ∷ ns)))
  step-Moves (miss_node i g) ns h = (ns, h, rw i (Perm.refl ns))
  step-Moves (wait_node i e) ns h = (ns, h, rw i (Perm.refl ns))
  step-Moves (end_decoder i e) ns h = (ns, h, rw i (Perm.refl ns))
  step-Moves (take_product message i g) ns h = (ns, h, Perm.refl _)
  step-Moves (send_product message b) ns h = (ns, h, Perm.refl _)
  step-Moves (miss_product i g) ns h = (ns, h, Perm.refl _)
  step-Moves (wait_product i e) ns h = (ns, h, Perm.refl _)
  step-Moves (end_storer i e) ns h = (ns, h, Perm.refl _)

  -- The nodes that were accepted, with those that were there at first, are those that are done, with those that are left.
  pub nodes-Perm :
      {u v : State} (r : Reach makes u v) (nodes : List ProductNode)
      → Holds u.idq nodes
      → (nodes' : List ProductNode) × Holds v.idq nodes'
        × Perm (scanned r ++ left_nodes u nodes) (done r ++ left_nodes v nodes')
  unfolding scanned done
  nodes-Perm here nodes h = (nodes, h, Perm.refl _)
  nodes-Perm {u} {v} (then {v = w} r step) nodes h =
      let (middle, holds, p) = nodes-Perm r nodes h in
      let (nodes', holds', q) = step-Moves step middle holds in
      (
        nodes',
        holds',
        in_front (scanned_by step) (done_by step) (scanned r) (done r) (left_nodes u nodes)
            (left_nodes w middle) (left_nodes v nodes') p q,
      )
