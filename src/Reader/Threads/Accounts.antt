-- ===== src/Reader/Threads/Accounts.antt =====
-- The messages of the scanned nodes and what becomes of them, from the scan to the connection.
use smart_fridge.Prelude.{ℕ, zero, suc, ◌≡◌, Bytes, some, List, [], ◌∷◌, ◌++◌, append-nil}
use mathlib.Core.List.{Perm, perm_middle}
use mathlib.Core.List.Perm
use smart_fridge.Queue.{sf_queue_add}
use smart_fridge.Queue.Holds.{Holds}
use smart_fridge.Queue.Moves.{if_accepted, if_refused}
use smart_fridge.Decoder.{ProductNode}
use smart_fridge.Reader.Codes.{Made, nothing, queued}
use smart_fridge.Reader.Threads.{
  idle, State, Step, scan, end_scan, take_node, queue_product, queue_null, skip_node, miss_node,
  wait_node, end_decoder, take_product, send_product, miss_product, wait_product, end_storer, Reach,
  here, then, Prints,
}
use smart_fridge.Reader.Threads.Conserved.{accepted, refused, sent, left, Reach-Perm}
use smart_fridge.Reader.Threads.Nodes.{scanned, done, left_nodes, nodes-Perm}

module _ (makes : ProductNode → Made → Type 0) where
  -- What `sf_decoder` has made of nodes, one after the other: a message, or nothing.
  pub data Yields : List ProductNode → List Bytes → Type 0 where
    none_done : Yields [] []
    yields :
        {node : ProductNode} {message : Bytes} {nodes : List ProductNode} {messages : List Bytes}
        → makes node (queued (some message))
        → Yields nodes messages
        → Yields (node ∷ nodes) (message ∷ messages)
    skips :
        {node : ProductNode} {nodes : List ProductNode} {messages : List Bytes}
        → makes node nothing
        → Yields nodes messages
        → Yields (node ∷ nodes) messages

  -- The messages that a step and a sequence of steps have made.
  abbrev pub made_by : {u v : State} → Step makes u v → List Bytes
  made_by (queue_product node message b m) = message ∷ []
  made_by _ = []

  unfoldable pub made : {u v : State} → Reach makes u v → List Bytes
  made here = []
  made (then r step) = made_by step ++ made r

  split-Perm :
      (reply : ℕ) (message : Bytes) (ms acc ref : List Bytes)
      → Perm ms (acc ++ ref)
      → Perm
          (message ∷ ms)
          ((if_accepted reply message ++ acc) ++ (if_refused reply message ++ ref))
  split-Perm zero message ms acc ref p = Perm.cons message p
  split-Perm (suc n) message ms acc ref p =
      Perm.trans (Perm.cons message p) (Perm.symm (perm_middle acc ref))

  made-Perm :
      {u v : State} (r : Reach makes u v) → Perm (made r) (accepted makes r ++ refused makes r)
  unfolding made accepted refused
  made-Perm here = Perm.refl _
  made-Perm (then {v = w} r (queue_product node message b m)) =
      split-Perm (sf_queue_add w.prq (some message)).0 message _ _ _ (made-Perm r)
  made-Perm (then r (scan node o)) = made-Perm r
  made-Perm (then r (end_scan o)) = made-Perm r
  made-Perm (then r (take_node node i g)) = made-Perm r
  made-Perm (then r (queue_null node b m)) = made-Perm r
  made-Perm (then r (skip_node node b m)) = made-Perm r
  made-Perm (then r (miss_node i g)) = made-Perm r
  made-Perm (then r (wait_node i e)) = made-Perm r
  made-Perm (then r (end_decoder i e)) = made-Perm r
  made-Perm (then r (take_product message i g)) = made-Perm r
  made-Perm (then r (send_product message b)) = made-Perm r
  made-Perm (then r (miss_product i g)) = made-Perm r
  made-Perm (then r (wait_product i e)) = made-Perm r
  made-Perm (then r (end_storer i e)) = made-Perm r

  module _ (prints : Prints makes) where
    done-Yields : {u v : State} (r : Reach makes u v) → Yields (done makes r) (made r)
    unfolding done made
    done-Yields here = none_done
    done-Yields (then r (queue_product node message b m)) = yields m (done-Yields r)
    done-Yields (then r (queue_null node b m)) = absurd (prints node m)
    done-Yields (then r (skip_node node b m)) = skips m (done-Yields r)
    done-Yields (then r (scan node o)) = done-Yields r
    done-Yields (then r (end_scan o)) = done-Yields r
    done-Yields (then r (take_node node i g)) = done-Yields r
    done-Yields (then r (miss_node i g)) = done-Yields r
    done-Yields (then r (wait_node i e)) = done-Yields r
    done-Yields (then r (end_decoder i e)) = done-Yields r
    done-Yields (then r (take_product message i g)) = done-Yields r
    done-Yields (then r (send_product message b)) = done-Yields r
    done-Yields (then r (miss_product i g)) = done-Yields r
    done-Yields (then r (wait_product i e)) = done-Yields r
    done-Yields (then r (end_storer i e)) = done-Yields r

    -- Let the threads start between two passes on empty queues. The nodes that were put into the queue are done, with the
    -- decoder thread or in its queue; those that are done have yielded messages; and these were sent, are with the
    -- storer thread or in its queue, or were dropped.
    pub Reach-Accounts :
        {u v : State} (r : Reach makes u v)
        → u.decoder ≡ idle
        → u.storer ≡ idle
        → Holds u.idq []
        → Holds u.prq []
        → (nodes : List ProductNode) × (messages : List Bytes) × Holds v.idq nodes
          × Holds v.prq messages
          × Perm (scanned makes r) (done makes r ++ left_nodes makes v nodes)
          × Yields (done makes r) (made r)
          × Perm (made r) ((sent makes r ++ left makes v messages) ++ refused makes r)
    Reach-Accounts {u} {v} r d s hi hp =
        let (nodes, in_idq, p) = nodes-Perm makes r [] hi in
        let (messages, in_prq, q) = Reach-Perm makes prints r [] hp in
        let from : Perm (scanned makes r) (done makes r ++ left_nodes makes v nodes) =
          rw (d, append-nil) at p in
        let all : Perm (accepted makes r) (sent makes r ++ left makes v messages) =
          rw (s, append-nil) at q in
        (
          nodes,
          messages,
          in_idq,
          in_prq,
          from,
          done-Yields r,
          Perm.trans (made-Perm r) (Perm.append_right (refused makes r) all),
        )
