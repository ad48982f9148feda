-- ===== src/Reader/Threads/Race.antt =====
-- The end of the reader: a thread looks at its queue before it looks at the end of the scan, and the storer thread does
-- not wait for the decoder thread.
use smart_fridge.Prelude.{
  ◌≡◌, refl, ◌∙◌, arith, Bytes, none, some, List, [], ◌∷◌, true, false, lt→ltb, Bool-cases, inl,
  inr, ◌==◌,
}
use smart_fridge.Queue.{Queue, sf_queue_add, sf_queue_get}
use smart_fridge.Queue.Spec
use smart_fridge.Queue.Holds.{Holds}
use smart_fridge.Queue.Refine.{add_refines, get_refines}
use smart_fridge.Decoder.{ProductNode}
use smart_fridge.Reader.Codes.{Made, queued}
use smart_fridge.Reader.Threads.{
  idle, starved, ended, busy, State, scan, end_scan, take_node, queue_product, miss_node,
  end_decoder, miss_product, end_storer, Reach, here, then,
}

module _ {A : Type 0} where
  pub get-one :
      (q : Queue A) (x : A)
      → Holds q (x ∷ [])
      → ((sf_queue_get q).0 ≡ some x) × Holds (sf_queue_get q).1 []
  unfolding Spec.pop
  get-one q x holds =
      let (r, rest, same) = get_refines q (x ∷ []) holds in
      elim (Bool-cases (1 == q.size)) [
        | inl full ↦ (r ∙ rw full, rw full at rest)
        | inr room ↦ (r ∙ rw room, rw room at rest)
      ]

  get-nil : (q : Queue A) → Holds q [] → (sf_queue_get q).0 ≡ none
  unfolding Spec.pop
  get-nil q holds = (get_refines q [] holds).0

  pub add-nil : (q : Queue A) (x : A) → Holds q [] → Holds (sf_queue_add q (some x)).1 (x ∷ [])
  unfolding Spec.push
  add-nil q x holds =
      rw (lt→ltb 0 q.size (omega (arith, holds.write_in))) at (add_refines q [] x holds).1

module _ (makes : ProductNode → Made → Type 0) where
  -- Both threads have ended with these nodes and these messages in their queues.
  pub record EndsWith (v : State) (nodes : List ProductNode) (messages : List Bytes) : Type 0 where
    pub decoder_ended : v.decoder ≡ ended
    pub storer_ended : v.storer ≡ ended
    pub nodes_left : Holds v.idq nodes
    pub messages_left : Holds v.prq messages

  -- Let the scan be open, both threads between two passes, one node in the queue of nodes and no
  -- message in the other, and let sf_decoder be able to make a message of the node. Then the threads
  -- can come to an end with such a message still in its queue.
  pub product-IsLost :
      (u : State) (node : ProductNode) (message : Bytes)
      → u.execution_ends ≡ false
      → u.decoder ≡ idle
      → u.storer ≡ idle
      → Holds u.idq (node ∷ [])
      → Holds u.prq []
      → makes node (queued (some message))
      → (v : State) × Reach makes u v × EndsWith v [] (message ∷ [])
  product-IsLost u node message open_ d s nodes messages made =
      let (got, empty) = get-one u.idq node nodes in
      let u1 : State = record u { idq = (sf_queue_get u.idq).1; decoder = busy node } in
      let u2 : State = record u1 { execution_ends = true } in
      let u3 : State = record u2 { storer = starved } in
      let u4 : State = record u3 { storer = ended } in
      let u5 : State = record u4 { prq = (sf_queue_add u4.prq (some message)).1; decoder = idle } in
      let u6 : State = record u5 { decoder = starved } in
      let u7 : State = record u6 { decoder = ended } in
      let taken : Reach makes u u2 = then (then here (take_node node d got)) (end_scan open_) in
      let storer_gone : Reach makes u u4 =
        then (then taken (miss_product s (get-nil u.prq messages))) (end_storer refl refl) in
      (
        u7,
        then
            (then (then storer_gone (queue_product node message refl made))
              (miss_node refl (get-nil u5.idq empty)))
            (end_decoder refl refl),
        record {
          decoder_ended = refl;
          storer_ended = refl;
          nodes_left = empty;
          messages_left = add-nil u.prq message messages;
        },
      )

  -- Let the scan be open, both threads between two passes and both queues empty. Then any node can be scanned, and the
  -- threads come to an end with it still in its queue: the decoder thread looks at the queue before the node is there,
  -- and at the end of the scan afterwards.
  pub node-IsLost :
      (u : State) (node : ProductNode)
      → u.execution_ends ≡ false
      → u.decoder ≡ idle
      → u.storer ≡ idle
      → Holds u.idq []
      → Holds u.prq []
      → (v : State) × Reach makes u v × EndsWith v (node ∷ []) []
  node-IsLost u node open_ d s nodes messages =
      let u1 : State = record u { decoder = starved } in
      let u2 : State = record u1 { idq = (sf_queue_add u1.idq (some node)).1 } in
      let u3 : State = record u2 { execution_ends = true } in
      let u4 : State = record u3 { decoder = ended } in
      let u5 : State = record u4 { storer = starved } in
      let u6 : State = record u5 { storer = ended } in
      let scanned : Reach makes u u3 =
        then (then (then here (miss_node d (get-nil u.idq nodes))) (scan node open_))
          (end_scan open_) in
      (
        u6,
        then (then (then scanned (end_decoder refl refl)) (miss_product s (get-nil u.prq messages)))
            (end_storer refl refl),
        record {
          decoder_ended = refl;
          storer_ended = refl;
          nodes_left = add-nil u.idq node nodes;
          messages_left = messages;
        },
      )
