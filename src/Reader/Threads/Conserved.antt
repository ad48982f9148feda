-- ===== src/Reader/Threads/Conserved.antt =====
-- What becomes of the messages: every one that was put into the queue of products is sent, held by the storer
-- thread, or still in the queue.
use smart_fridge.Prelude.{Bytes, some, List, [], ◌∷◌, ◌++◌}
use mathlib.Core.List.{Perm}
use mathlib.Core.List.Perm
use smart_fridge.Queue.{sf_queue_add}
use smart_fridge.Queue.Holds.{Holds}
use smart_fridge.Queue.Refine.{add_refines}
use smart_fridge.Queue.Moves.{if_accepted, if_refused, added-Perm, taken-Perm, in_front}
use smart_fridge.Decoder.{ProductNode}
use smart_fridge.Reader.Codes.{Made}
use smart_fridge.Reader.Threads.{
  Thread, idle, starved, ended, busy, State, Step, scan, end_scan, take_node, queue_product,
  queue_null, skip_node, miss_node, wait_node, end_decoder, take_product, send_product,
  miss_product, wait_product, end_storer, Reach, here, then, Prints,
}

-- What a thread got from its queue.
abbrev pub held : {A : Type 0} → Thread A → List A
held (busy x) = x ∷ []
held idle = []
held starved = []
held ended = []

module _ (makes : ProductNode → Made → Type 0) where
  -- What a step puts into the queue, what it drops at a full queue, and what it sends.
  abbrev pub accepted_by : {u v : State} → Step makes u v → List Bytes
  accepted_by {u} (queue_product node message b m) =
      if_accepted (sf_queue_add u.prq (some message)).0 message
  accepted_by _ = []

  abbrev pub refused_by : {u v : State} → Step makes u v → List Bytes
  refused_by {u} (queue_product node message b m) =
      if_refused (sf_queue_add u.prq (some message)).0 message
  refused_by _ = []

  abbrev pub sent_by : {u v : State} → Step makes u v → List Bytes
  sent_by (send_product message b) = message ∷ []
  sent_by _ = []

  -- The same of a sequence of steps, the last message first.
  unfoldable pub accepted : {u v : State} → Reach makes u v → List Bytes
  accepted here = []
  accepted (then r step) = accepted_by step ++ accepted r

  unfoldable pub refused : {u v : State} → Reach makes u v → List Bytes
  refused here = []
  refused (then r step) = refused_by step ++ refused r

  unfoldable pub sent : {u v : State} → Reach makes u v → List Bytes
  sent here = []
  sent (then r step) = sent_by step ++ sent r

  -- The messages that are left: with the storer and in the queue.
  abbrev pub left : State → List Bytes → List Bytes
  left u messages = held u.storer ++ messages

  -- A step moves messages, and adds those that it accepts.
  abbrev Moves : {u v : State} → Step makes u v → List Bytes → Type 0
  Moves {u} {v} step messages =
      (messages' : List Bytes) × Holds v.prq messages'
      × Perm (accepted_by step ++ left u messages) (sent_by step ++ left v messages')

  module _ (prints : Prints makes) where
    step-Moves :
        {u v : State} (step : Step makes u v) (messages : List Bytes)
        → Holds u.prq messages
        → Moves step messages
    step-Moves (scan node o) ms h = (ms, h, Perm.refl _)
    step-Moves (end_scan o) ms h = (ms, h, Perm.refl _)
    step-Moves (take_node node i g) ms h = (ms, h, Perm.refl _)
    step-Moves {u} (queue_product node message b m) ms h =
        (_, (add_refines u.prq ms message h).1, added-Perm u.prq message (held u.storer) ms h)
    step-Moves (queue_null node b m) ms h = absurd (prints node m)
    step-Moves (skip_node node b m) ms h = (ms, h, Perm.refl _)
    step-Moves (miss_node i g) ms h = (ms, h, Perm.refl _)
    step-Moves (wait_node i e) ms h = (ms, h, Perm.refl _)
    step-Moves (end_decoder i e) ms h = (ms, h, Perm.refl _)
    step-Moves {u} (take_product message i g) ms h =
        let (rest, holds, perm) = taken-Perm u.prq message ms h g in (rest, holds, rw i perm)
    step-Moves (send_product message b) ms h = (ms, h, rw b (Perm.refl (message ∷ ms)))
    step-Moves (miss_product i g) ms h = (ms, h, rw i (Perm.refl ms))
    step-Moves (wait_product i e) ms h = (ms, h, rw i (Perm.refl ms))
    step-Moves (end_storer i e) ms h = (ms, h, rw i (Perm.refl ms))

    -- Under every interleaving of the threads, where cJSON prints what was built, no message is lost on the way: those that were accepted, with those that the
    -- storer held and the queue had at first, are those that were sent, with those that the storer holds and
    -- the queue has in the end.
    pub Reach-Perm :
        {u v : State} (r : Reach makes u v) (messages : List Bytes)
        → Holds u.prq messages
        → (messages' : List Bytes) × Holds v.prq messages'
          × Perm (accepted r ++ left u messages) (sent r ++ left v messages')
    unfolding accepted sent
    Reach-Perm here messages h = (messages, h, Perm.refl _)
    Reach-Perm {u} {v} (then {v = w} r step) messages h =
        let (middle, holds, p) = Reach-Perm r messages h in
        let (messages', holds', q) = step-Moves step middle holds in
        (
          messages',
          holds',
          in_front (accepted_by step) (sent_by step) (accepted r) (sent r) (left u messages)
              (left w middle) (left v messages') p q,
        )
