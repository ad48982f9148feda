-- ===== src/Reader/Threads/Safety.antt =====
-- What holds in every state that the threads can reach.
use smart_fridge.Prelude.{◌≡◌, refl, Bytes, List, true}
use smart_fridge.Queue.Spec
use smart_fridge.Queue.Holds.{Holds}
use smart_fridge.Queue.Refine.{add_refines, get_refines}
use smart_fridge.Decoder.{ProductNode}
use smart_fridge.Reader.Codes.{Made}
use smart_fridge.Reader.Threads.{
  ended, State, Step, scan, end_scan, take_node, queue_product, queue_null, skip_node, miss_node,
  wait_node, end_decoder, take_product, send_product, miss_product, wait_product, end_storer, Reach,
  here, then, Prints,
}

-- Both tables stand for lists, and a thread has ended only behind the scan.
pub record IsSound (u : State) : Type 0 where
  pub nodes : List ProductNode
  pub messages : List Bytes
  pub idq_holds : Holds u.idq nodes
  pub prq_holds : Holds u.prq messages
  pub decoder_over : u.decoder ≡ ended → u.execution_ends ≡ true
  pub storer_over : u.storer ≡ ended → u.execution_ends ≡ true

module _ (makes : ProductNode → Made → Type 0) (prints : Prints makes) where
  pub Step-IsSound : {u v : State} → Step makes u v → IsSound u → IsSound v
  Step-IsSound {u} (scan node o) s = record {
    nodes = (Spec.push u.idq.size s.nodes node).1;
    messages = s.messages;
    idq_holds = (add_refines u.idq s.nodes node s.idq_holds).1;
    prq_holds = s.prq_holds;
    decoder_over = s.decoder_over;
    storer_over = s.storer_over;
  }
  Step-IsSound (end_scan o) s = record {
    nodes = s.nodes;
    messages = s.messages;
    idq_holds = s.idq_holds;
    prq_holds = s.prq_holds;
    decoder_over = λ d. refl;
    storer_over = λ d. refl;
  }
  Step-IsSound {u} (take_node node i g) s = record {
    nodes = (Spec.pop u.idq.size s.nodes).1;
    messages = s.messages;
    idq_holds = (get_refines u.idq s.nodes s.idq_holds).1;
    prq_holds = s.prq_holds;
    decoder_over = λ d. cc;
    storer_over = s.storer_over;
  }
  Step-IsSound {u} (queue_product node message b m) s = record {
    nodes = s.nodes;
    messages = (Spec.push u.prq.size s.messages message).1;
    idq_holds = s.idq_holds;
    prq_holds = (add_refines u.prq s.messages message s.prq_holds).1;
    decoder_over = λ d. cc;
    storer_over = s.storer_over;
  }
  Step-IsSound (queue_null node b m) s = absurd (prints node m)
  Step-IsSound (skip_node node b m) s = record {
    nodes = s.nodes;
    messages = s.messages;
    idq_holds = s.idq_holds;
    prq_holds = s.prq_holds;
    decoder_over = λ d. cc;
    storer_over = s.storer_over;
  }
  Step-IsSound (miss_node i g) s = record {
    nodes = s.nodes;
    messages = s.messages;
    idq_holds = s.idq_holds;
    prq_holds = s.prq_holds;
    decoder_over = λ d. cc;
    storer_over = s.storer_over;
  }
  Step-IsSound (wait_node i e) s = record {
    nodes = s.nodes;
    messages = s.messages;
    idq_holds = s.idq_holds;
    prq_holds = s.prq_holds;
    decoder_over = λ d. cc;
    storer_over = s.storer_over;
  }
  Step-IsSound (end_decoder i e) s = record {
    nodes = s.nodes;
    messages = s.messages;
    idq_holds = s.idq_holds;
    prq_holds = s.prq_holds;
    decoder_over = λ d. e;
    storer_over = s.storer_over;
  }
  Step-IsSound {u} (take_product message i g) s = record {
    nodes = s.nodes;
    messages = (Spec.pop u.prq.size s.messages).1;
    idq_holds = s.idq_holds;
    prq_holds = (get_refines u.prq s.messages s.prq_holds).1;
    decoder_over = s.decoder_over;
    storer_over = λ d. cc;
  }
  Step-IsSound (send_product message b) s = record {
    nodes = s.nodes;
    messages = s.messages;
    idq_holds = s.idq_holds;
    prq_holds = s.prq_holds;
    decoder_over = s.decoder_over;
    storer_over = λ d. cc;
  }
  Step-IsSound (miss_product i g) s = record {
    nodes = s.nodes;
    messages = s.messages;
    idq_holds = s.idq_holds;
    prq_holds = s.prq_holds;
    decoder_over = s.decoder_over;
    storer_over = λ d. cc;
  }
  Step-IsSound (wait_product i e) s = record {
    nodes = s.nodes;
    messages = s.messages;
    idq_holds = s.idq_holds;
    prq_holds = s.prq_holds;
    decoder_over = s.decoder_over;
    storer_over = λ d. cc;
  }
  Step-IsSound (end_storer i e) s = record {
    nodes = s.nodes;
    messages = s.messages;
    idq_holds = s.idq_holds;
    prq_holds = s.prq_holds;
    decoder_over = s.decoder_over;
    storer_over = λ d. e;
  }

  -- Under every interleaving of the threads, where cJSON prints what was built, both tables go on standing for lists, and a
  -- thread has ended only if the scan is over.
  pub Reach-IsSound : {u v : State} → Reach makes u v → IsSound u → IsSound v
  Reach-IsSound here s = s
  Reach-IsSound (then r step) s = Step-IsSound step (Reach-IsSound r s)
