-- ===== src/Reader/Threads.antt =====
-- sf_reader.c, the three threads that share the queues: the handler of codes in `main`, `sf_decoder` and
-- `sf_storer`. A step has one access to shared state; any thread may take the next one. `makes` says what
-- `sf_decoder` can make of a node, which may be another message each time: it depends on the answer of the
-- network, on the time and on the memory.
pub mod Safety
pub mod Race
pub mod Ends
pub mod Conserved
pub mod Accounts
pub mod Nodes
use smart_fridge.Prelude.{ℕ, ◌≡◌, ◌≢◌, Bytes, Option, none, some, Bool, true, false}
use smart_fridge.Queue.{Queue, sf_queue_add, sf_queue_get}
use smart_fridge.Decoder.{ProductNode}
use smart_fridge.Reader.Codes.{Made, nothing, queued}

-- Between two passes of its loop, having found its queue empty, with what it got from its queue, or behind its
-- loop.
pub data Thread (A : Type 0) : Type 0 where
  idle starved ended : Thread A
  busy : A → Thread A

pub record State : Type 0 where
  pub idq : Queue ProductNode
  pub prq : Queue Bytes
  pub execution_ends : Bool
  pub decoder : Thread ProductNode
  pub storer : Thread Bytes

module _ (makes : ProductNode → Made → Type 0) where
  pub data Step (u : State) : State → Type 0 where
    -- `sf_bar_handler` adds a node, or drops it if the queue is full
    scan :
        (node : ProductNode)
        → u.execution_ends ≡ false
        → Step u (record u { idq = (sf_queue_add u.idq (some node)).1 })
    -- `main` behind `sf_bar_handler`
    end_scan : u.execution_ends ≡ false → Step u (record u { execution_ends = true })
    take_node :
        (node : ProductNode)
        → u.decoder ≡ idle
        → (sf_queue_get u.idq).0 ≡ some node
        → Step u (record u { idq = (sf_queue_get u.idq).1; decoder = busy node })
    -- the end of a pass that queues a message, which is dropped if the queue is full
    queue_product :
        (node : ProductNode) (message : Bytes)
        → u.decoder ≡ busy node
        → makes node (queued (some message))
        → Step u (record u { prq = (sf_queue_add u.prq (some message)).1; decoder = idle })
    -- the same where cJSON printed nothing: NULL is added
    queue_null :
        (node : ProductNode)
        → u.decoder ≡ busy node
        → makes node (queued none)
        → Step u (record u { prq = (sf_queue_add u.prq none).1; decoder = idle })
    skip_node :
        (node : ProductNode)
        → u.decoder ≡ busy node
        → makes node nothing
        → Step u (record u { decoder = idle })
    miss_node :
        u.decoder ≡ idle → (sf_queue_get u.idq).0 ≡ none → Step u (record u { decoder = starved })
    -- the test of `execution_ends` behind it
    wait_node :
        u.decoder ≡ starved → u.execution_ends ≡ false → Step u (record u { decoder = idle })
    end_decoder :
        u.decoder ≡ starved → u.execution_ends ≡ true → Step u (record u { decoder = ended })
    take_product :
        (message : Bytes)
        → u.storer ≡ idle
        → (sf_queue_get u.prq).0 ≡ some message
        → Step u (record u { prq = (sf_queue_get u.prq).1; storer = busy message })
    -- `sf_send_product` succeeds; where it fails, the message is kept for the next pass
    send_product : (message : Bytes) → u.storer ≡ busy message → Step u (record u { storer = idle })
    miss_product :
        u.storer ≡ idle → (sf_queue_get u.prq).0 ≡ none → Step u (record u { storer = starved })
    wait_product :
        u.storer ≡ starved → u.execution_ends ≡ false → Step u (record u { storer = idle })
    end_storer : u.storer ≡ starved → u.execution_ends ≡ true → Step u (record u { storer = ended })

  pub data Reach (u : State) : State → Type 0 where
    here : Reach u u
    then : {v w : State} → Reach u v → Step v w → Reach u w

  -- cJSON finds the memory to print what was built.
  abbrev pub Prints : Type 0
  Prints = (node : ProductNode) → ¬ makes node (queued none)
