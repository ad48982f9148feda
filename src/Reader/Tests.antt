-- ===== src/Reader/Tests.antt =====
-- The theorems on sf_reader.c at a few codes, and at threads that share queues of five slots.
use smart_fridge.Prelude.{
  ◌≤◌, ◌≡◌, ◌⊎◌, refl, arith, Bytes, codes, none, some, [], ◌∷◌, true, false,
}
use smart_fridge.Prelude.Int.{pos}
use smart_fridge.Prelude.Number.{strtol, to_int}
use smart_fridge.Queue.{sf_queue_add, sf_queue_get}
use smart_fridge.Queue.Spec
use smart_fridge.Queue.Holds.{Holds}
use smart_fridge.Queue.Add.{empty, empty-Holds}
use smart_fridge.Queue.Refine.{add_refines, get_refines}
use smart_fridge.Decoder.{ProductNode, create_product_node}
use smart_fridge.Decoder.Stored.{sf_pr_decoder}
use smart_fridge.Db.Messages.{msg_decoder, store_decoded}
use smart_fridge.Reader.{test_line}
use smart_fridge.Reader.Lines.{test_line-code}
use smart_fridge.Reader.Codes.{remove_msg, send_message, sf_send_product}
use smart_fridge.Reader.Codes.Limits.{send-msg_decoder}
use smart_fridge.Reader.Threads.{
  State, Step, idle, starved, ended, scan, end_scan, miss_product, Reach, here, then,
}
use smart_fridge.Reader.Threads.Safety.{IsSound, Reach-IsSound}
use smart_fridge.Reader.Threads.Ends.{steps, steps_left, Reach-ends}
use smart_fridge.Reader.Threads.Race.{EndsWith, product-IsLost, node-IsLost}
use smart_fridge.Samples.Offline.{
  to_remove, to_remove-made, Makes, Makes-Prints, Makes-alive, Makes-answers,
}
use smart_fridge.Samples.Trees.{trees, removal_text}
use smart_fridge.Samples.Engines.{engine, no_tables}

test_line-code_example :
    (test_line (codes "84:2\n") 1
      ≡ some (create_product_node (codes "84") (to_int (strtol (codes "2"))) 1))
    × (test_line (codes "84\n") 1 ≡ some (create_product_node (codes "84") (pos 1) 1))
test_line-code_example =
    test_line-code b'8' (codes "4") (codes "2") 1 (refl, (refl, tt)) (refl, (refl, tt))
      (refl, (refl, tt)) (refl, tt) (refl, tt)

abbrev header : Bytes
header = codes "!#1+"

send-msg_decoder_example :
    (sf_send_product true true true header removal_text
      ≡ (0, some (send_message header removal_text)))
    × (msg_decoder trees engine header 0 (send_message header removal_text) no_tables
        ≡ store_decoded trees engine (sf_pr_decoder trees removal_text) no_tables)
send-msg_decoder_example =
    send-msg_decoder trees engine header removal_text 0 no_tables (omega arith)

empty_nodes : Holds (empty {A = ProductNode} 5) []
empty_nodes = empty-Holds 5 (omega arith)

empty_messages : Holds (empty {A = Bytes} 5) []
empty_messages = empty-Holds 5 (omega arith)

abbrev started : State
started = record {
  idq = empty 5;
  prq = empty 5;
  execution_ends = false;
  decoder = idle;
  storer = idle;
}

started-IsSound : IsSound started
started-IsSound = record {
  nodes = [];
  messages = [];
  idq_holds = empty_nodes;
  prq_holds = empty_messages;
  decoder_over = λ d. cc;
  storer_over = λ d. cc;
}

abbrev scanned : State
scanned = record started { idq = (sf_queue_add (empty 5) (some to_remove)).1 }

abbrev scan_ended : State
scan_ended = record scanned { execution_ends = true }

scanned-Holds : Holds scanned.idq (to_remove ∷ [])
unfolding Spec.push empty
scanned-Holds = (add_refines (empty 5) [] to_remove empty_nodes).1

product-IsLost_example :
    (v : State) × Reach Makes scanned v × EndsWith Makes v [] (remove_msg (codes "84") ∷ [])
product-IsLost_example =
    product-IsLost Makes scanned to_remove (remove_msg (codes "84")) refl refl refl scanned-Holds
      empty_messages to_remove-made

node-IsLost_example : (v : State) × Reach Makes started v × EndsWith Makes v (to_remove ∷ []) []
node-IsLost_example = node-IsLost Makes started to_remove refl refl refl empty_nodes empty_messages

scan_ended-IsSound : IsSound scan_ended
scan_ended-IsSound =
    Reach-IsSound Makes Makes-Prints (then (then here (scan to_remove refl)) (end_scan refl))
      started-IsSound

-- The storer thread finds nothing.
no_message : (sf_queue_get (empty {A = Bytes} 5)).0 ≡ none
unfolding Spec.pop
no_message = (get_refines (empty 5) [] empty_messages).0

abbrev storer_starved : State
storer_starved = record scan_ended { storer = starved }

abbrev one_step : Reach Makes scan_ended storer_starved
one_step = then here (miss_product refl no_message)

Reach-ends_example :
    (steps Makes one_step ≤ steps_left scan_ended)
    × ((storer_starved.decoder ≡ ended) × (storer_starved.storer ≡ ended)
        ⊎ (w : State) × Step Makes storer_starved w)
Reach-ends_example =
    Reach-ends Makes Makes-Prints one_step Makes-answers Makes-alive scan_ended-IsSound refl
