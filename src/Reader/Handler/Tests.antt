-- ===== src/Reader/Handler/Tests.antt =====
-- A pass over a test file with two codes, an empty line and a comment, at a queue of five slots.
use smart_fridge.Prelude.{arith, codes, List, [], ◌∷◌, Bytes}
use smart_fridge.Queue.{Queue}
use smart_fridge.Queue.Holds.{Holds}
use smart_fridge.Queue.Add.{empty, empty-Holds}
use smart_fridge.Decoder.{ProductNode}
use smart_fridge.Reader.Handler.{test_pass}
use smart_fridge.Reader.Handler.Kept.{filled, nodes_of, test_pass-Holds}

abbrev lines : List Bytes
lines = codes "84:2\n" ∷ codes "\n" ∷ codes "85 # milk\n" ∷ []

abbrev no_nodes : Queue ProductNode
no_nodes = empty 5

no_nodes-Holds : Holds no_nodes []
no_nodes-Holds = empty-Holds 5 (omega arith)

test_pass-Holds_example : Holds (test_pass lines 1 no_nodes) (filled 5 (nodes_of lines 1) [])
unfolding empty
test_pass-Holds_example = test_pass-Holds lines 1 no_nodes [] no_nodes-Holds
