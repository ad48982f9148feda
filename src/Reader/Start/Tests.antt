-- ===== src/Reader/Start/Tests.antt =====
-- The theorems on `main` at small configurations.
use smart_fridge.Prelude.{
  ◌≡◌, refl, arith, Bytes, codes, none, some, [], ◌∷◌, ◌++◌, true, false, inl,
}
use smart_fridge.Prelude.Int.{pos}
use smart_fridge.Prelude.Number.{strtol, to_int}
use smart_fridge.Log.{Log}
use smart_fridge.Config.{expect_nothing, cleared_reader, cleared_db}
use smart_fridge.Config.Reader.Document.{Key, Block, id_queue, product_queue, assign_blocks}
use smart_fridge.Config.Database.Document.{header, assign_settings}
use smart_fridge.Reader.Start.{foreground, Options, Reader, exited, started}
use smart_fridge.Config.Read.{read_reader_config, read_db_config}
use smart_fridge.Config.Read.File.{file_tokens}
use mathlib.Core.List.{Perm}
use smart_fridge.Queue.{sf_queue_add, sf_queue_get}
use smart_fridge.Reader.Threads.{
  State, idle, busy, scan, take_node, queue_product, take_product, Reach, here, then,
}
use smart_fridge.Reader.Threads.Race.{get-one, add-nil}
use smart_fridge.Reader.Codes.{remove_msg}
use smart_fridge.Reader.Threads.Safety.{IsSound}
use smart_fridge.Reader.Threads.Conserved.{sent, refused, left}
use smart_fridge.Reader.Threads.Nodes.{scanned, done, left_nodes}
use smart_fridge.Reader.Threads.Accounts.{Yields, made}
use smart_fridge.Reader.Start.Run.{threads_of, main-Accounts}
use smart_fridge.Samples.Offline.{to_remove, to_remove-made, Makes, Makes-Prints}
use smart_fridge.Reader.Start.Queues.{
  on_file, IsStarted, reader_main-IsStarted, reader_main-refusal,
}

abbrev quiet : Log
quiet = record {
  debug_level = pos 0;
  foreground = false;
  log_file = none;
  node_name = [];
  printed = [];
  appended = [];
}

abbrev no_options : Options
no_options = record {
  log = quiet;
  foreground_mode = false;
  test_mode_file = none;
  test_mode_speed = pos 0;
  socket_mode_port = pos 0;
}

abbrev ids : Bytes → Block
ids size = (id_queue, (Key.size, size) ∷ [])

abbrev products : Block
products = (product_queue, (Key.size, codes "10") ∷ [])

reader_main-IsStarted_example :
    (r : Reader) × (on_file expect_nothing
        (pos 9)
        (ids (codes "20"))
        (products ∷ [])
        (header (codes "!#1+"))
        []
        no_options
        false
        (codes "fridge.log")
        true
      ≡ started r)
    × IsStarted
        (assign_blocks (ids (codes "20") ∷ products ∷ []) cleared_reader)
        (codes "!#1+")
        (assign_settings (header (codes "!#1+") ∷ []) cleared_db)
        r
unfolding strtol to_int
reader_main-IsStarted_example =
    reader_main-IsStarted expect_nothing (pos 9) (ids (codes "20")) (products ∷ [])
      (header (codes "!#1+")) [] no_options false (codes "fridge.log") (codes "!#1+") refl
      (omega arith, omega arith) (omega arith, omega arith)

reader_main-refusal_example :
    on_file expect_nothing
      (pos 9)
      (ids (codes "4"))
      (products ∷ [])
      (header (codes "!#1+"))
      []
      no_options
      false
      (codes "fridge.log")
      true
    ≡ exited 1
unfolding strtol to_int
reader_main-refusal_example =
    reader_main-refusal expect_nothing (pos 9) (ids (codes "4")) (products ∷ [])
      (header (codes "!#1+")) [] no_options false true (codes "fridge.log")
      (inl (inl (omega arith)))

-- A start of `main`.
abbrev reader : Reader
unfolding strtol to_int
reader =
    (reader_main-IsStarted expect_nothing (pos 9) (ids (codes "20")) (products ∷ [])
      (header (codes "!#1+")) [] no_options false (codes "fridge.log") (codes "!#1+") refl
      (omega arith, omega arith) (omega arith, omega arith)).0

reader-IsStarted :
    IsStarted
      (assign_blocks (ids (codes "20") ∷ products ∷ []) cleared_reader)
      (codes "!#1+")
      (assign_settings (header (codes "!#1+") ∷ []) cleared_db)
      reader
unfolding strtol to_int
reader-IsStarted =
    (reader_main-IsStarted expect_nothing (pos 9) (ids (codes "20")) (products ∷ [])
      (header (codes "!#1+")) [] no_options false (codes "fridge.log") (codes "!#1+") refl
      (omega arith, omega arith) (omega arith, omega arith)).2

-- A node is scanned and decoded, and the storer thread takes its message.
abbrev scanned_node : State
scanned_node = record (threads_of reader) {
  idq = (sf_queue_add (threads_of reader).idq (some to_remove)).1;
}

abbrev taken_node : State
taken_node = record scanned_node {
  idq = (sf_queue_get scanned_node.idq).1;
  decoder = busy to_remove;
}

abbrev queued_message : State
queued_message = record taken_node {
  prq = (sf_queue_add taken_node.prq (some (remove_msg (codes "84")))).1;
  decoder = idle;
}

abbrev taken_message : State
taken_message = record queued_message {
  prq = (sf_queue_get queued_message.prq).1;
  storer = busy (remove_msg (codes "84"));
}

one_node : (sf_queue_get scanned_node.idq).0 ≡ some to_remove
one_node =
    (get-one scanned_node.idq to_remove (add-nil reader.idq to_remove reader-IsStarted.ids)).0

one_message : (sf_queue_get queued_message.prq).0 ≡ some (remove_msg (codes "84"))
one_message =
    (get-one queued_message.prq (remove_msg (codes "84"))
      (add-nil reader.prq (remove_msg (codes "84")) reader-IsStarted.products)).0

abbrev thread_steps : Reach Makes (threads_of reader) taken_message
thread_steps =
    then
      (then (then (then here (scan to_remove refl)) (take_node to_remove refl one_node))
        (queue_product to_remove (remove_msg (codes "84")) refl to_remove-made))
      (take_product (remove_msg (codes "84")) refl one_message)

main-Accounts_example :
    (s : IsSound taken_message) × Perm
      (scanned Makes thread_steps)
      (done Makes thread_steps ++ left_nodes Makes taken_message s.nodes)
    × Yields Makes (done Makes thread_steps) (made Makes thread_steps)
    × Perm (made Makes thread_steps) (
        (sent Makes thread_steps ++ left Makes taken_message s.messages)
        ++ refused Makes thread_steps)
unfolding strtol to_int
main-Accounts_example =
    main-Accounts Makes Makes-Prints (foreground ∷ []) no_options false (codes "fridge.log")
      (read_reader_config expect_nothing (pos 9)
        (some (file_tokens (ids (codes "20") ∷ products ∷ []) (header (codes "!#1+") ∷ []))))
      (read_db_config expect_nothing (pos 9)
        (some (file_tokens (ids (codes "20") ∷ products ∷ []) (header (codes "!#1+") ∷ []))))
      true reader
      (reader_main-IsStarted expect_nothing (pos 9) (ids (codes "20")) (products ∷ [])
        (header (codes "!#1+")) [] no_options false (codes "fridge.log") (codes "!#1+") refl
        (omega arith, omega arith) (omega arith, omega arith)).1
      thread_steps
