-- ===== src/Samples/Offline.antt =====
-- A decoder thread without a network, and a node to remove.
use smart_fridge.Prelude.{Bytes, codes, some, arith, refl, ◌≡◌, none, Bool-cases, inl, inr, ◌==◌}
use smart_fridge.Prelude.Int.{pos}
use smart_fridge.Decoder.{ProductNode}
use smart_fridge.Reader.{db_mode_remove}
use smart_fridge.Reader.Codes.{Download, Made, crashes, queued, remove_msg, decode_node}
use smart_fridge.Reader.Codes.Limits.{decode_node-remove}
use smart_fridge.Reader.Threads.{Prints}
use smart_fridge.Samples.Trees.{trees, room}

abbrev pub offline : Download
offline url = none

abbrev pub to_remove : ProductNode
to_remove = record { code = codes "84"; number = pos 1; mode = 2 }

-- What `sf_decoder` can make of a node, at any time.
abbrev pub Makes : ProductNode → Made → Type 0
Makes node made =
    (str_timestamp : Bytes) × (decode_node trees offline room str_timestamp node ≡ made)

pub Makes-Prints : Prints Makes
unfolding decode_node
Makes-Prints node (str_timestamp, e) = elim (Bool-cases (node.mode == db_mode_remove)) [
  | inl remove ↦ absurd (cc)
  | inr add ↦ absurd (cc)
]

pub Makes-alive : (node : ProductNode) → ¬ Makes node crashes
unfolding decode_node
Makes-alive node (str_timestamp, e) = elim (Bool-cases (node.mode == db_mode_remove)) [
  | inl remove ↦ absurd (cc)
  | inr add ↦ absurd (cc)
]

pub Makes-answers : (node : ProductNode) → (made : Made) × Makes node made
Makes-answers node = (decode_node trees offline room (codes "now") node, (codes "now", refl))

pub to_remove-made : Makes to_remove (queued (some (remove_msg (codes "84"))))
to_remove-made =
    (codes "now", decode_node-remove trees offline room (codes "now") to_remove refl (omega arith))
