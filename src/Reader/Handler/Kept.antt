-- ===== src/Reader/Handler/Kept.antt =====
-- Which nodes of a source are in the queue behind it, while nothing is taken out.
use smart_fridge.Prelude.{
  ℕ, zero, suc, ◌-◌, ◌≡◌, refl, Bytes, Option, none, some, List, [], ◌∷◌, length, take, arith, ltb,
  ltb→lt, ltb_false→le, Bool-cases, Option-cases, inl, inr,
}
use mathlib.Core.Path.{subst}
use smart_fridge.Queue.{Queue, sf_queue_add}
use smart_fridge.Queue.Spec
use smart_fridge.Queue.Holds.{Holds}
use smart_fridge.Queue.Refine.{add_refines}
use smart_fridge.Decoder.{ProductNode}
use smart_fridge.Reader.{test_line}
use smart_fridge.Reader.Handler.{offer, test_pass}

abbrev pub prepend : Option ProductNode → List ProductNode → List ProductNode
prepend none nodes = nodes
prepend (some node) nodes = node ∷ nodes

-- The nodes that the lines yield, in order.
pub nodes_of : List Bytes → ℕ → List ProductNode
nodes_of [] mode = []
nodes_of (line ∷ lines) mode = prepend (test_line line mode) (nodes_of lines mode)

-- One after the other, in front of the others.
pub push_all : List ProductNode → List ProductNode → List ProductNode
push_all [] xs = xs
push_all (node ∷ nodes) xs = push_all nodes (node ∷ xs)

abbrev offer_all : List ProductNode → Queue ProductNode → Queue ProductNode
offer_all [] q = q
offer_all (node ∷ nodes) q = offer_all nodes (offer (some node) q)

-- The list behind a source: the first nodes, as many as there is room for.
abbrev pub filled : ℕ → List ProductNode → List ProductNode → List ProductNode
filled size nodes xs = push_all (take (size - length xs) nodes) xs

none_taken : (n : ℕ) → ◌≡◌ {A = List ProductNode} [] (take n [])
none_taken zero = refl
none_taken (suc n) = refl

offer_all-Holds :
    (nodes : List ProductNode) (q : Queue ProductNode) (xs : List ProductNode)
    → Holds q xs
    → Holds (offer_all nodes q) (filled q.size nodes xs)
unfolding push_all Spec.push
offer_all-Holds [] q xs h = subst (λ l. Holds q (push_all l xs)) (none_taken (q.size - length xs)) h
offer_all-Holds (node ∷ nodes) q xs h = elim (Bool-cases (ltb (length xs) q.size)) [
  | inl room ↦
      let lt = ltb→lt (length xs) q.size room in
      let (reply, added, same) = add_refines q xs node h in
      let added' : Holds (sf_queue_add q (some node)).1 (node ∷ xs) = rw room at added in
      let one_more : q.size - length xs ≡ suc (q.size - suc (length xs)) = omega arith in
      rw one_more (rw same at (offer_all-Holds nodes _ (node ∷ xs) added'))
  | inr full ↦
      let le = ltb_false→le (length xs) q.size full in
      let (reply, kept, same) = add_refines q xs node h in
      let kept' : Holds (sf_queue_add q (some node)).1 xs = rw full at kept in
      let no_room : q.size - length xs ≡ 0 = omega arith in
      rw no_room (rw (same, no_room) at (offer_all-Holds nodes _ xs kept'))
]

pass-offer_all :
    (lines : List Bytes) (mode : ℕ) (q : Queue ProductNode)
    → test_pass lines mode q ≡ offer_all (nodes_of lines mode) q
unfolding test_pass nodes_of
pass-offer_all [] mode q = refl
pass-offer_all (line ∷ lines) mode q = elim (Option-cases (test_line line mode)) [
  | inl e ↦ rw e (pass-offer_all lines mode q)
  | inr (node, e) ↦ rw e (pass-offer_all lines mode (offer (some node) q))
]

-- While nothing is taken out, a pass over the test file adds the nodes of its lines in order, the newest in front,
-- as many as the queue has room for; the nodes behind them are dropped.
pub test_pass-Holds :
    (lines : List Bytes) (mode : ℕ) (q : Queue ProductNode) (xs : List ProductNode)
    → Holds q xs
    → Holds (test_pass lines mode q) (filled q.size (nodes_of lines mode) xs)
test_pass-Holds lines mode q xs h =
    rw (pass-offer_all lines mode q) (offer_all-Holds (nodes_of lines mode) q xs h)
