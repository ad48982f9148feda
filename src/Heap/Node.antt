-- ===== src/Heap/Node.antt =====
-- sf_reader.c and tools/product_decoder.c: the blocks of a node, from the handler of codes that allocates them to the one that frees
-- them: the handler itself where the queue is full, and else the decoder thread.
use smart_fridge.Prelude.{
  ℕ, ◌≡◌, ◌≢◌, Option, none, some, Bool, true, false, ◌==◌, ==_iff, if◌then◌else◌, arith,
}
use mathlib.Core.Path.{fun_ext}
use smart_fridge.Heap.{Block, text, node, Heap, release, free, then_free}
use smart_fridge.Heap.Fields.{free_fields}
use smart_fridge.Heap.Product.{free_product_node}
use smart_fridge.Heap.Pass.{log_text}

abbrev pub allocate : ℕ → Block → Heap → Heap
allocate p b h q = if p == q then some b else h q

-- `strdup(code)`, which yields NULL without memory.
abbrev pub with_code : Option ℕ → Heap → Heap
with_code none h = h
with_code (some a) h = allocate a text h

-- `create_product_node` writes through what `calloc` yields, NULL included.
abbrev pub with_node : Option ℕ → Option ℕ → Heap → Option Heap
with_node code none h = none
with_node code (some n) h = some (allocate n (node code) (with_code code h))

-- A code is read, and its node is added to the queue, or refused.
pub offer_node : Bool → Option ℕ → Option ℕ → Heap → Option Heap
offer_node refused code n h =
    then_free (with_node code n h)
      λ h'. if refused then then_free (log_text true code h') (free_product_node n) else some h'

module _ (h : Heap) (a n : ℕ) (ha : h a ≡ none) (hn : h n ≡ none) (ne : a ≢ n) where
  abbrev allocated : Heap
  allocated = allocate n (node (some a)) (allocate a text h)

  at_node : allocated n ≡ some (node (some a))
  at_node = ground arith

  at_code : allocated a ≡ some text
  at_code = ground arith

  at_node_still : release a allocated n ≡ some (node (some a))
  at_node_still = ground arith

  as_before : release n (release a allocated) ≡ h
  as_before = fun_ext (λ q. ground (arith, ==_iff n q, ==_iff a q))

  node-freed : free_product_node (some n) allocated ≡ some h
  unfolding free_product_node free_fields free
  node-freed = rw (at_node, at_code, at_node_still, as_before)

-- Where the memory of a node and its code is found, two blocks that were not allocated, each is freed once, and the heap is as before: in the handler if
-- the queue refuses the node, and by the decoder thread at the end of its pass if not.
pub offer_node-freed :
    (h : Heap) (a n : ℕ)
    → h a ≡ none
    → h n ≡ none
    → a ≢ n
    → (offer_node true (some a) (some n) h ≡ some h)
      × (then_free (offer_node false (some a) (some n) h) (free_product_node (some n)) ≡ some h)
unfolding offer_node
offer_node-freed h a n ha hn ne =
    (rw (at_code h a n ha hn ne) (node-freed h a n ha hn ne), node-freed h a n ha hn ne)
