-- ===== src/Heap/Pass.antt =====
-- sf_reader.c: what `sf_decoder` frees at the end of a pass that has printed a product.
use smart_fridge.Prelude.{
  ℕ, ◌≡◌, ◌∙◌, refl, ap, Option, none, some, List, [], ◌∷◌, ◌++◌, Bool, true, false, ◌&&◌,
  if◌then◌else◌,
}
use smart_fridge.Prelude.Int.{ℤ, pos, ltb_ℤ}
use smart_fridge.Heap.{Block, text, node, Heap, free, then_free}
use smart_fridge.Heap.Freed.{
  member, without, freed, Fresh, Fresh-fewer, Fresh-parts, gone, free-next,
}
use smart_fridge.Heap.Fields.{OnlyFreed, only-freed, untouched, struct-freed}
use smart_fridge.Heap.Product.{code_in, free_product_node}

abbrev pub read_text : Option Block → Heap → Option Heap
read_text (some text) h = some h
read_text _ h = none

-- The argument of `sf_debug2`, which is read from the second level on; NULL is printed as such.
abbrev pub log_text : Bool → Option ℕ → Heap → Option Heap
log_text false str h = some h
log_text true none h = some h
log_text true (some q) h = read_text (h q) h

-- What happened to `str_product` before it is logged: `sf_queue_add` refused it, so that it is freed here, or the storer
-- thread may have sent it, which frees it there.
pub data Fate : Type 0 where
  refused sent kept : Fate

abbrev pub after_queue : Fate → Option ℕ → Heap → Option Heap
after_queue refused str_product h = free str_product h
after_queue sent str_product h = free str_product h
after_queue kept str_product h = some h

abbrev pub next_it : Option ℕ → Option ℕ → Heap → Option Heap
next_it n buffer h = then_free (free_product_node n h) (free buffer)

abbrev pub logged_end : Bool → Fate → Option ℕ → Option ℕ → Option ℕ → Heap → Option Heap
logged_end logged fate str_product n buffer h =
    then_free (after_queue fate str_product h)
      λ h1. then_free (log_text logged str_product h1) (next_it n buffer)

pub end_pass : ℤ → Fate → Option ℕ → Option ℕ → Option ℕ → Heap → Option Heap
end_pass debug_level fate str_product n buffer h =
    logged_end (ltb_ℤ (pos 1) debug_level) fate str_product n buffer h

abbrev pub is_freed : Fate → Bool
is_freed kept = false
is_freed _ = true

-- How the pass ends: by a read of a block that was freed, or with these blocks freed.
abbrev pub Ends : Bool → Option Heap → List ℕ → Heap → Type 0
Ends true o blocks h = o ≡ none
Ends false o blocks h = (h' : Heap) × (o ≡ some h') × OnlyFreed blocks h h'

-- What is freed beside the text of the product.
abbrev pub own_blocks : Fate → ℕ → ℕ → ℕ → ℕ → List ℕ
own_blocks fate q n code buffer = (if is_freed fate then q ∷ [] else []) ++ (code ∷ n ∷ buffer ∷ [])

module _ (h : Heap) (q n code buffer : ℕ) (holds : h n ≡ some (node (some code)))
    (fresh : Fresh h (q ∷ code ∷ n ∷ buffer ∷ []) []) where
  next_it-freed :
      (done : List ℕ)
      → Fresh h (code ∷ n ∷ buffer ∷ []) done
      → next_it (some n) (some buffer) (without done h)
        ≡ some (without (freed (code ∷ n ∷ buffer ∷ []) done) h)
  unfolding free_product_node
  next_it-freed done f =
      let (first, last) = Fresh-parts h (code ∷ n ∷ []) (buffer ∷ []) done f in
      rw (struct-freed code_in h n (some code) (rw holds) ((λ c. c) ∷ []) done first)
        (free-next h buffer (freed (code ∷ n ∷ []) done) last)

  rest : Fresh h (code ∷ n ∷ buffer ∷ []) (q ∷ [])
  rest = (Fresh-parts h (q ∷ []) (code ∷ n ∷ buffer ∷ []) [] fresh).1

  abbrev own : List ℕ
  own = code ∷ n ∷ buffer ∷ []

  abbrev Frees : Option Heap → List ℕ → Type 0
  Frees o blocks = (h' : Heap) × (o ≡ some h') × OnlyFreed blocks h h'

  first-freed : free (some q) h ≡ some (without (q ∷ []) h)
  first-freed =
      ap (λ g. free (some q) g) (untouched h)
      ∙ free-next h q [] (Fresh-parts h (q ∷ []) own [] fresh).0

  kept-Frees : Frees (next_it (some n) (some buffer) h) own
  unfolding member
  kept-Frees = (
    without (freed own []) h,
    next_it-freed [] (Fresh-fewer h own (q ∷ []) [] (λ x e. refl) rest),
    only-freed h own,
  )

  freed-Frees : Frees (then_free (free (some q) h) (next_it (some n) (some buffer))) (q ∷ own)
  freed-Frees = (
    without (freed (q ∷ own) []) h,
    rw first-freed (next_it-freed (q ∷ []) rest),
    only-freed h (q ∷ own),
  )

  logged-Ends :
      (logged : Bool) (fate : Fate)
      → h q ≡ some text
      → Ends
          (logged && is_freed fate)
          (logged_end logged fate (some q) (some n) (some buffer) h)
          (own_blocks fate q n code buffer)
          h
  logged-Ends true refused e = rw (first-freed, gone h q [])
  logged-Ends true sent e = rw (first-freed, gone h q [])
  logged-Ends true kept e = rw e kept-Frees
  logged-Ends false refused e = freed-Frees
  logged-Ends false sent e = freed-Frees
  logged-Ends false kept e = kept-Frees

-- Let the text of the product, the node with its code and the buffer be allocated and different from each other. Then the end of the
-- pass reads a block that was freed if the debug level is above 1 and the text was freed before, be it that the queue was full or that the storer thread has sent it; and
-- otherwise it frees the node, its code and the buffer, once each, and nothing else but the text.
pub end_pass-Ends :
    (h : Heap) (q n code buffer : ℕ) (debug_level : ℤ) (fate : Fate)
    → h q ≡ some text
    → h n ≡ some (node (some code))
    → Fresh h (q ∷ code ∷ n ∷ buffer ∷ []) []
    → Ends
        (ltb_ℤ (pos 1) debug_level && is_freed fate)
        (end_pass debug_level fate (some q) (some n) (some buffer) h)
        (own_blocks fate q n code buffer)
        h
unfolding end_pass
end_pass-Ends h q n code buffer debug_level fate e holds fresh =
    logged-Ends h q n code buffer holds fresh (ltb_ℤ (pos 1) debug_level) fate e
