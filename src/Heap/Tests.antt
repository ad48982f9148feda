-- ===== src/Heap/Tests.antt =====
-- The theorems on the freeing of memory at a heap of a few blocks.
use smart_fridge.Prelude.{
  ℕ, ◌≡◌, refl, none, some, List, [], ◌∷◌, ◌==◌, if◌then◌else◌, true, false, arith,
}
use smart_fridge.Prelude.Int.{pos}
use smart_fridge.Heap.{
  Block, text, array, product, node, reader_conf, db_conf, ProductPointers, ReaderPointers,
  DbPointers, Heap, then_free,
}
use smart_fridge.Heap.Freed.{member}
use smart_fridge.Heap.Fields.{OnlyFreed}
use smart_fridge.Heap.Product.{free_product, free_product_node}
use smart_fridge.Heap.Product.Frees.{IsOwned, free_product-frees}
use smart_fridge.Heap.Conf.{free_confs, free_confs-leaks}
use smart_fridge.Heap.Node.{offer_node, offer_node-freed}
use smart_fridge.Heap.Pass.{refused, end_pass, Ends, own_blocks, end_pass-Ends}

abbrev heap_of : List (ℕ × Block) → Heap
heap_of [] q = none
heap_of ((p, b) ∷ blocks) q = if p == q then some b else heap_of blocks q

-- A product with a name, a code and two ingredients.
abbrev salt_pointers : ProductPointers
salt_pointers = record {
  front = none;
  nutrition = none;
  image_ingredients = none;
  name = some 2;
  code = some 3;
  timestamp = none;
  quantity = none;
  ingredients = none;
  brands = none;
  expiration_date = none;
  labels = none;
  ingredients_tags = some 4;
  allergens_tags = none;
  additives_tags = none;
}

abbrev shelf : Heap
shelf = heap_of (
    (1, product salt_pointers)
    ∷ (2, text)
    ∷ (3, text)
    ∷ (4, array (some 5 ∷ some 6 ∷ none ∷ []))
    ∷ (5, text)
    ∷ (6, text)
    ∷ (7, text)
    ∷ [])

shelf-IsOwned : IsOwned shelf 1 (2 ∷ 3 ∷ 5 ∷ 6 ∷ 4 ∷ 1 ∷ [])
unfolding member
shelf-IsOwned = record {
  pointers = salt_pointers;
  ingredients = 5 ∷ 6 ∷ 4 ∷ [];
  allergens = [];
  additives = [];
  pointed = refl;
  ingredients_tags = (5 ∷ 6 ∷ [], [], refl, refl);
  allergens_tags = refl;
  additives_tags = refl;
  all = refl;
  fresh = (
    refl,
    (text, refl),
    (
      refl,
      (text, refl),
      (
        refl,
        (text, refl),
        (
          refl,
          (text, refl),
          (
            refl,
            (array (some 5 ∷ some 6 ∷ none ∷ []), refl),
            (refl, (product salt_pointers, refl), tt),
          ),
        ),
      ),
    ),
  );
}

free_product-frees_example :
    (h' : Heap) × (free_product 1 shelf ≡ some h')
    × OnlyFreed (2 ∷ 3 ∷ 5 ∷ 6 ∷ 4 ∷ 1 ∷ []) shelf h'
    × (free_product 1 h' ≡ none)
free_product-frees_example = free_product-frees shelf 1 (2 ∷ 3 ∷ 5 ∷ 6 ∷ 4 ∷ 1 ∷ []) shelf-IsOwned

abbrev reader : ReaderPointers
reader = record { test_repeat = none; device = some 2; log_location = some 3 }

abbrev db : DbPointers
db = record { internal_header = some 5; internal_address = none; log_location = none }

abbrev confs : Heap
confs = heap_of ((1, reader_conf reader) ∷ (2, text) ∷ (3, text) ∷ (4, db_conf db) ∷ (5, text) ∷ [])

free_confs-leaks_example :
    (h' : Heap) × (free_confs (some 1) (some 4) confs ≡ some h')
    × OnlyFreed (3 ∷ 1 ∷ 5 ∷ 4 ∷ []) confs h'
    × (h' 2 ≡ confs 2)
unfolding member
free_confs-leaks_example = free_confs-leaks confs 1 4 2 reader db refl refl refl (
  refl,
  (text, refl),
  (
    refl,
    (reader_conf reader, refl),
    (refl, (text, refl), (refl, (db_conf db, refl), (refl, (text, refl), tt))),
  ),
)

abbrev pass : Heap
pass = heap_of ((1, text) ∷ (2, text) ∷ (3, node (some 2)) ∷ (4, text) ∷ [])

end_pass-Ends_example :
    Ends true
      (end_pass (pos 2) refused (some 1) (some 3) (some 4) pass)
      (own_blocks refused 1 3 2 4)
      pass
unfolding member
end_pass-Ends_example = end_pass-Ends pass 1 3 2 4 (pos 2) refused refl refl (
  refl,
  (text, refl),
  (refl, (text, refl), (refl, (node (some 2), refl), (refl, (text, refl), tt))),
)

offer_node-freed_example :
    (offer_node true (some 2) (some 3) (heap_of []) ≡ some (heap_of []))
    × (then_free (offer_node false (some 2) (some 3) (heap_of [])) (free_product_node (some 3))
        ≡ some (heap_of []))
offer_node-freed_example = offer_node-freed (heap_of []) 2 3 refl refl (omega arith)
