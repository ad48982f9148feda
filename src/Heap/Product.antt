-- ===== src/Heap/Product.antt =====
-- tools/product_decoder.c: `free_product` and `free_product_node`.
pub mod Frees
use smart_fridge.Prelude.{ℕ, zero, suc, ◌≡◌, Option, none, some, List, [], ◌∷◌, length}
use smart_fridge.Heap.{
  Block, text, array, product, node, reader_conf, db_conf, ProductPointers, Heap, free, then_free,
}
use smart_fridge.Heap.Fields.{Field, free_field, free_fields, free_struct}

abbrev pub product_in : Option Block → Option ProductPointers
product_in (some (product s)) = some s
product_in _ = none

abbrev pub slots_in : Option Block → Option (List (Option ℕ))
slots_in (some (array slots)) = some slots
slots_in _ = none

unfoldable pub slot_at : ℕ → List (Option ℕ) → Option (Option ℕ)
slot_at i [] = none
slot_at zero (slot ∷ slots) = some slot
slot_at (suc i) (slot ∷ slots) = slot_at i slots

abbrev pub slot_of : Option (List (Option ℕ)) → ℕ → Option (Option ℕ)
slot_of none i = none
slot_of (some slots) i = slot_at i slots

abbrev pub slot_through : Option ℕ → Heap → ℕ → Option (Option ℕ)
slot_through none h i = none
slot_through (some a) h i = slot_of (slots_in (h a)) i

-- `pr_dec->field[i]`
abbrev pub tag_of : Option ProductPointers → Field ProductPointers → Heap → ℕ → Option (Option ℕ)
tag_of none field h i = none
tag_of (some s) field h i = slot_through (field s) h i

abbrev pub free_slot : Option (Option ℕ) → Heap → (Heap → Option Heap) → Option Heap
free_slot none h next = none
free_slot (some none) h next = some h
free_slot (some (some q)) h next = then_free (free (some q) h) next

-- The loop, from the index `i`, with the rounds that it is given.
unfoldable pub free_slots : ℕ → ℕ → ℕ → Field ProductPointers → Heap → Option Heap
free_slots zero i p field h = none
free_slots (suc rounds) i p field h =
    free_slot (tag_of (product_in (h p)) field h i) h (free_slots rounds (suc i) p field)

abbrev pub slot_count : Option (List (Option ℕ)) → ℕ
slot_count none = 0
slot_count (some slots) = length slots

-- One round for each slot of the array.
abbrev pub free_array : Option ℕ → ℕ → Field ProductPointers → Heap → Option Heap
free_array none p field h = some h
free_array (some a) p field h =
    then_free (free_slots (slot_count (slots_in (h a))) 0 p field h) (free_field product_in p field)

abbrev pub free_loaded_tags :
    Option ProductPointers → ℕ → Field ProductPointers → Heap → Option Heap
free_loaded_tags none p field h = none
free_loaded_tags (some s) p field h = free_array (field s) p field h

-- `if (pr_dec->field)` with the loop behind it
abbrev pub free_tags : ℕ → Field ProductPointers → Heap → Option Heap
free_tags p field h = free_loaded_tags (product_in (h p)) p field h

abbrev pub text_fields : List (Field ProductPointers)
text_fields =
    (λ s. s.name)
    ∷ (λ s. s.code)
    ∷ (λ s. s.timestamp)
    ∷ (λ s. s.quantity)
    ∷ (λ s. s.ingredients)
    ∷ (λ s. s.brands)
    ∷ (λ s. s.expiration_date)
    ∷ (λ s. s.labels)
    ∷ (λ s. s.front)
    ∷ (λ s. s.nutrition)
    ∷ (λ s. s.image_ingredients)
    ∷ []

pub free_product : ℕ → Heap → Option Heap
unfolding free_fields free_slots
free_product pr_dec h = then_free (free_fields product_in pr_dec text_fields h) λ h1.
    then_free (free_tags pr_dec (λ s. s.ingredients_tags) h1) λ h2.
      then_free (free_tags pr_dec (λ s. s.allergens_tags) h2)
        λ h3. then_free (free_tags pr_dec (λ s. s.additives_tags) h3) (free (some pr_dec))

-- Whether the node is NULL; `free(node->code)`, and then the node.
abbrev pub code_in : Option Block → Option (Option ℕ)
code_in (some (node code)) = some code
code_in _ = none

unfoldable pub free_product_node : Option ℕ → Heap → Option Heap
unfolding free_fields
free_product_node none h = some h
free_product_node (some p) h = free_struct code_in ((λ code. code) ∷ []) p h
