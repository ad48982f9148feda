-- ===== src/Heap/Product/Frees.antt =====
-- `free_product` frees each block of a product once, and nothing else.
use smart_fridge.Prelude.{
  ℕ, zero, suc, ◌+◌, ◌≤◌, ◌≡◌, refl, ◌∙◌, ap, Option, none, some, List, [], ◌∷◌, ◌++◌, false,
  length, drop, arith, map,
}
use smart_fridge.Heap.{array, product, ProductPointers, Heap, free}
use smart_fridge.Heap.Freed.{
  member, without, freed, Fresh, freed-append, Fresh-parts, not_yet, still, last_new, free-next,
  gone,
}
use smart_fridge.Heap.Fields.{
  Field, blocks_of, OnlyFreed, only-freed, untouched, free_fields, loaded, field-freed,
  fields-freed,
}
use smart_fridge.Heap.Product.{
  product_in, slot_at, tag_of, free_slots, free_tags, text_fields, free_product,
}

-- The blocks of an array of strings that NULL ends; a NULL has none.
abbrev pub Tags : Heap → Option ℕ → List ℕ → Type 0
Tags h none blocks = blocks ≡ []
Tags h (some a) blocks =
    (strings : List ℕ) × (behind : List (Option ℕ)) × (h a
      ≡ some (array (map some strings ++ none ∷ behind)))
    × (blocks ≡ strings ++ a ∷ [])

slot-drop :
    (i : ℕ) (slots l : List (Option ℕ)) (x : Option ℕ)
    → drop i slots ≡ x ∷ l
    → (slot_at i slots ≡ some x) × (drop (suc i) slots ≡ l)
unfolding slot_at
slot-drop zero [] l x e = absurd (cc)
slot-drop (suc i) [] l x e = absurd (cc)
slot-drop zero (slot ∷ slots) l x e = (cc, cc)
slot-drop (suc i) (slot ∷ slots) l x e = slot-drop i slots l x e

module _ (h : Heap) (p : ℕ) (s : ProductPointers) (pointed : h p ≡ some (product s)) where
  abbrev here : product_in (h p) ≡ some s
  here = rw pointed

  module _ (field : Field ProductPointers) (a : ℕ) (slots : List (Option ℕ))
      (there : field s ≡ some a) (holds : h a ≡ some (array slots)) where
    tag-read :
        (i : ℕ) (x : Option ℕ) (done : List ℕ)
        → member p done ≡ false
        → member a done ≡ false
        → slot_at i slots ≡ some x
        → tag_of (product_in (without done h p)) field (without done h) i ≡ some x
    tag-read i x done np na e =
        rw (loaded product_in h p s here done np, there, still h a done na, holds) e

    slots-freed :
        (strings : List ℕ) (behind : List (Option ℕ)) (i rounds : ℕ) (done : List ℕ)
        → drop i slots ≡ map some strings ++ none ∷ behind
        → length strings + 1 ≤ rounds
        → Fresh h strings done
        → member p (freed strings done) ≡ false
        → member a (freed strings done) ≡ false
        → free_slots rounds i p field (without done h) ≡ some (without (freed strings done) h)
    unfolding free_slots free
    slots-freed strings behind i zero done e enough f np na = absurd (omega arith)
    slots-freed [] behind i (suc rounds) done e enough f np na =
        rw (tag-read i none done np na (slot-drop i slots behind none e).0)
    slots-freed (q ∷ strings) behind i (suc rounds) done e enough (new, live, f) np na =
        let (slot, rest) = slot-drop i slots (map some strings ++ none ∷ behind) (some q) e in
        rw
          (
            tag-read i (some q) done (not_yet p (q ∷ strings) done np)
                (not_yet a (q ∷ strings) done na) slot,
            free-next h q done (new, live, tt),
          )
          (slots-freed strings behind (suc i) rounds (q ∷ done) rest (omega arith) f np na)

  enough_rounds :
      (strings : List ℕ) (behind : List (Option ℕ))
      → length strings + 1 ≤ length (map some strings ++ none ∷ behind)
  enough_rounds [] behind = omega arith
  enough_rounds (q ∷ strings) behind = omega (arith, enough_rounds strings behind)

  free_tags-freed :
      (field : Field ProductPointers) (o : Option ℕ) (blocks done : List ℕ)
      → field s ≡ o
      → Tags h o blocks
      → Fresh h blocks done
      → member p (freed blocks done) ≡ false
      → free_tags p field (without done h) ≡ some (without (freed blocks done) h)
  free_tags-freed field none blocks done there e f np =
      let new : member p done ≡ false = not_yet p blocks done np in
      rw (loaded product_in h p s here done new, there, e) refl
  free_tags-freed field (some a) blocks done there (strings, behind, holds, e) f np =
      let f' : Fresh h (strings ++ a ∷ []) done = rw e at f in
      let (first, last) = Fresh-parts h strings (a ∷ []) done f' in
      let split = freed-append strings (a ∷ []) done in
      let np' : member p (a ∷ freed strings done) ≡ false = rw (e, split) at np in
      let new : member p (freed strings done) ≡ false =
        not_yet p (a ∷ []) (freed strings done) np' in
      let before = not_yet p strings done new in
      let na = last_new h strings a done f' in
      let slots = map some strings ++ none ∷ behind in
      rw
        (
          loaded product_in h p s here done before,
          there,
          still h a done (not_yet a strings done na),
          holds,
          slots-freed field a slots there holds strings behind 0 (length slots) done refl
              (enough_rounds strings behind) first new na,
          field-freed product_in h p s here field (freed strings done) new,
          there,
          free-next h a (freed strings done) last,
          e,
          split,
        )
        refl

again : (p : ℕ) (h : Heap) → h p ≡ none → free_product p h ≡ none
unfolding free_product free_fields
again p h e = rw e

-- A product of this heap, and the blocks that it is made of: each is allocated, and no two are the same.
pub record IsOwned (h : Heap) (p : ℕ) (blocks : List ℕ) : Type 0 where
  pub pointers : ProductPointers
  pub ingredients : List ℕ
  pub allergens : List ℕ
  pub additives : List ℕ
  pub pointed : h p ≡ some (product pointers)
  pub ingredients_tags : Tags h pointers.ingredients_tags ingredients
  pub allergens_tags : Tags h pointers.allergens_tags allergens
  pub additives_tags : Tags h pointers.additives_tags additives
  pub all :
      blocks
      ≡ blocks_of pointers text_fields ++ (ingredients ++ (allergens ++ (additives ++ p ∷ [])))
  pub fresh : Fresh h blocks []

-- Let the blocks that a product is made of be allocated and different from each other. Then free_product frees each of them, once, and leaves every other block alone; a second call is a fault.
pub free_product-frees :
    (h : Heap) (p : ℕ) (blocks : List ℕ)
    → IsOwned h p blocks
    → (h' : Heap) × (free_product p h ≡ some h')
      × OnlyFreed blocks h h'
      × (free_product p h' ≡ none)
unfolding free_product member
free_product-frees h p blocks o =
    let s = o.pointers in
    let texts = blocks_of s text_fields in
    let f0 : Fresh h (texts ++ (o.ingredients ++ (o.allergens ++ (o.additives ++ p ∷ [])))) [] =
      rw o.all at o.fresh in
    let (f1, g1) =
      Fresh-parts h texts (o.ingredients ++ (o.allergens ++ (o.additives ++ p ∷ []))) [] f0 in
    let d1 = freed texts [] in
    let (f2, g2) = Fresh-parts h o.ingredients (o.allergens ++ (o.additives ++ p ∷ [])) d1 g1 in
    let d2 = freed o.ingredients d1 in
    let (f3, g3) = Fresh-parts h o.allergens (o.additives ++ p ∷ []) d2 g2 in
    let d3 = freed o.allergens d2 in
    let (f4, g4) = Fresh-parts h o.additives (p ∷ []) d3 g3 in
    let d4 = freed o.additives d3 in
    let n4 : member p d4 ≡ false = g4.0 in
    let n3 : member p d3 ≡ false = not_yet p o.additives d3 n4 in
    let n2 : member p d2 ≡ false = not_yet p o.allergens d2 n3 in
    let n1 : member p d1 ≡ false = not_yet p o.ingredients d1 n2 in
    let list : freed blocks [] ≡ p ∷ d4 =
      ap (λ l. freed l []) o.all
      ∙ freed-append texts (o.ingredients ++ (o.allergens ++ (o.additives ++ p ∷ []))) []
      ∙ freed-append o.ingredients (o.allergens ++ (o.additives ++ p ∷ [])) d1
      ∙ freed-append o.allergens (o.additives ++ p ∷ []) d2
      ∙ freed-append o.additives (p ∷ []) d3 in
    (
      without (p ∷ d4) h,
      rw
          (
            untouched h,
            fields-freed product_in h p s (rw o.pointed) text_fields [] f1 n1,
            free_tags-freed h p s o.pointed (λ s. s.ingredients_tags) s.ingredients_tags
                o.ingredients d1 refl o.ingredients_tags f2 n2,
            free_tags-freed h p s o.pointed (λ s. s.allergens_tags) s.allergens_tags o.allergens d2
                refl o.allergens_tags f3 n3,
            free_tags-freed h p s o.pointed (λ s. s.additives_tags) s.additives_tags o.additives d3
                refl o.additives_tags f4 n4,
          )
          (free-next h p d4 g4),
      rw list at (only-freed h blocks),
      again p (without (p ∷ d4) h) (gone h p d4),
    )
