-- ===== src/Queue/Keeps.antt =====
-- Which item `sf_queue_get` returns, and that it loses none.
use smart_fridge.Prelude.{
  ℕ, suc, ◌<◌, ◌≡◌, ap, ◌∙◌, List, [], ◌∷◌, ◌++◌, some, length, get_elem?, take, get_elem?-lt,
  arith, ◌==◌, Bool-cases, inl, inr, lt→ltb, if◌then◌else◌,
}
use mathlib.Core.List.{Perm, perm_append_singleton}
use mathlib.Core.List.Perm
use mathlib.Core.Path.{subst}
use smart_fridge.Queue.{Queue, sf_queue_add, sf_queue_get}
use smart_fridge.Queue.Spec
use smart_fridge.Queue.Holds.{Holds}
use smart_fridge.Queue.Refine.{add_refines, get_refines}

module _ {ℓ} {A : Type ℓ} where
  -- A list is all but its last item, and that one.
  take-last :
      (x : A) (xs : List A) {y : A}
      → get_elem? (x ∷ xs) (length xs) ≡ some y
      → take (length xs) (x ∷ xs) ++ y ∷ [] ≡ x ∷ xs
  take-last x [] e = cc
  take-last x (z ∷ xs) e = ap (λ l. x ∷ l) (take-last z xs e)

  -- So for the list.
  pop-perm :
      (cap : ℕ) (x : A) (xs : List A)
      → (y : A) × ((Spec.pop cap (x ∷ xs)).0 ≡ some y)
        × Perm (x ∷ xs) (y ∷ (Spec.pop cap (x ∷ xs)).1)
  unfolding Spec.pop
  pop-perm cap x xs = elim (Bool-cases (suc (length xs) == cap)) [
    | inl full ↦
        let (y, e) = get_elem?-lt (x ∷ xs) (length xs) (omega arith) in
        (
          y,
          rw full e,
          rw full (
              subst (λ l. Perm l (y ∷ take (length xs) (x ∷ xs))) (take-last x xs e)
                (perm_append_singleton y (take (length xs) (x ∷ xs)))),
        )
    | inr room ↦ (x, rw room, rw room (Perm.refl (x ∷ xs)))
  ]

  -- What a table with items yields, and what it leaves, are together the items that it held.
  pub get-perm :
      (q : Queue A) (x : A) (xs : List A)
      → Holds q (x ∷ xs)
      → (y : A) × (ys : List A) × ((sf_queue_get q).0 ≡ some y)
        × Holds (sf_queue_get q).1 ys
        × Perm (x ∷ xs) (y ∷ ys)
  get-perm q x xs holds =
      let (r, rest, same) = get_refines q (x ∷ xs) holds in
      let (y, e, perm) = pop-perm q.size x xs in
      (y, (Spec.pop q.size (x ∷ xs)).1, r ∙ e, rest, perm)

  -- An item that was just added to a table with room is the next to be returned, unless it filled
  -- the table: then the oldest item is.
  pub get-add :
      (q : Queue A) (xs : List A) (v : A)
      → Holds q xs
      → length xs < q.size
      → (sf_queue_get (sf_queue_add q (some v)).1).0
        ≡ (if suc (length xs) == q.size then get_elem? (v ∷ xs) (length xs) else some v)
  unfolding Spec.push Spec.pop
  get-add q xs v holds h =
      let (r, added, same) = add_refines q xs v holds in
      let added' : Holds (sf_queue_add q (some v)).1 (v ∷ xs) =
        rw (lt→ltb (length xs) q.size h) at added in
      let (r', rest, same') = get_refines (sf_queue_add q (some v)).1 (v ∷ xs) added' in
      r'
      ∙ rw same (elim (Bool-cases (suc (length xs) == q.size)) [
        | inl full ↦ rw full
        | inr room ↦ rw room
      ])
