-- ===== src/Queue/Refine.antt =====
-- Every operation of tools/queue.c against the list of Queue/Spec.
use smart_fridge.Prelude.{
  ℕ, suc, ◌-◌, ◌<◌, ◌≡◌, inl, inr, refl, List, [], ◌∷◌, none, some, length, arith, ltb, Bool-cases,
  ltb→lt, ltb_false→le, ◌==◌, ==_iff, get_elem?-lt,
}
use smart_fridge.Queue.{Queue, sf_queue_add, sf_queue_get}
use smart_fridge.Queue.Spec
use smart_fridge.Queue.Spec.{Op, Reply, add, get, added, got}
use smart_fridge.Queue.Holds.{Holds}
use smart_fridge.Queue.Add
use smart_fridge.Queue.Get

module _ {ℓ} {A : Type ℓ} where
  -- `sf_queue_add` of a pointer that is not NULL replies as `Spec.push`, and leaves a table that
  -- stands for the list of `Spec.push`.
  pub add_refines :
      (q : Queue A) (xs : List A) (v : A)
      → Holds q xs
      → ((sf_queue_add q (some v)).0 ≡ (Spec.push q.size xs v).0)
        × Holds (sf_queue_add q (some v)).1 (Spec.push q.size xs v).1
        × ((sf_queue_add q (some v)).1.size ≡ q.size)
  unfolding Spec.push
  add_refines q xs v holds = elim (Bool-cases (ltb (length xs) q.size)) [
    | inl room ↦
        let lt = ltb→lt (length xs) q.size room in
        rw (room, Add.add-eq q xs holds v lt)
          (refl, Add.added-Holds q xs holds v lt, Add.size-added q xs holds v)
    | inr full ↦
        rw (full, Add.add-eq_full q xs holds (some v) (ltb_false→le (length xs) q.size full))
          (refl, holds, refl)
  ]

  -- `sf_queue_get` returns what `Spec.pop` takes from the list, NULL from the empty one, and leaves
  -- a table that stands for the rest.
  pub get_refines :
      (q : Queue A) (xs : List A)
      → Holds q xs
      → ((sf_queue_get q).0 ≡ (Spec.pop q.size xs).0)
        × Holds (sf_queue_get q).1 (Spec.pop q.size xs).1
        × ((sf_queue_get q).1.size ≡ q.size)
  unfolding Spec.pop
  get_refines q [] holds = rw (Get.get-eq_empty q [] holds refl) (refl, holds, refl)
  get_refines q (x ∷ xs) holds = elim (Bool-cases (suc (length xs) == q.size)) [
    | inl full ↦
        let e : suc (length xs) ≡ q.size = (==_iff _ _).0 full in
        let n : q.size - 1 ≡ length xs = omega arith in
        rw (full, Get.get-eq_full q (x ∷ xs) holds e)
          (
            rw n refl,
            rw n at (Get.taken-Holds_full q (x ∷ xs) holds e),
            Get.size-taken q (x ∷ xs) holds _,
          )
    | inr room ↦
        let lt : suc (length xs) < q.size = ground (arith, holds.fits) in
        rw (room, Get.get-eq_newest q (x ∷ xs) holds x refl (omega arith) lt)
          (
            refl,
            Get.taken-Holds_newest q (x ∷ xs) holds x xs refl lt,
            Get.size-taken q (x ∷ xs) holds _,
          )
  ]

  -- A client's calls in order, with what each returns.
  pub run : Queue A → List (Op A) → List (Reply A)
  run q [] = []
  run q (add v ∷ ops) = let (r, q') = sf_queue_add q (some v) in added r ∷ run q' ops
  run q (get ∷ ops) = let (r, q') = sf_queue_get q in got r ∷ run q' ops

  -- No sequence of calls of sf_queue_add, of a pointer that is not NULL, and sf_queue_get tells a
  -- table that stands for a list from the list of Queue/Spec.
  pub run_refines :
      (ops : List (Op A)) (q : Queue A) (xs : List A)
      → Holds q xs
      → run q ops ≡ Spec.run q.size xs ops
  unfolding run Spec.run
  run_refines [] q xs holds = refl
  run_refines (add v ∷ ops) q xs holds =
      let (r, holds', same) = add_refines q xs v holds in rw (run_refines ops _ _ holds', r, same)
  run_refines (get ∷ ops) q xs holds =
      let (r, holds', same) = get_refines q xs holds in rw (run_refines ops _ _ holds', r, same)

  -- An item that is there is returned.
  pop-some : (cap : ℕ) (x : A) (xs : List A) → (y : A) × ((Spec.pop cap (x ∷ xs)).0 ≡ some y)
  unfolding Spec.pop
  pop-some cap x xs = elim (Bool-cases (suc (length xs) == cap)) [
    | inl full ↦ let (y, e) = get_elem?-lt (x ∷ xs) (length xs) (omega arith) in (y, rw full e)
    | inr room ↦ (x, rw room)
  ]

  -- Only an empty table yields NULL.
  pub get-none : (q : Queue A) (xs : List A) → Holds q xs → (sf_queue_get q).0 ≡ none → xs ≡ []
  get-none q [] holds e = refl
  get-none q (x ∷ xs) holds e =
      let (r, rest, same) = get_refines q (x ∷ xs) holds in let (y, f) = pop-some q.size x xs in cc
