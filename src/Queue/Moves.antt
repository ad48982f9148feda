-- ===== src/Queue/Moves.antt =====
-- What an operation moves into a table and out of it, as lists that are permutations of each other.
use smart_fridge.Prelude.{
  ℕ, zero, suc, ◌≡◌, sym, some, List, [], ◌∷◌, ◌++◌, length, append_assoc, ltb, Bool-cases, inl,
  inr,
}
use mathlib.Core.List.{Perm, perm_middle, perm_append_comm}
use mathlib.Core.List.Perm
use mathlib.Core.Path.{subst}
use smart_fridge.Queue.{Queue, sf_queue_add, sf_queue_get}
use smart_fridge.Queue.Spec
use smart_fridge.Queue.Holds.{Holds}
use smart_fridge.Queue.Refine.{add_refines, get_refines}
use smart_fridge.Queue.Keeps.{get-perm}

module _ {A : Type 0} where
  -- An item is accepted where `sf_queue_add` returns 0.
  abbrev pub if_accepted : ℕ → A → List A
  if_accepted zero x = x ∷ []
  if_accepted (suc r) x = []

  abbrev pub if_refused : ℕ → A → List A
  if_refused zero x = []
  if_refused (suc r) x = x ∷ []

  -- An item that is added stands behind `front` and in the table, or nowhere.
  pub added-Perm :
      (q : Queue A) (x : A) (front xs : List A)
      → Holds q xs
      → Perm
          (if_accepted (sf_queue_add q (some x)).0 x ++ (front ++ xs))
          (front ++ (Spec.push q.size xs x).1)
  unfolding Spec.push
  added-Perm q x front xs h =
      let (reply, added, same) = add_refines q xs x h in
      elim (Bool-cases (ltb (length xs) q.size)) [
        | inl room ↦
            let zero_reply : (sf_queue_add q (some x)).0 ≡ 0 = rw room at reply in
            rw (room, zero_reply) (Perm.symm (perm_middle front xs))
        | inr full ↦
            let one_reply : (sf_queue_add q (some x)).0 ≡ 1 = rw full at reply in
            rw (full, one_reply) (Perm.refl (front ++ xs))
      ]

  pub taken-Perm :
      (q : Queue A) (x : A) (xs : List A)
      → Holds q xs
      → (sf_queue_get q).0 ≡ some x
      → (rest : List A) × Holds (sf_queue_get q).1 rest × Perm xs (x ∷ rest)
  unfolding Spec.pop
  taken-Perm q x [] h e = let (r, kept, same) = get_refines q [] h in absurd (cc)
  taken-Perm q x (y ∷ ys) h e =
      let (z, zs, got, holds, perm) = get-perm q y ys h in
      let same : z ≡ x = cc in (zs, holds, subst (λ w. Perm (y ∷ ys) (w ∷ zs)) same perm)

  -- two lists in front of a third, swapped
  swap_front : (a b x : List A) → Perm (a ++ (b ++ x)) (b ++ (a ++ x))
  swap_front a b x =
      subst (λ l. Perm l (b ++ (a ++ x))) (append_assoc a b x)
        (subst (λ l. Perm ((a ++ b) ++ x) l) (append_assoc b a x)
          (Perm.append_right x (perm_append_comm a b)))

  -- What steps have put in and taken out, with one step more.
  pub in_front :
      (a s acc snt lu lw lv : List A)
      → Perm (acc ++ lu) (snt ++ lw)
      → Perm (a ++ lw) (s ++ lv)
      → Perm ((a ++ acc) ++ lu) ((s ++ snt) ++ lv)
  in_front a s acc snt lu lw lv p q =
      subst (λ l. Perm l ((s ++ snt) ++ lv)) (sym (append_assoc a acc lu))
        (subst (λ l. Perm (a ++ (acc ++ lu)) l) (sym (append_assoc s snt lv))
          (Perm.trans (Perm.append_left a p) (
            Perm.trans (swap_front a snt lw)
              (Perm.trans (Perm.append_left snt q) (swap_front snt s lv)))))
