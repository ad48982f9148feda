-- ===== src/Queue/Add.antt =====
-- `sf_queue_set` and `sf_queue_add` on a table that stands for a list.
use smart_fridge.Prelude.{
  ℕ, zero, suc, ◌+◌, ◌-◌, ◌%◌, ◌≤◌, ◌<◌, ◌≡◌, ◌≢◌, ◌⊎◌, inl, inr, refl, ap, ◌∙◌, List, [], ◌∷◌,
  Option, none, some, length, get_or, get_elem?, set, replicate, arith, Bool-cases, lt→ltb,
  get_or-replicate, length-replicate, length-set, get_or-set_self, get_or-set_ne, get_elem?-le,
}
use smart_fridge.Prelude.Int.{ℤ, pos, pos_part, ltb_ℤ, ◌≤ℤ◌}
use smart_fridge.Queue.{Queue, sf_queue_set, sf_queue_add, add_from}
use smart_fridge.Queue.Holds.{
  Holds, mod_wrap, behind, next_cases, behind_last, behind_ne, behind-next, behind-next_zero,
}
use native.Mathlib.Nat.{mod-eq_of_lt}

module _ {ℓ} {A : Type ℓ} where
  unfoldable pub empty : ℕ → Queue A
  empty n = record { data_queue = replicate n none; size = n; current = 0; write_p = 0 }

  pub empty-Holds : (n : ℕ) → 0 < n → Holds (empty n) []
  unfolding empty
  empty-Holds n h = record {
    table = length-replicate n none;
    write_in = h;
    counted = refl;
    fits = omega arith;
    slots = λ k lt. get_or-replicate n (behind n 0 k) none;
  }

  -- sf_queue_set refuses a size below 5 with 1 and one above 200 with 2, and leaves the queue
  -- alone; any other size yields an empty table of that many slots.
  pub set-Holds :
      (q : Queue A) (size : ℤ)
      → (size ≤ℤ pos 4) × (sf_queue_set q size ≡ (1, q))
        ⊎ (pos 201 ≤ℤ size) × (sf_queue_set q size ≡ (2, q))
        ⊎ (pos 5 ≤ℤ size)
          × (size ≤ℤ pos 200)
          × ((sf_queue_set q size).0 ≡ 0)
          × Holds (sf_queue_set q size).1 []
          × (pos (sf_queue_set q size).1.size ≡ size)
  unfolding sf_queue_set
  set-Holds q size = elim (Bool-cases (ltb_ℤ size (pos 5))) [
    | inl small ↦ inl (ground arith, rw small)
    | inr fits ↦ elim (Bool-cases (ltb_ℤ (pos 200) size)) [
      | inl large ↦ inr (inl (ground arith, rw (fits, large)))
      | inr fine ↦
          rw (fits, fine)
            (inr (
              inr (
                ground arith,
                ground arith,
                refl,
                unfold empty in empty-Holds (pos_part size) (ground arith),
                ground arith,
              )))
    ]
  ]

  module _ (q : Queue A) (xs : List A) (holds : Holds q xs) where
    open holds use {table, write_in, counted, fits, slots}

    -- the slot at the write position, as each loop spells it
    slot_here : (p : ℕ) → p ≡ q.write_p → get_or q.data_queue p none ≡ get_elem? xs (q.size - 1)
    slot_here p e =
        rw (e, ← behind_last q.size q.write_p write_in) (slots (q.size - 1) (omega arith))

    here_add : (q.write_p + 0) % q.size ≡ q.write_p
    here_add = omega (arith, mod-eq_of_lt {n = q.write_p + 0} {m = q.size} (omega arith))

    here_get : (q.write_p + q.size - 0) % q.size ≡ q.write_p
    here_get = omega (arith, mod_wrap (q.write_p + q.size - 0) q.size (omega arith) (omega arith))

    pub added : A → Queue A
    added v = record q {
      data_queue = set q.data_queue q.write_p (some v);
      write_p = (q.write_p + 1) % q.size;
      current = q.current + 1;
    }

    pub add-eq : (v : A) → length xs < q.size → sf_queue_add q (some v) ≡ (0, added v)
    unfolding sf_queue_add added
    add-eq v h =
        rw (lt→ltb q.current q.size (omega arith)) (
          first_round q.size (omega arith) (slot_here _ here_add ∙ get_elem?-le xs _ (omega arith)))
      where
        next : (q.write_p + 0 + 1) % q.size ≡ (q.write_p + 1) % q.size
        next = ap (λ k. k % q.size) (omega arith)

        first_round :
            (n : ℕ)
            → n ≢ 0
            → get_or q.data_queue ((q.write_p + 0) % q.size) none ≡ none
            → add_from n 0 q (some v) ≡ (0, added v)
        first_round zero ne e = absurd (ne refl)
        first_round (suc n) ne e = rw (e, next, here_add)

    added_slots :
        (v : A) (k : ℕ)
        → length xs < q.size
        → k < q.size
        → get_or (added v).data_queue (behind q.size (added v).write_p k) none
          ≡ get_elem? (v ∷ xs) k
    unfolding added
    added_slots v zero h lt =
        rw (behind-next_zero q.size q.write_p write_in)
          (get_or-set_self q.data_queue q.write_p (some v) none (omega arith))
    added_slots v (suc k) h lt = rw (behind-next q.size q.write_p k write_in lt) (
        get_or-set_ne q.data_queue q.write_p (behind q.size q.write_p k) (some v) none (λ e.
          behind_ne q.size q.write_p write_in (q.size - 1) k (omega arith) (omega arith)
            (omega arith) (behind_last q.size q.write_p write_in ∙ e))
        ∙ slots k (omega arith))

    pub added-Holds : (v : A) → length xs < q.size → Holds (added v) (v ∷ xs)
    unfolding added
    added-Holds v h = record {
      table = length-set q.data_queue q.write_p (some v) ∙ table;
      write_in = omega (arith, next_cases q.size q.write_p write_in);
      counted = omega arith;
      fits = omega arith;
      slots = λ k lt. added_slots v k h lt;
    }

    pub add-eq_full : (v : Option A) → q.size ≤ length xs → sf_queue_add q v ≡ (1, q)
    unfolding sf_queue_add
    add-eq_full v h = ground (arith, counted, h)

    pub size-added : (v : A) → (added v).size ≡ q.size
    unfolding added
    size-added v = refl
