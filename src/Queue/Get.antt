-- ===== src/Queue/Get.antt =====
-- `sf_queue_get` on a table that stands for a list.
use smart_fridge.Prelude.{
  ℕ, zero, suc, ◌+◌, ◌-◌, ◌%◌, ◌≤◌, ◌<◌, ◌≡◌, ◌≢◌, refl, sym, ap, ◌∙◌, List, ◌∷◌, none, some,
  length, get_or, get_elem?, set, take, arith, length-set, get_or-set_self, get_or-set_ne,
  get_elem?-le, get_elem?-lt, get_elem?-take, length-take, ◌==◌, dec_lt, false,
}
use smart_fridge.Queue.{Queue, sf_queue_get, get_from}
use smart_fridge.Queue.Holds.{
  Holds, mod_wrap, behind, behind_last, behind-lt, behind_ne, behind-back,
}

module _ {ℓ} {A : Type ℓ} (q : Queue A) (xs : List A) (holds : Holds q xs) where
  open holds use {table, write_in, counted, fits, slots}

  here_get : (q.write_p + q.size - 0) % q.size ≡ q.write_p
  here_get = omega (arith, mod_wrap (q.write_p + q.size - 0) q.size (omega arith) (omega arith))

  -- the slot at the write position
  slot_here : get_or q.data_queue q.write_p none ≡ get_elem? xs (q.size - 1)
  slot_here = rw (← behind_last q.size q.write_p write_in) (slots (q.size - 1) (omega arith))

  -- the queue after the slot `p` was emptied
  pub taken : ℕ → Queue A
  taken p = record q { data_queue = set q.data_queue p none; write_p = p; current = q.current - 1 }

  get_round :
      (n i : ℕ) {p : ℕ} {v : A}
      → (q.write_p + q.size - i) % q.size ≡ p
      → get_or q.data_queue p none ≡ some v
      → get_from (suc n) i q ≡ (some v, taken p)
  unfolding get_from taken
  get_round n i e f = rw (e, f)

  get_skip :
      (n i : ℕ)
      → get_or q.data_queue ((q.write_p + q.size - i) % q.size) none ≡ none
      → get_from (suc n) i q ≡ get_from n (i + 1) q
  unfolding get_from
  get_skip n i e = rw e

  pub get-eq_full :
      length xs ≡ q.size → sf_queue_get q ≡ (get_elem? xs (q.size - 1), taken q.write_p)
  unfolding sf_queue_get taken
  get-eq_full h =
      let (x, last) = get_elem?-lt xs (q.size - 1) (omega arith) in
      rw (nonzero, last) (rounds q.size (omega arith) (slot_here ∙ last))
    where
      nonzero : (q.current == 0) ≡ false
      nonzero = ground (arith, counted, h, write_in)

      rounds :
          {x : A} (n : ℕ)
          → n ≢ 0
          → get_or q.data_queue q.write_p none ≡ some x
          → get_from n 0 q ≡ (some x, taken q.write_p)
      rounds zero ne e = absurd (ne refl)
      rounds (suc n) ne e = get_round n 0 here_get e

  taken_slots_full :
      (k : ℕ)
      → length xs ≡ q.size
      → k < q.size
      → get_or (taken q.write_p).data_queue (behind q.size q.write_p k) none
        ≡ get_elem? (take (q.size - 1) xs) k
  unfolding taken
  taken_slots_full k h lt = elim (dec_lt k (q.size - 1)) [
    | yes near ↦
        get_or-set_ne q.data_queue q.write_p (behind q.size q.write_p k) none none (λ e.
          behind_ne q.size q.write_p write_in (q.size - 1) k (omega arith) lt (omega arith)
            (behind_last q.size q.write_p write_in ∙ e))
        ∙ slots k lt
        ∙ sym (get_elem?-take (q.size - 1) xs k near)
    | no far ↦
        let e : k ≡ q.size - 1 = omega arith in
        rw (e, behind_last q.size q.write_p write_in)
          (get_or-set_self q.data_queue q.write_p none none (omega arith)
            ∙ sym (
                get_elem?-le (take (q.size - 1) xs) (q.size - 1)
                  (omega (arith, length-take (q.size - 1) xs))))
  ]

  pub taken-Holds_full : length xs ≡ q.size → Holds (taken q.write_p) (take (q.size - 1) xs)
  unfolding taken
  taken-Holds_full h = record {
    table = length-set q.data_queue q.write_p none ∙ table;
    write_in = write_in;
    counted = omega (arith, length-take (q.size - 1) xs);
    fits = omega (arith, length-take (q.size - 1) xs);
    slots = λ k lt. taken_slots_full k h lt;
  }

  -- A table that holds something and is not full: the slot at the write position is empty, and
  -- the newest item is one step back.
  pub get-eq_newest :
      (x : A)
      → get_elem? xs 0 ≡ some x
      → 0 < length xs
      → length xs < q.size
      → sf_queue_get q ≡ (some x, taken (behind q.size q.write_p 0))
  unfolding sf_queue_get
  get-eq_newest x first some_left h = rw nonzero (rounds q.size (omega arith))
    where
      nonzero : (q.current == 0) ≡ false
      nonzero = ground (arith, counted, some_left)

      rounds : (n : ℕ) → 2 ≤ n → get_from n 0 q ≡ (some x, taken (behind q.size q.write_p 0))
      rounds zero le = absurd (omega arith)
      rounds (suc zero) le = absurd (omega arith)
      rounds (suc (suc n)) le =
          get_skip (suc n) 0 (rw here_get (slot_here ∙ get_elem?-le xs _ (omega arith)))
          ∙ get_round n 1 {v = x} refl (slots 0 (omega arith) ∙ first)

  taken_slots_newest :
      (x : A) (ys : List A) (k : ℕ)
      → xs ≡ x ∷ ys
      → length xs < q.size
      → k < q.size
      → get_or
          (taken (behind q.size q.write_p 0)).data_queue
          (behind q.size (behind q.size q.write_p 0) k)
          none
        ≡ get_elem? ys k
  unfolding taken
  taken_slots_newest x ys k e h lt = elim (dec_lt (suc k) q.size) [
    | yes near ↦ rw (behind-back q.size q.write_p k write_in near) (
        get_or-set_ne q.data_queue p (behind q.size q.write_p (suc k)) none none
          (behind_ne q.size q.write_p write_in 0 (suc k) (omega arith) near (omega arith))
        ∙ slots (suc k) near
        ∙ ap (λ l. get_elem? l (suc k)) e)
    | no far ↦
        let last : k ≡ q.size - 1 = omega arith in
        rw (last, behind_last q.size p (behind-lt q.size q.write_p write_in 0 (omega arith)))
          (get_or-set_self q.data_queue p none none
              (omega (arith, behind-lt q.size q.write_p write_in 0 (omega arith)))
            ∙ sym (get_elem?-le ys (q.size - 1) (omega (arith, ap length e))))
  ]
    where
      p : ℕ
      p = behind q.size q.write_p 0

  pub taken-Holds_newest :
      (x : A) (ys : List A)
      → xs ≡ x ∷ ys
      → length xs < q.size
      → Holds (taken (behind q.size q.write_p 0)) ys
  unfolding taken
  taken-Holds_newest x ys e h = record {
    table = length-set q.data_queue (behind q.size q.write_p 0) none ∙ table;
    write_in = behind-lt q.size q.write_p write_in 0 (omega arith);
    counted = omega (arith, ap length e);
    fits = omega (arith, ap length e);
    slots = λ k lt. taken_slots_newest x ys k e h lt;
  }

  pub get-eq_empty : length xs ≡ 0 → sf_queue_get q ≡ (none, q)
  unfolding sf_queue_get
  get-eq_empty h = ground (arith, counted, h)

  pub size-taken : (p : ℕ) → (taken p).size ≡ q.size
  unfolding taken
  size-taken p = refl
