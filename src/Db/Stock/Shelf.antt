-- ===== src/Db/Stock/Shelf.antt =====
-- The statements of sf_db.c on such rows.
use smart_fridge.Prelude.{
  ℕ, zero, suc, ◌+◌, ◌-◌, ◌≡◌, refl, sym, ◌∙◌, ap, Bytes, some, List, [], ◌∷◌, ◌++◌, true, false,
  str_eq, str_eq_iff, if◌then◌else◌, ◌&&◌, arith, Bool-cases, inl, inr, ◌⊎◌,
}
use mathlib.Core.Path.{subst}
use smart_fridge.Prelude.Int.{pos, eq_ℤ, ◌+ℤ◌, ◌-ℤ◌}
use smart_fridge.Sql.{ProductRow, sql_eq, any_row, update_where, delete_where}
use smart_fridge.Db.Stock.{has, count, IsStocked, Shelf}

abbrev pub raised : Bytes → ℕ → List ProductRow → List ProductRow
raised code n rows =
    update_where (λ x. sql_eq x.code (some code)) (λ x. record x { elements = x.elements +ℤ pos n })
      rows

abbrev pub lowered : Bytes → List ProductRow → List ProductRow
lowered code rows =
    update_where (λ x. sql_eq x.code (some code)) (λ x. record x { elements = x.elements -ℤ pos 1 })
      rows

abbrev pub cleaned : List ProductRow → List ProductRow
cleaned rows = delete_where (λ x. eq_ℤ x.elements (pos 0)) rows

add_pos : (m n : ℕ) → pos m +ℤ pos n ≡ pos (m + n)
unfolding ◌+ℤ◌
add_pos m n = ground arith

add_suc : (m n : ℕ) → pos (suc m) +ℤ pos n ≡ pos (suc (m + n))
add_suc m n = add_pos (suc m) n ∙ ap pos (omega arith)

less_one : (m : ℕ) → pos (suc m) -ℤ pos 1 ≡ pos m
unfolding ◌-ℤ◌
less_one m = ground arith

not_zero : (m : ℕ) → eq_ℤ (pos (suc m)) (pos 0) ≡ false
not_zero m = ground arith

has-raised :
    (j code : Bytes) (n : ℕ) (rows : List ProductRow) → has j (raised code n rows) ≡ has j rows
unfolding any_row update_where
has-raised j code n [] = refl
has-raised j code n (r ∷ rs) = elim (Bool-cases (sql_eq r.code (some code))) [
  | inl e ↦ rw (e, has-raised j code n rs)
  | inr e ↦ rw (e, has-raised j code n rs)
]

has-taken :
    (j code : Bytes) (rows : List ProductRow)
    → has j rows ≡ false
    → has j (cleaned (lowered code rows)) ≡ false
unfolding any_row update_where delete_where
has-taken j code [] h = refl
has-taken j code (r ∷ rs) h =
    let here : sql_eq r.code (some j) ≡ false = ground arith in
    let later : has j rs ≡ false = ground arith in
    elim (Bool-cases (sql_eq r.code (some code))) [
      | inl e ↦ elim (Bool-cases (eq_ℤ (r.elements -ℤ pos 1) (pos 0))) [
        | inl z ↦ rw (e, z, has-taken j code rs later)
        | inr z ↦ rw (e, z, here, has-taken j code rs later)
      ]
      | inr e ↦ elim (Bool-cases (eq_ℤ r.elements (pos 0))) [
        | inl z ↦ rw (e, z, has-taken j code rs later)
        | inr z ↦ rw (e, z, here, has-taken j code rs later)
      ]
    ]

-- no row, no elements
pub count-absent : (j : Bytes) (rows : List ProductRow) → has j rows ≡ false → count rows j ≡ 0
unfolding any_row
count-absent j [] h = refl
count-absent j (r ∷ rs) h =
    let here : sql_eq r.code (some j) ≡ false = ground arith in
    let later : has j rs ≡ false = ground arith in rw (here, count-absent j rs later)

zero_or_suc : (n : ℕ) → (n ≡ 0) ⊎ ((m : ℕ) × (n ≡ suc m))
zero_or_suc zero = inl refl
zero_or_suc (suc n) = inr (n, refl)

same_code : (a b j : Bytes) → str_eq a b ≡ true → str_eq b j ≡ str_eq a j
same_code a b j e = ap (λ x. str_eq x j) (sym ((str_eq_iff a b).0 e))

differs_sym : (a b : Bytes) → str_eq a b ≡ false → str_eq b a ≡ false
differs_sym a b e = elim (Bool-cases (str_eq b a)) [
  | inl g ↦ absurd (ground (arith, e, (str_eq_iff a b).1 (sym ((str_eq_iff b a).0 g))))
  | inr g ↦ g
]

has-snoc :
    (j : Bytes) (rows : List ProductRow) (r : ProductRow)
    → has j rows ≡ false
    → sql_eq r.code (some j) ≡ false
    → has j (rows ++ r ∷ []) ≡ false
unfolding any_row
has-snoc j [] r h e = rw e
has-snoc j (x ∷ rows) r h e = ground (arith, has-snoc j rows r)

-- a code that no row has, taken apart
has-cons :
    (j : Bytes) (x : ProductRow) (rows : List ProductRow) (k : Bytes)
    → x.code ≡ some k
    → has j (x ∷ rows) ≡ false
    → (str_eq k j ≡ false) × (has j rows ≡ false)
unfolding any_row
has-cons j x rows k e h = let h' = rw e at h in (ground arith, ground arith)

-- A code is not another one's.
other_code : (a b j : Bytes) → str_eq a b ≡ false → str_eq a j ≡ true → str_eq b j ≡ false
other_code a b j e f = elim (Bool-cases (str_eq b j)) [
  | inl g ↦
      absurd
        (ground (arith, e, (str_eq_iff a b).1 ((str_eq_iff a j).0 f ∙ sym ((str_eq_iff b j).0 g))))
  | inr g ↦ g
]

module _ (name_of : Bytes → Bytes)
    (names : (a b : Bytes) → str_eq (name_of a) (name_of b) ≡ str_eq a b) where
  -- Where each code has its name, a search for a name finds the rows with its code.
  pub by_name :
      (code : Bytes) (f : ProductRow → ProductRow) (rows : List ProductRow)
      → Shelf name_of rows
      → update_where (λ x. sql_eq x.name (some (name_of code))) f rows
        ≡ update_where (λ x. sql_eq x.code (some code)) f rows
  unfolding update_where
  by_name code f [] h = refl
  by_name code f (r ∷ rs) (s, h) = rw (s.name, s.code, names s.key code, by_name code f rs h)

  pub Shelf-raised :
      (code : Bytes) (n : ℕ) (rows : List ProductRow)
      → Shelf name_of rows
      → Shelf name_of (raised code n rows)
  unfolding update_where
  Shelf-raised code n [] h = tt
  Shelf-raised code n (r ∷ rs) (s, h) = elim (Bool-cases (sql_eq r.code (some code))) [
    | inl e ↦ rw e (
      record {
        key = s.key;
        more = s.more + n;
        code = s.code;
        name = s.name;
        elements = rw s.elements (add_suc s.more n);
        alone = has-raised s.key code n rs ∙ s.alone;
      },
      Shelf-raised code n rs h,
    )
    | inr e ↦ rw e (
      record {
        key = s.key;
        more = s.more;
        code = s.code;
        name = s.name;
        elements = s.elements;
        alone = has-raised s.key code n rs ∙ s.alone;
      },
      Shelf-raised code n rs h,
    )
  ]

  -- Raising a code that is there.
  pub count-raised :
      (j code : Bytes) (n : ℕ) (rows : List ProductRow)
      → Shelf name_of rows
      → count (raised code n rows) j
        ≡ count rows j + (if str_eq code j && has code rows then n else 0)
  unfolding update_where any_row
  count-raised j code n [] h = ground arith
  count-raised j code n (r ∷ rs) (s, h) =
      let ih = count-raised j code n rs h in
      elim (Bool-cases (str_eq s.key code)) [
        | inl e ↦ elim (Bool-cases (str_eq s.key j)) [
          | inl f ↦
              rw (s.code, e, f, s.elements, same_code s.key code j e, f, add_suc s.more n)
                (omega arith)
          | inr f ↦
              rw (s.code, e, f, same_code s.key code j e, f)
                (rw (same_code s.key code j e, f) at ih)
        ]
        | inr e ↦ elim (Bool-cases (str_eq s.key j)) [
          | inl f ↦ rw (s.code, e, f, other_code s.key code j e f) (omega arith)
          | inr f ↦ rw (s.code, e, f) ih
        ]
      ]

  -- the row of the code, with one element less or gone
  Shelf-lowered :
      (code : Bytes) (r : ProductRow) (rs : List ProductRow)
      → IsStocked name_of r rs
      → sql_eq r.code (some code) ≡ true
      → Shelf name_of (cleaned (lowered code rs))
      → Shelf name_of (cleaned (lowered code (r ∷ rs)))
  unfolding update_where delete_where
  Shelf-lowered code r rs s e h = elim (zero_or_suc s.more) [
    | inl z ↦ rw (e, s.elements, less_one, z) h
    | inr (m, z) ↦
        rw (e, s.elements, less_one, z, not_zero m)
          (
            record {
              key = s.key;
              more = m;
              code = s.code;
              name = s.name;
              elements = refl;
              alone = has-taken s.key code rs s.alone;
            },
            h,
          )
  ]

  pub Shelf-taken :
      (code : Bytes) (rows : List ProductRow)
      → Shelf name_of rows
      → Shelf name_of (cleaned (lowered code rows))
  unfolding update_where delete_where
  Shelf-taken code [] h = tt
  Shelf-taken code (r ∷ rs) (s, h) = elim (Bool-cases (sql_eq r.code (some code))) [
    | inl e ↦ Shelf-lowered code r rs s e (Shelf-taken code rs h)
    | inr e ↦
        rw (e, s.elements, not_zero s.more)
          (
            record {
              key = s.key;
              more = s.more;
              code = s.code;
              name = s.name;
              elements = refl;
              alone = has-taken s.key code rs s.alone;
            },
            Shelf-taken code rs h,
          )
  ]

  -- Taking one element, if there is one.
  pub count-taken :
      (j code : Bytes) (rows : List ProductRow)
      → Shelf name_of rows
      → count (cleaned (lowered code rows)) j ≡ count rows j - (if str_eq code j then 1 else 0)
  unfolding update_where delete_where
  count-taken j code [] h = ground arith
  count-taken j code (r ∷ rs) (s, h) =
      let ih = count-taken j code rs h in
      elim (Bool-cases (str_eq s.key code)) [
        | inl e ↦ elim (zero_or_suc s.more) [
          | inl z ↦ elim (Bool-cases (str_eq s.key j)) [
            | inl f ↦
                let gone : has j rs ≡ false =
                  subst (λ x. has x rs ≡ false) ((str_eq_iff s.key j).0 f) s.alone in
                rw (s.code, e, s.elements, less_one, z, f, same_code s.key code j e, f)
                  (count-absent j _ (has-taken j code rs gone))
            | inr f ↦
                rw (s.code, e, s.elements, less_one, z, f, same_code s.key code j e, f)
                  (rw (same_code s.key code j e, f) at ih)
          ]
          | inr (m, z) ↦ elim (Bool-cases (str_eq s.key j)) [
            | inl f ↦
                rw (s.code, e, s.elements, less_one, z, not_zero m, f, same_code s.key code j e, f)
                  (omega arith)
            | inr f ↦
                rw (s.code, e, s.elements, less_one, z, not_zero m, f, same_code s.key code j e, f)
                  (rw (same_code s.key code j e, f) at ih)
          ]
        ]
        | inr e ↦ elim (Bool-cases (str_eq s.key j)) [
          | inl f ↦
              rw (s.code, e, s.elements, not_zero s.more, f, other_code s.key code j e f)
                (omega arith)
          | inr f ↦ rw (s.code, e, s.elements, not_zero s.more, f) ih
        ]
      ]

  -- A new code.
  pub Shelf-added :
      (rows : List ProductRow) (r : ProductRow)
      → Shelf name_of rows
      → (s : IsStocked name_of r []) → has s.key rows ≡ false
      → Shelf name_of (rows ++ r ∷ [])
  unfolding any_row
  Shelf-added [] r h s n = (s, tt)
  Shelf-added (x ∷ rows) r (t, h) s n =
      let (differs, later) = has-cons s.key x rows t.key t.code n in
      (
        record {
          key = t.key;
          more = t.more;
          code = t.code;
          name = t.name;
          elements = t.elements;
          alone = has-snoc t.key rows r t.alone (rw s.code (differs_sym t.key s.key differs));
        },
        Shelf-added rows r h s later,
      )

  pub count-added :
      (j : Bytes) (rows : List ProductRow) (r : ProductRow)
      → Shelf name_of rows
      → (s : IsStocked name_of r []) → has s.key rows ≡ false
      → count (rows ++ r ∷ []) j ≡ count rows j + (if str_eq s.key j then suc s.more else 0)
  unfolding any_row
  count-added j [] r h s n = rw (s.code, s.elements) (ground arith)
  count-added j (x ∷ rows) r (t, h) s n =
      let (differs, later) = has-cons s.key x rows t.key t.code n in
      let ih = count-added j rows r h s later in
      elim (Bool-cases (str_eq t.key j)) [
        | inl f ↦ rw (t.code, f, other_code t.key s.key j differs f) (omega arith)
        | inr f ↦ rw (t.code, f) ih
      ]
