-- ===== src/Samples/Stock.antt =====
-- Names of codes that differ where the codes do, under which the sample product is named.
use smart_fridge.Prelude.{
  ◌≡◌, refl, sym, ◌∙◌, ap, Bytes, codes, false, str_eq, str_eq_iff, if◌then◌else◌, arith,
  Bool-cases, inl, inr,
}
use smart_fridge.Decoder.Stored.Tests.{to_store}
use smart_fridge.Db.Stock.Refine.{IsStock}

abbrev pub salt_code : Bytes
salt_code = codes "84"

abbrev salt_name : Bytes
salt_name = codes "Salt"

-- Every code is its name, but for those of salt.
abbrev pub name_of : Bytes → Bytes
name_of code =
    if str_eq code salt_code then salt_name else if str_eq code salt_name then salt_code else code

str_eq_swap : (a b : Bytes) → str_eq a b ≡ false → str_eq b a ≡ false
str_eq_swap a b e = elim (Bool-cases (str_eq b a)) [
  | inl g ↦ absurd (ground (arith, e, (str_eq_iff a b).1 (sym ((str_eq_iff b a).0 g))))
  | inr g ↦ g
]

-- The code of salt.
names_salt : (b : Bytes) → str_eq salt_name (name_of b) ≡ str_eq salt_code b
names_salt b = elim (Bool-cases (str_eq b salt_code)) [
  | inl e ↦ rw ((str_eq_iff b salt_code).0 e) (unfold str_eq in refl)
  | inr e ↦ elim (Bool-cases (str_eq b salt_name)) [
    | inl f ↦ rw ((str_eq_iff b salt_name).0 f) (unfold str_eq in refl)
    | inr f ↦ rw (e, f, str_eq_swap b salt_name f, str_eq_swap b salt_code e)
  ]
]

names_name : (b : Bytes) → str_eq salt_code (name_of b) ≡ str_eq salt_name b
names_name b = elim (Bool-cases (str_eq b salt_code)) [
  | inl e ↦ rw ((str_eq_iff b salt_code).0 e) (unfold str_eq in refl)
  | inr e ↦ elim (Bool-cases (str_eq b salt_name)) [
    | inl f ↦ rw ((str_eq_iff b salt_name).0 f) (unfold str_eq in refl)
    | inr f ↦ rw (e, f, str_eq_swap b salt_name f, str_eq_swap b salt_code e)
  ]
]

names_other :
    (a b : Bytes)
    → str_eq a salt_code ≡ false
    → str_eq a salt_name ≡ false
    → str_eq a (name_of b) ≡ str_eq a b
names_other a b e f = elim (Bool-cases (str_eq b salt_code)) [
  | inl g ↦ rw (g, f, (str_eq_iff b salt_code).0 g, e)
  | inr g ↦ elim (Bool-cases (str_eq b salt_name)) [
    | inl h ↦ rw (g, h, e, (str_eq_iff b salt_name).0 h, f)
    | inr h ↦ rw (g, h)
  ]
]

pub names : (a b : Bytes) → str_eq (name_of a) (name_of b) ≡ str_eq a b
names a b = elim (Bool-cases (str_eq a salt_code)) [
  | inl e ↦
      ap
        (λ x.
          str_eq (if x then salt_name else if str_eq a salt_name then salt_code else a) (name_of b))
        e
      ∙ names_salt b
      ∙ ap (λ x. str_eq x b) (sym ((str_eq_iff a salt_code).0 e))
  | inr e ↦ elim (Bool-cases (str_eq a salt_name)) [
    | inl f ↦ rw (e, f) (names_name b ∙ ap (λ x. str_eq x b) (sym ((str_eq_iff a salt_name).0 f)))
    | inr f ↦ rw (e, f) (names_other a b e f)
  ]
]

pub stored-IsStock : IsStock name_of to_store salt_code 1
unfolding str_eq
stored-IsStock = record {
  code = refl;
  name = refl;
  quantity = refl;
  timestamp = refl;
  number = refl;
}
