-- ===== src/Db/Effects.antt =====
-- What `db_insert` and `db_remove` do to the tables where SQLite works.
pub mod Rows
pub mod Drain
pub mod Partial
use smart_fridge.Prelude.{
  ℕ, zero, suc, ◌≡◌, ◌≢◌, ◌⊎◌, inl, inr, refl, ◌∙◌, ap, Bytes, Option, none, some, List, [], ◌∷◌,
  Bool, true, false, not, if◌then◌else◌, Bool-cases, arith,
}
use smart_fridge.Decoder.{Product, ProductImages}
use smart_fridge.Sql.{
  Tables, QueryType, inc_product_number, remove_product, clean_empty, Statement, insert_product,
  inc_number, insert_image, remove, clean, violates, apply, ImagesRow,
}
use smart_fridge.Sql.Engine.{Sqlite, StepCode, done, constraint, failure, Steps, SqliteLaw, Works}
use smart_fridge.Db.{
  product_row, tag_row, TagTable, ingredient, allergen, additive, tag_query, tag_statement,
  is_failure, is_done, insert_tag_list, insert_tags, insert_images_row, then_do, insert_data_end,
  insert_data, db_insert, run_query, db_remove,
}

-- A statement that breaks a constraint changes nothing.
abbrev pub exec : Statement → Tables → Tables
exec st t = if violates st t then t else apply st t

abbrev pub exec_tags : TagTable → Option Bytes → List Bytes → Tables → Tables
exec_tags type code [] t = t
exec_tags type code (tag ∷ tags) t =
    exec_tags type code tags (exec (tag_statement type (tag_row code tag)) t)

abbrev pub exec_tag_array : TagTable → Option Bytes → Option (List Bytes) → Tables → Tables
exec_tag_array type code none t = t
exec_tag_array type code (some tags) t = exec_tags type code tags t

abbrev pub images_row : Product → ImagesRow
images_row p = record {
  code = p.code;
  front = p.images.front;
  nutrition = p.images.nutrition;
  ingredients = p.images.ingredients;
}

-- A product whose row breaks a constraint is taken for one that is there.
abbrev pub data_effect : Product → Tables → Tables
data_effect p t =
    if violates (insert_product (product_row p)) t
    then apply (inc_number p.number p.name) t
    else apply (insert_product (product_row p)) t

abbrev pub insert_effect : Product → Tables → Tables
insert_effect p t = exec (insert_image (images_row p)) (
    exec_tag_array additive p.code p.additives_tags (
      exec_tag_array allergen p.code p.allergens_tags
        (exec_tag_array ingredient p.code p.ingredients_tags (data_effect p t))))

abbrev pub remove_effect : Product → Tables → Tables
remove_effect p t = apply clean (apply (remove p.code) t)

module _ (s : Sqlite) (law : SqliteLaw s) (works : Works s) where
  open s use {Db, tables, open_v2, prepare_v2, step}
  open works use {opens, prepares, no_failure}

  -- What a step leads to, by its code.
  code_cases :
      (db : Db) (st : Statement) (r : StepCode) (db' : Db)
      → r ≢ failure
      → Steps s db st r db'
      → ((r ≡ done) × (violates st (tables db) ≡ false) × (tables db' ≡ apply st (tables db)))
        ⊎ ((r ≡ constraint) × (violates st (tables db) ≡ true) × (tables db' ≡ tables db))
  code_cases db st done db' n (h, e) = inl (refl, h, e)
  code_cases db st constraint db' n (h, e) = inr (refl, h, e)
  code_cases db st failure db' n h = absurd (n refl)

  step_cases :
      (db : Db) (st : Statement)
      → (((step db st).0 ≡ done)
          × (violates st (tables db) ≡ false)
          × (tables (step db st).1 ≡ apply st (tables db)))
        ⊎ (((step db st).0 ≡ constraint)
            × (violates st (tables db) ≡ true)
            × (tables (step db st).1 ≡ tables db))
  step_cases db st = code_cases db st _ _ (no_failure db st) (law db st)

  -- A result 0, with these tables.
  abbrev pub Leads : ℕ × Db → Tables → Type 0
  Leads r t = (r.0 ≡ 0) × (tables r.1 ≡ t)

  step_exec :
      (db : Db) (st : Statement)
      → (is_failure (step db st).0 ≡ false) × (tables (step db st).1 ≡ exec st (tables db))
  step_exec db st = elim (step_cases db st) [
    | inl (r, v, e) ↦ rw (r, v) (refl, e)
    | inr (r, v, e) ↦ rw (r, v) (refl, e)
  ]

  tag_list_effect :
      (tags : List Bytes) (code : Option Bytes) (type : TagTable) (db : Db)
      → Leads (insert_tag_list s tags code type db) (exec_tags type code tags (tables db))
  unfolding insert_tag_list
  tag_list_effect [] code type db = (refl, refl)
  tag_list_effect (tag ∷ tags) code type db =
      let (fine, effect) = step_exec db (tag_statement type (tag_row code tag)) in
      rw (prepares, fine, ← effect) (tag_list_effect tags code type _)

  tags_effect :
      (array : Option (List Bytes)) (code : Option Bytes) (type : TagTable) (db : Db)
      → Leads (insert_tags s array code type db) (exec_tag_array type code array (tables db))
  unfolding insert_tags
  tags_effect none code type db = (refl, refl)
  tags_effect (some tags) code type db = tag_list_effect tags code type db

  images_effect :
      (p : Product) (db : Db)
      → Leads
          (insert_images_row s p.images p.code db)
          (exec (insert_image (images_row p)) (tables db))
  unfolding insert_images_row
  images_effect p db =
      let (fine, effect) = step_exec db (insert_image (images_row p)) in
      rw (prepares, fine) (refl, effect)

  -- A statement that can break no constraint is done.
  run_effect :
      (q : QueryType) (st : Statement) (db : Db)
      → violates st (tables db) ≡ false
      → Leads (run_query s q st db) (apply st (tables db))
  unfolding run_query
  run_effect q st db free = elim (step_cases db st) [
    | inl (r, v, e) ↦ rw (prepares, r) (refl, e)
    | inr (r, v, e) ↦ cc
  ]

  data-Leads : (p : Product) (db : Db) → Leads (insert_data s p db) (data_effect p (tables db))
  unfolding insert_data insert_data_end
  data-Leads p db = elim (step_cases db (insert_product (product_row p))) [
    | inl (r, v, e) ↦ rw (prepares, r, v) (refl, e)
    | inr (r, v, e) ↦
        rw (prepares, r, v)
          (rw (← e) (
            unfold run_query in
            run_effect inc_product_number (inc_number p.number p.name) _ (unfold violates in refl)))
  ]

  then_do-Leads :
      (r : ℕ × Db) (f : Db → ℕ × Db) {t u : Tables}
      → Leads r t
      → ((db : Db) → tables db ≡ t → Leads (f db) u)
      → Leads (then_do s r f) u
  then_do-Leads (zero, db) f h k = k db h.1
  then_do-Leads (suc n, db) f h k = absurd (omega arith)

  -- Where SQLite works, db_insert returns 0 and leaves in the tables the product's row, or an increase
  -- of the rows of its name if its row breaks a constraint, and then each tag and the images that
  -- break none.
  pub db_insert-effect :
      (p : Product) (db : Db) → Leads (db_insert s p db) (insert_effect p (tables db))
  unfolding db_insert
  db_insert-effect p db =
      rw (opens, prepares)
        (then_do-Leads _ _ (data-Leads p db) λ db1 e1.
          then_do-Leads _ _ (tags_effect p.ingredients_tags p.code ingredient db1) λ db2 e2.
            then_do-Leads _ _ (tags_effect p.allergens_tags p.code allergen db2) λ db3 e3.
              then_do-Leads _ _ (tags_effect p.additives_tags p.code additive db3)
                λ db4 e4. rw (← e1, ← e2, ← e3, ← e4) (images_effect p db4))

  -- Where SQLite works, `db_remove` returns 0, having taken one element off the rows with the
  -- product's code and then deleted the rows with no elements.
  pub db_remove-effect :
      (p : Product) (db : Db) → Leads (db_remove s p db) (remove_effect p (tables db))
  unfolding db_remove
  db_remove-effect p db =
      rw (opens, prepares)
        (then_do-Leads _ _ (run_effect remove_product (remove p.code) db (unfold violates in refl))
          λ db1 e1. rw (← e1) (run_effect clean_empty clean db1 (unfold violates in refl)))
