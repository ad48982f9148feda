-- ===== src/Db/Effects/Partial.antt =====
-- `db_insert` where SQLite may fail at any call: what was done is not taken back.
use smart_fridge.Prelude.{
  ℕ, zero, suc, ◌≡◌, refl, ◌∙◌, ap, Bytes, Option, none, some, List, [], ◌∷◌, ◌++◌, true, inl, inr,
  Bool-cases,
}
use smart_fridge.Decoder.{Product, ProductImages}
use smart_fridge.Sql.{
  Tables, ProductRow, ImagesRow, Statement, insert_product, insert_image, insert_product_data,
  begin_transaction, apply, insert_images,
}
use smart_fridge.Sql.Engine.{Sqlite, StepCode, done, constraint, failure, Steps, SqliteLaw}
use smart_fridge.Db.{
  product_row, tag_row, TagTable, ingredient, allergen, additive, tag_query, tag_statement,
  is_failure, insert_tag_list, insert_tags, insert_images_row, then_do, insert_data,
  insert_data_end, db_insert,
}

module _ (s : Sqlite) (law : SqliteLaw s) where
  open s use {Db, tables, open_v2, prepare_v2, step}

  abbrev rows : Db → List ProductRow
  rows db = (tables db).products_data

  -- A statement that leaves PRODUCTS_DATA alone leaves it alone whatever its step returns.
  step-rows :
      (st : Statement) (db : Db) (r : StepCode) (db' : Db)
      → ((t : Tables) → (apply st t).products_data ≡ t.products_data)
      → Steps s db st r db'
      → rows db' ≡ rows db
  step-rows st db done db' h (free, e) = ap (λ t. t.products_data) e ∙ h (tables db)
  step-rows st db constraint db' h (breaks, e) = ap (λ t. t.products_data) e
  step-rows st db failure db' h e = ap (λ t. t.products_data) e

  tag-rows :
      (type : TagTable) (code : Option Bytes) (tag : Bytes) (t : Tables)
      → (apply (tag_statement type (tag_row code tag)) t).products_data ≡ t.products_data
  unfolding apply
  tag-rows ingredient code tag t = refl
  tag-rows _ code tag t = refl

  tag_list-rows :
      (tags : List Bytes) (code : Option Bytes) (type : TagTable) (db : Db)
      → rows (insert_tag_list s tags code type db).1 ≡ rows db
  unfolding insert_tag_list
  tag_list-rows [] code type db = refl
  tag_list-rows (tag ∷ tags) code type db =
      let st = tag_statement type (tag_row code tag) in
      let kept : rows (step db st).1 ≡ rows db =
        step-rows st db _ _ (tag-rows type code tag) (law db st) in
      elim (Bool-cases (prepare_v2 db (tag_query type))) [
        | inr p ↦ rw p
        | inl p ↦ elim (Bool-cases (is_failure (step db st).0)) [
          | inl f ↦ rw (p, f) kept
          | inr f ↦ rw (p, f) (tag_list-rows tags code type _ ∙ kept)
        ]
      ]

  tags-rows :
      (array : Option (List Bytes)) (code : Option Bytes) (type : TagTable) (db : Db)
      → rows (insert_tags s array code type db).1 ≡ rows db
  unfolding insert_tags
  tags-rows none code type db = refl
  tags-rows (some tags) code type db = tag_list-rows tags code type db

  images-rows :
      (images : ProductImages) (code : Option Bytes) (db : Db)
      → rows (insert_images_row s images code db).1 ≡ rows db
  unfolding insert_images_row apply
  images-rows images code db =
      let row : ImagesRow = record {
        code = code;
        front = images.front;
        nutrition = images.nutrition;
        ingredients = images.ingredients;
      } in
      let st = insert_image row in
      let kept : rows (step db st).1 ≡ rows db = step-rows st db _ _ (λ t. refl) (law db st) in
      elim (Bool-cases (prepare_v2 db insert_images)) [
        | inr p ↦ rw p
        | inl p ↦ elim (Bool-cases (is_failure (step db st).0)) [
          | inl f ↦ rw (p, f) kept
          | inr f ↦ rw (p, f) kept
        ]
      ]

  -- `r` leaves these rows in PRODUCTS_DATA.
  record Leaves (l : List ProductRow) (r : ℕ × Db) : Type 0 where
    left : rows r.1 ≡ l

  then_do-Leaves :
      {l : List ProductRow} (r : ℕ × Db) (f : Db → ℕ × Db)
      → Leaves l r
      → ((db : Db) → rows db ≡ l → Leaves l (f db))
      → Leaves l (then_do s r f)
  then_do-Leaves (zero, db) f h k = k db h.left
  then_do-Leaves (suc n, db) f h k = record { left = h.left }

  tags-Leaves :
      {l : List ProductRow} (array : Option (List Bytes)) (code : Option Bytes) (type : TagTable)
      (db : Db)
      → rows db ≡ l
      → Leaves l (insert_tags s array code type db)
  tags-Leaves array code type db e = record { left = tags-rows array code type db ∙ e }

  inserted-rows :
      (p : Product) (db : Db) (r : StepCode) (db' : Db)
      → r ≡ done
      → Steps s db (insert_product (product_row p)) r db'
      → rows db' ≡ rows db ++ product_row p ∷ []
  unfolding apply
  inserted-rows p db done db' e (free, h) = ap (λ t. t.products_data) h
  inserted-rows p db constraint db' e h = cc
  inserted-rows p db failure db' e h = cc

  data-Leaves :
      (p : Product) (db : Db)
      → prepare_v2 db insert_product_data ≡ true
      → (step db (insert_product (product_row p))).0 ≡ done
      → Leaves (rows db ++ product_row p ∷ []) (insert_data s p db)
  unfolding insert_data insert_data_end
  data-Leaves p db prepared inserted = record {
    left = rw (prepared, inserted) (inserted-rows p db _ _ inserted (law db _));
  }

  -- Once the connection is open, the transaction and the insertion are prepared and the product's
  -- row was inserted, PRODUCTS_DATA ends up with that row appended, whatever fails behind it and
  -- whatever db_insert returns.
  pub db_insert-keeps :
      (p : Product) (db : Db)
      → open_v2 db ≡ true
      → prepare_v2 db begin_transaction ≡ true
      → prepare_v2 db insert_product_data ≡ true
      → (step db (insert_product (product_row p))).0 ≡ done
      → rows (db_insert s p db).1 ≡ rows db ++ product_row p ∷ []
  unfolding db_insert
  db_insert-keeps p db opened begun prepared inserted =
      rw (opened, begun)
        (then_do-Leaves _ _ (data-Leaves p db prepared inserted) λ db1 e1.
          then_do-Leaves _ _ (tags-Leaves p.ingredients_tags p.code ingredient db1 e1) λ db2 e2.
            then_do-Leaves _ _ (tags-Leaves p.allergens_tags p.code allergen db2 e2) λ db3 e3.
              then_do-Leaves _ _ (tags-Leaves p.additives_tags p.code additive db3 e3)
                λ db4 e4. record { left = images-rows p.images p.code db4 ∙ e4 }).left
