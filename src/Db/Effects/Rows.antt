-- ===== src/Db/Effects/Rows.antt =====
-- The rows of PRODUCTS_DATA after `db_insert` and `db_remove`.
use smart_fridge.Prelude.{
  ◌≡◌, ◌⊎◌, refl, ◌∙◌, ap, Bytes, Option, none, some, List, [], ◌∷◌, ◌++◌, Bool, true, false, arith,
}
use smart_fridge.Decoder.{Product}
use smart_fridge.Sql.{
  Tables, ProductRow, Statement, insert_product, violates, apply, sql_eq, any_row, update_where,
}
use smart_fridge.Sql.Engine.{Sqlite, SqliteLaw, Works}
use smart_fridge.Db.{
  product_row, tag_row, TagTable, ingredient, allergen, additive, tag_statement, db_insert,
}
use smart_fridge.Db.Effects.{
  exec, exec_tags, exec_tag_array, images_row, data_effect, insert_effect, db_insert-effect,
}

-- Tags and images are not in PRODUCTS_DATA.
exec_tag-products :
    (type : TagTable) (code : Option Bytes) (tag : Bytes) (t : Tables)
    → (exec (tag_statement type (tag_row code tag)) t).products_data ≡ t.products_data
unfolding apply
exec_tag-products ingredient code tag t = ground arith
exec_tag-products _ code tag t = ground arith

exec_tags-products :
    (type : TagTable) (code : Option Bytes) (tags : List Bytes) (t : Tables)
    → (exec_tags type code tags t).products_data ≡ t.products_data
exec_tags-products type code [] t = refl
exec_tags-products type code (tag ∷ tags) t =
    exec_tags-products type code tags _ ∙ exec_tag-products type code tag t

exec_tag_array-products :
    (type : TagTable) (code : Option Bytes) (array : Option (List Bytes)) (t : Tables)
    → (exec_tag_array type code array t).products_data ≡ t.products_data
exec_tag_array-products type code none t = refl
exec_tag_array-products type code (some tags) t = exec_tags-products type code tags t

exec_image-products :
    (p : Product) (t : Tables)
    → (exec (Statement.insert_image (images_row p)) t).products_data ≡ t.products_data
unfolding apply
exec_image-products p t = ground arith

pub insert_effect-products :
    (p : Product) (t : Tables) → (insert_effect p t).products_data ≡ (data_effect p t).products_data
insert_effect-products p t =
    exec_image-products p _
    ∙ exec_tag_array-products additive p.code p.additives_tags _
    ∙ exec_tag_array-products allergen p.code p.allergens_tags _
    ∙ exec_tag_array-products ingredient p.code p.ingredients_tags _

update_where-none :
    {A : Type 0} (p : A → Bool) (f : A → A) (xs : List A)
    → any_row p xs ≡ false
    → update_where p f xs ≡ xs
unfolding update_where any_row
update_where-none p f [] h = refl
update_where-none p f (x ∷ xs) h = ground (arith, update_where-none p f xs)

-- The row of the product breaks no constraint.
abbrev pub Fresh : Product → Tables → Type 0
Fresh p t = violates (insert_product (product_row p)) t ≡ false

-- The product cannot be inserted: its code, its name, its quantity or its timestamp is NULL, or a row has its code.
abbrev pub Barred : Product → List ProductRow → Type 0
Barred p rows =
    (p.code ≡ none)
    ⊎ (p.name ≡ none)
    ⊎ (p.quantity ≡ none)
    ⊎ (p.timestamp ≡ none)
    ⊎ (any_row (λ x. sql_eq x.code p.code) rows ≡ true)

Barred-violates :
    (p : Product) (t : Tables)
    → Barred p t.products_data
    → violates (insert_product (product_row p)) t ≡ true
unfolding violates
Barred-violates p t h = ground arith

module _ (s : Sqlite) (law : SqliteLaw s) (works : Works s) where
  open s use {Db, tables}

  -- Where SQLite works, a product that breaks no constraint is appended to PRODUCTS_DATA.
  pub db_insert-Fresh :
      (p : Product) (db : Db)
      → Fresh p (tables db)
      → ((db_insert s p db).0 ≡ 0)
        × ((tables (db_insert s p db).1).products_data
            ≡ (tables db).products_data ++ product_row p ∷ [])
  unfolding apply
  db_insert-Fresh p db h =
      let (done, effect) = db_insert-effect s law works p db in
      (done, ap (λ t. t.products_data) effect ∙ insert_effect-products p (tables db) ∙ rw h)

  -- Where SQLite works, a product that cannot be inserted, and whose name no row has, is reported as
  -- stored and leaves PRODUCTS_DATA as it was. It cannot be inserted if its code, name, quantity or
  -- timestamp is NULL, or if a row has its code.
  pub db_insert-lost :
      (p : Product) (db : Db)
      → Barred p (tables db).products_data
      → any_row (λ x. sql_eq x.name p.name) (tables db).products_data ≡ false
      → ((db_insert s p db).0 ≡ 0)
        × ((tables (db_insert s p db).1).products_data ≡ (tables db).products_data)
  unfolding apply
  db_insert-lost p db barred h =
      let (done, effect) = db_insert-effect s law works p db in
      (
        done,
        ap (λ t. t.products_data) effect
            ∙ insert_effect-products p (tables db)
            ∙ rw (Barred-violates p (tables db) barred)
                (update_where-none _ _ (tables db).products_data h),
      )
