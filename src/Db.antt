-- ===== src/Db.antt =====
-- sf_db.c, the operations on the database: `db_insert`, `db_remove`, `insert_tags` and `insert_images`.
-- BEGIN and END are prepared and never run, so they have no effect.
pub mod Effects
pub mod Messages
pub mod Send
pub mod Stock
pub mod Start
pub mod Tests
use smart_fridge.Prelude.{
  ℕ, zero, suc, Bytes, Option, none, some, List, [], ◌∷◌, Bool, true, false, not, if◌then◌else◌,
  cut_at,
}
use smart_fridge.Prelude.Int.{ℤ}
use smart_fridge.Decoder.{Product, ProductImages}
use smart_fridge.Sql.{
  ProductRow, TagRow, ImagesRow, QueryType, insert_product_data, inc_product_number,
  insert_ingredient_tag, insert_allergen_tag, insert_additive_tag, insert_images, remove_product,
  clean_empty, begin_transaction, Statement, insert_product, inc_number, insert_ingredient,
  insert_allergen, insert_additive, insert_image, remove, clean,
}
use smart_fridge.Sql.Engine.{Sqlite, StepCode, done, constraint, failure}

-- What is bound to the nine parameters of the insertion.
abbrev pub product_row : Product → ProductRow
product_row p = record {
  code = p.code;
  name = p.name;
  quantity = p.quantity;
  ingredients_text = p.ingredients;
  brands = p.brands;
  expiration_date = p.expiration_date;
  labels = p.labels;
  elements = p.number;
  timestamp = p.timestamp;
}

pub split_tag : Option Bytes → Bytes × Option Bytes → TagRow
split_tag product_code (whole, none) = record {
  code = product_code;
  name = some whole;
  language = none;
}
split_tag product_code (language, some name) = record {
  code = product_code;
  name = some name;
  language = some language;
}

-- A tag is split at its first colon into the language and the name.
pub tag_row : Option Bytes → Bytes → TagRow
unfolding split_tag
tag_row product_code tag = split_tag product_code (cut_at b':' tag)

-- The three types with which `insert_tags` is called.
pub data TagTable : Type 0 where
  ingredient allergen additive : TagTable

abbrev pub tag_query : TagTable → QueryType
tag_query ingredient = insert_ingredient_tag
tag_query allergen = insert_allergen_tag
tag_query additive = insert_additive_tag

abbrev pub tag_statement : TagTable → TagRow → Statement
tag_statement ingredient = insert_ingredient
tag_statement allergen = insert_allergen
tag_statement additive = insert_additive

-- `result != SQLITE_DONE && result != SQLITE_CONSTRAINT`
abbrev pub is_failure : StepCode → Bool
is_failure failure = true
is_failure _ = false

abbrev pub is_done : StepCode → Bool
is_done done = true
is_done _ = false

module _ (s : Sqlite) where
  open s use {Db, open_v2, prepare_v2, step}

  -- Each function returns `retval` and the connection.
  pub insert_tag_list : List Bytes → Option Bytes → TagTable → Db → ℕ × Db
  insert_tag_list [] product_code type db = (0, db)
  insert_tag_list (tag ∷ tags) product_code type db =
      let (result, db') = step db (tag_statement type (tag_row product_code tag)) in
      let rest = insert_tag_list tags product_code type db' in
      if not (prepare_v2 db (tag_query type))
      then (1, db)
      else if is_failure result
      then (1, db')
      else rest

  pub insert_tags : Option (List Bytes) → Option Bytes → TagTable → Db → ℕ × Db
  unfolding insert_tag_list
  insert_tags none product_code type db = (0, db)
  insert_tags (some array) product_code type db = insert_tag_list array product_code type db

  pub insert_images_row : ProductImages → Option Bytes → Db → ℕ × Db
  insert_images_row images product_code db =
      let row : ImagesRow = record {
        code = product_code;
        front = images.front;
        nutrition = images.nutrition;
        ingredients = images.ingredients;
      } in
      let (result, db') = step db (insert_image row) in
      if not (prepare_v2 db insert_images)
      then (1, db)
      else if is_failure result
      then (1, db')
      else (0, db')

  -- `if (f(...)) { ...; goto end; }` and what follows it.
  abbrev pub then_do : ℕ × Db → (Db → ℕ × Db) → ℕ × Db
  then_do (zero, db) next = next db
  then_do (suc r, db) next = (1, db)

  -- The insertion of the data, or the increase where the insertion breaks a constraint.
  pub insert_data_end : Product → StepCode → Db → ℕ × Db
  insert_data_end p done db = (0, db)
  insert_data_end p failure db = (1, db)
  insert_data_end p constraint db =
      let (result, db') = step db (inc_number p.number p.name) in
      if not (prepare_v2 db inc_product_number)
      then (1, db)
      else if is_done result
      then (0, db')
      else (1, db')

  pub insert_data : Product → Db → ℕ × Db
  unfolding insert_data_end
  insert_data p db =
      let (result, db') = step db (insert_product (product_row p)) in
      if not (prepare_v2 db insert_product_data) then (1, db) else insert_data_end p result db'

  pub db_insert : Product → Db → ℕ × Db
  unfolding insert_data insert_tags insert_images_row
  db_insert p db =
      if not (open_v2 db)
      then (1, db)
      else if not (prepare_v2 db begin_transaction)
      then (1, db)
      else then_do (insert_data p db) λ db1.
        then_do (insert_tags p.ingredients_tags p.code ingredient db1) λ db2.
          then_do (insert_tags p.allergens_tags p.code allergen db2) λ db3.
            then_do (insert_tags p.additives_tags p.code additive db3)
              λ db4. insert_images_row p.images p.code db4

  -- A statement that has to be done.
  pub run_query : QueryType → Statement → Db → ℕ × Db
  run_query query st db =
      let (result, db') = step db st in
      if not (prepare_v2 db query) then (1, db) else if is_done result then (0, db') else (1, db')

  pub db_remove : Product → Db → ℕ × Db
  unfolding run_query
  db_remove p db =
      if not (open_v2 db)
      then (1, db)
      else if not (prepare_v2 db begin_transaction)
      then (1, db)
      else then_do (run_query remove_product (remove p.code) db)
          λ db'. run_query clean_empty clean db'
