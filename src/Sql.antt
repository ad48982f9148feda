-- ===== src/Sql.antt =====
-- database.sql and the queries of include/sf_db.h: the tables, and what each statement asks of them.
pub mod Engine
use smart_fridge.Prelude.{
  ℕ, Bytes, Option, none, some, List, [], ◌∷◌, ◌++◌, Bool, true, false, not, ◌&&◌, ◌||◌, str_eq,
  is_some, if◌then◌else◌, map,
}
use smart_fridge.Prelude.Int.{ℤ, pos, ◌+ℤ◌, ◌-ℤ◌, eq_ℤ}

-- A row of PRODUCTS_DATA. A column is `none` where it is NULL.
pub record ProductRow : Type 0 where
  pub code : Option Bytes
  pub name : Option Bytes
  pub quantity : Option Bytes
  pub ingredients_text : Option Bytes
  pub brands : Option Bytes
  pub expiration_date : Option Bytes
  pub labels : Option Bytes
  pub elements : ℤ
  pub timestamp : Option Bytes

-- A row of the tables of tags.
pub record TagRow : Type 0 where
  pub code : Option Bytes
  pub name : Option Bytes
  pub language : Option Bytes

-- A row of IMAGES.
pub record ImagesRow : Type 0 where
  pub code : Option Bytes
  pub front : Option Bytes
  pub nutrition : Option Bytes
  pub ingredients : Option Bytes

pub record Tables : Type 0 where
  pub products_data : List ProductRow
  pub ingredients_tags : List TagRow
  pub allergens_tags : List TagRow
  pub additives_tags : List TagRow
  pub images : List ImagesRow

-- `enum QUERY_TYPE`
pub data QueryType : Type 0 where
  insert_product_data inc_product_number insert_ingredient_tag insert_allergen_tag : QueryType
  insert_additive_tag insert_images remove_product clean_empty : QueryType
  begin_transaction end_transaction : QueryType

-- The statements that are run, with what is bound to their parameters.
pub data Statement : Type 0 where
  insert_product : ProductRow → Statement
  inc_number : ℤ → Option Bytes → Statement
  insert_ingredient insert_allergen insert_additive : TagRow → Statement
  insert_image : ImagesRow → Statement
  remove : Option Bytes → Statement
  clean : Statement

-- `=` of two columns: NULL is equal to nothing.
abbrev pub sql_eq : Option Bytes → Option Bytes → Bool
sql_eq (some a) (some b) = str_eq a b
sql_eq _ _ = false

unfoldable pub any_row : {A : Type 0} → (A → Bool) → List A → Bool
any_row p [] = false
any_row p (x ∷ xs) = p x || any_row p xs

-- `UPDATE ... SET ... WHERE ...`
unfoldable pub update_where : {A : Type 0} → (A → Bool) → (A → A) → List A → List A
update_where p f [] = []
update_where p f (x ∷ xs) = (if p x then f x else x) ∷ update_where p f xs

-- `DELETE FROM ... WHERE ...`
unfoldable pub delete_where : {A : Type 0} → (A → Bool) → List A → List A
delete_where p [] = []
delete_where p (x ∷ xs) = let rest = delete_where p xs in if p x then rest else x ∷ rest

-- The primary key of a table of tags: a NULL in it is no duplicate.
abbrev pub same_tag : TagRow → TagRow → Bool
same_tag a b = sql_eq a.code b.code && sql_eq a.name b.name && sql_eq a.language b.language

abbrev pub tag_violates : TagRow → List TagRow → Bool
tag_violates r rows = not (is_some r.code && is_some r.name) || any_row (same_tag r) rows

-- Whether a statement breaks a NOT NULL or a PRIMARY KEY. References are not enforced unless a
-- connection asks for it, which this program's do not.
unfoldable pub violates : Statement → Tables → Bool
unfolding any_row
violates (insert_product r) t =
    not (is_some r.code && is_some r.name && is_some r.quantity && is_some r.timestamp)
    || any_row (λ x. sql_eq x.code r.code) t.products_data
violates (insert_ingredient r) t = tag_violates r t.ingredients_tags
violates (insert_allergen r) t = tag_violates r t.allergens_tags
violates (insert_additive r) t = tag_violates r t.additives_tags
violates (insert_image r) t = not (is_some r.code) || any_row (λ x. sql_eq x.code r.code) t.images
violates _ t = false

-- What a statement does that breaks no constraint.
unfoldable pub apply : Statement → Tables → Tables
unfolding update_where delete_where
apply (insert_product r) t = record t { products_data = t.products_data ++ r ∷ [] }
apply (inc_number n name) t = record t {
  products_data =
      update_where (λ x. sql_eq x.name name) (λ x. record x { elements = x.elements +ℤ n })
        t.products_data;
}
apply (insert_ingredient r) t = record t { ingredients_tags = t.ingredients_tags ++ r ∷ [] }
apply (insert_allergen r) t = record t { allergens_tags = t.allergens_tags ++ r ∷ [] }
apply (insert_additive r) t = record t { additives_tags = t.additives_tags ++ r ∷ [] }
apply (insert_image r) t = record t { images = t.images ++ r ∷ [] }
apply (remove code) t = record t {
  products_data =
      update_where (λ x. sql_eq x.code code) (λ x. record x { elements = x.elements -ℤ pos 1 })
        t.products_data;
}
apply clean t = record t {
  products_data = delete_where (λ x. eq_ℤ x.elements (pos 0)) t.products_data;
}
