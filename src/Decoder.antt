-- ===== src/Decoder.antt =====
-- tools/product_decoder.c and include/product_decoder.h: the keys, the codes and the records of the
-- decoders of products.
pub mod Retval
pub mod Raw
pub mod Stored
use smart_fridge.Prelude.{ℕ, Bytes, Option, none, List}
use smart_fridge.Prelude.Int.{ℤ, pos}

-- `struct product_images`. A pointer is `none` where the source holds NULL.
pub record ProductImages : Type 0 where
  pub front : Option Bytes
  pub nutrition : Option Bytes
  pub ingredients : Option Bytes

-- `struct product`. The arrays of tags end in a NULL, which the list does without.
pub record Product : Type 0 where
  pub images : ProductImages
  pub name : Option Bytes
  pub code : Option Bytes
  pub timestamp : Option Bytes
  pub quantity : Option Bytes
  pub ingredients : Option Bytes
  pub brands : Option Bytes
  pub expiration_date : Option Bytes
  pub labels : Option Bytes
  pub ingredients_tags : Option (List Bytes)
  pub allergens_tags : Option (List Bytes)
  pub additives_tags : Option (List Bytes)
  pub number : ℤ

-- `struct product_node`
pub record ProductNode : Type 0 where
  pub code : Bytes
  pub number : ℤ
  pub mode : ℕ

unfoldable pub create_product_node : Bytes → ℤ → ℕ → ProductNode
create_product_node id number mode = record { code = id; number = number; mode = mode }

-- A product as `calloc` and `memset` leave it.
abbrev pub cleared : Product
cleared = record {
  images = record { front = none; nutrition = none; ingredients = none };
  name = none;
  code = none;
  timestamp = none;
  quantity = none;
  ingredients = none;
  brands = none;
  expiration_date = none;
  labels = none;
  ingredients_tags = none;
  allergens_tags = none;
  additives_tags = none;
  number = pos 0;
}
