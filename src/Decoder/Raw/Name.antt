-- ===== src/Decoder/Raw/Name.antt =====
-- The choices that `sf_pr_raw_decoder` makes between fields of the answer.
use smart_fridge.Prelude.{◌≡◌, List, [], ◌∷◌, Option, none, some, Bytes, codes, str_eq}
use smart_fridge.Json.{CJson, go, need}
use smart_fridge.Decoder.Retval
use smart_fridge.Decoder.Raw.{raw_name, raw_text, raw_url, raw_display}

pub first_non_empty : List Bytes → Option Bytes
first_non_empty [] = none
first_non_empty ([] ∷ rest) = first_non_empty rest
first_non_empty ((b ∷ bs) ∷ rest) = some (b ∷ bs)

module _ (c : CJson) where
  open c use {Node, get_object_item, children, valuestring, add_string_to_object}

  -- The field of `n` under `key` holds the text `s`.
  pub record Text (n : Node) (key s : Bytes) : Type 0 where
    pub item : Node
    pub found : get_object_item (some n) key ≡ some item
    pub holds : valuestring item ≡ some s

  raw_text-Text : {n : Node} {key s : Bytes} → Text n key s → raw_text c n key ≡ go s
  unfolding raw_text
  raw_text-Text t = rw (t.found, t.holds)

  -- The name is the first text of product name, generic name and categories that is not empty, and
  -- an answer in which all three are empty is refused with UNEX_FIELDS.
  pub raw_name_lem :
      (n : Node) (name generic categories : Bytes)
      → Text n (codes "product_name") name
      → Text n (codes "generic_name") generic
      → Text n (codes "categories") categories
      → raw_name c n ≡ need Retval.unex_fields (first_non_empty (name ∷ generic ∷ categories ∷ []))
  unfolding raw_name str_eq first_non_empty
  raw_name_lem n (b ∷ name) generic categories t g k = rw (raw_text-Text t)
  raw_name_lem n [] (b ∷ generic) categories t g k = rw (raw_text-Text t, raw_text-Text g)
  raw_name_lem n [] [] (b ∷ categories) t g k =
      rw (raw_text-Text t, raw_text-Text g, raw_text-Text k)
  raw_name_lem n [] [] [] t g k = rw (raw_text-Text t, raw_text-Text g, raw_text-Text k)

  -- An image with no url in Spanish is decoded as if it were the front image: the name under which
  -- it was looked for makes no difference to the object of the images.
  pub raw_display-front :
      (display : Node) (name : Bytes) (decoded_images : Node)
      → get_object_item (some display) (codes "es") ≡ none
      → raw_display c (some display) name decoded_images
        ≡ raw_display c (some display) (codes "front") decoded_images
  unfolding raw_display raw_url
  raw_display-front display name decoded_images e = rw e
