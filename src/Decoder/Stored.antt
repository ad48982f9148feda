-- ===== src/Decoder/Stored.antt =====
-- `sf_pr_decoder`: from a message to the product that is stored or removed.
pub mod Codes
pub mod Crash
pub mod Fields
pub mod Tests
use smart_fridge.Prelude.{
  ℕ, List, [], ◌∷◌, ◌++◌, Option, none, some, Bytes, codes, str_eq, if◌then◌else◌,
}
use smart_fridge.Json.{CJson, Outcome, go, leave, crash, ◌>>=◌, deref, need}
use smart_fridge.Decoder.{Product, cleared}
use smart_fridge.Decoder.Retval

module _ (c : CJson) where
  open c use {Node, parse, get_object_item, children, valuestring, valueint}

  -- `strdup(json_it->valuestring)`
  pub copy_string : Node → Outcome (Option Bytes)
  copy_string json_it = do s ← deref (valuestring json_it); go (some s)

  -- A field that has to be there; an empty text leaves the pointer NULL.
  pub text_field : Node → Bytes → Outcome (Option Bytes)
  text_field json_product key = do
    json_it ← need Retval.unex_fields (get_object_item (some json_product) key)
    s ← deref (valuestring json_it)
    go (if str_eq s [] then none else some s)

  -- The loops that fill an array of tags, `i` items of which are in `tags`.
  pub append_tags : List Bytes → List Node → Outcome (List Bytes)
  append_tags tags [] = go tags
  append_tags tags (json_it ∷ rest) = do
    s ← deref (valuestring json_it)
    append_tags (tags ++ s ∷ []) rest

  -- An array that was never enlarged is NULL.
  abbrev pub tag_array : List Bytes → Option (List Bytes)
  tag_array [] = none
  tag_array (tag ∷ tags) = some (tag ∷ tags)

  pub tag_field : Option Node → Bytes → Outcome (Option (List Bytes))
  unfolding append_tags
  tag_field tags key = do
    json_it_aux ← need Retval.unex_fields (get_object_item tags key)
    filled ← append_tags [] (children json_it_aux)
    go (tag_array filled)

  pub copy_if_found : Option Node → Outcome (Option Bytes)
  copy_if_found none = go none
  copy_if_found (some json_it) = copy_string json_it

  pub image_field : Node → Bytes → Outcome (Option Bytes)
  unfolding copy_if_found copy_string
  image_field json_images key = copy_if_found (get_object_item (some json_images) key)

  -- From the name to the labels.
  pub decode_texts : Node → Product → Outcome Product
  unfolding text_field copy_string
  decode_texts json_product decoded = do
    name_it ← need Retval.unex_fields (get_object_item (some json_product) (codes "name"))
    name ← copy_string name_it
    number_it ← need Retval.unex_fields (get_object_item (some json_product) (codes "number"))
    quantity ← text_field json_product (codes "quantity")
    ingredients ← text_field json_product (codes "ingredients")
    brands ← text_field json_product (codes "brands")
    expiration_date ← text_field json_product (codes "expiration_date")
    timestamp ← text_field json_product (codes "timestamp")
    labels ← text_field json_product (codes "labels")
    go (record decoded {
      name = name;
      number = valueint number_it;
      quantity = quantity;
      ingredients = ingredients;
      brands = brands;
      expiration_date = expiration_date;
      timestamp = timestamp;
      labels = labels;
    })

  -- The tags. The source tests `json_it` here and not `tags`; `json_it` is the item of the labels,
  -- which was found, so an absent `tags` goes on as NULL.
  pub decode_tags : Node → Product → Outcome Product
  unfolding tag_field
  decode_tags json_product decoded = do
    let tags = get_object_item (some json_product) (codes "tags")
    additives_tags ← tag_field tags (codes "additives")
    allergens_tags ← tag_field tags (codes "allergens")
    ingredients_tags ← tag_field tags (codes "ingredients")
    go (record decoded {
      additives_tags = additives_tags;
      allergens_tags = allergens_tags;
      ingredients_tags = ingredients_tags;
    })

  pub decode_images : Node → Product → Outcome Product
  unfolding image_field
  decode_images json_product decoded = do
    json_images ← need Retval.unex_fields (get_object_item (some json_product) (codes "images"))
    front ← image_field json_images (codes "front")
    nutrition ← image_field json_images (codes "nutrition")
    ingredients ← image_field json_images (codes "ingredients")
    go (record decoded {
      images = record { front = front; nutrition = nutrition; ingredients = ingredients };
    })

  -- What follows the code: an item "remove" ends it.
  pub decode_unless_removed : Node → Product → Option Node → Outcome (ℕ × Product)
  decode_unless_removed json_product coded (some json_it) = go (Retval.deletion_req, coded)
  decode_unless_removed json_product coded none = do
    texts ← decode_texts json_product coded
    tagged ← decode_tags json_product texts
    decoded ← decode_images json_product tagged
    go (Retval.no_error, decoded)

  -- The body behind `cJSON_Parse`, with `retval` beside the product.
  pub decode : Node → Outcome (ℕ × Product)
  unfolding text_field decode_unless_removed
  decode json_product = do
    code ← text_field json_product (codes "code")
    decode_unless_removed json_product (record cleared { code = code })
        (get_object_item (some json_product) (codes "remove"))

  -- `retval` and `*pr_dec`; `none` is a crash.
  abbrev pub decoder_end : Outcome (ℕ × Product) → Option (ℕ × Option Product)
  decoder_end (go (retval, decoded)) = some (retval, some decoded)
  decoder_end (leave retval) = some (retval, none)
  decoder_end crash = none

  pub sf_pr_decoder : Bytes → Option (ℕ × Option Product)
  unfolding decode
  sf_pr_decoder str_json =
      decoder_end (do json_product ← need Retval.inv_format (parse str_json); decode json_product)
