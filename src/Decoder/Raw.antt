-- ===== src/Decoder/Raw.antt =====
-- `sf_pr_raw_decoder`: from the answer of the food API to the message that is sent to the database.
-- `goto end` only frees memory; an object that is freed there is not part of the result.
pub mod Codes
pub mod Crash
pub mod Message
pub mod Name
pub mod Answer
pub mod Restored
pub mod Found
pub mod Tests
use smart_fridge.Prelude.{
  ℕ, List, [], ◌∷◌, Option, none, some, Bool, Bytes, codes, str_eq, if◌then◌else◌,
}
use smart_fridge.Prelude.Int.{ℤ}
use smart_fridge.Json.{CJson, Memory, Outcome, go, leave, crash, ◌>>=◌, ◌>>◌, deref, need, check}
use smart_fridge.Decoder.Retval

module _ (c : CJson) where
  open c use {
    Node, parse, get_object_item, children, valuestring, create_object, create_array, create_string,
    add_string_to_object, add_number_to_object, add_item_to_object, add_item_to_array,
  }

  -- The retval of an answer with no product, from its item "status_verbose". One text is foreseen.
  pub raw_missing : Option Node → Outcome Node
  raw_missing none = leave Retval.unex_fields
  raw_missing (some status) = do
    verbose ← deref (valuestring status)
    leave (
        if str_eq verbose (codes "product not found")
        then Retval.pr_not_found
        else Retval.unex_fields)

  -- The product of the answer, or else what its status says.
  pub raw_found : Option Node → Option Node → Outcome Node
  raw_found (some json_product) status = go json_product
  raw_found none status = raw_missing status

  pub raw_product : Node → Outcome Node
  unfolding raw_missing raw_found
  raw_product obj =
      raw_found (get_object_item (some obj) (codes "product"))
        (get_object_item (some obj) (codes "status_verbose"))

  -- The text of a field that has to be there.
  pub raw_text : Node → Bytes → Outcome Bytes
  raw_text json_product key = do
    json_it ← need Retval.unex_fields (get_object_item (some json_product) key)
    deref (valuestring json_it)

  -- `s`, or what is tried where it is empty.
  pub non_empty : Bytes → Outcome Bytes → Outcome Bytes
  non_empty s other = if str_eq s [] then other else go s

  -- The name, or else the generic name, or else the categories.
  pub raw_name : Node → Outcome Bytes
  unfolding raw_text non_empty
  raw_name json_product = do
    name ← raw_text json_product (codes "product_name")
    non_empty name (do
      generic ← raw_text json_product (codes "generic_name")
      non_empty generic (do
        categories ← raw_text json_product (codes "categories")
        non_empty categories (leave Retval.unex_fields)))

  -- Copy a field of the product to `decoded` under another key.
  pub raw_field : Node → Bytes → Bytes → Node → Outcome Node
  raw_field json_product key name decoded = do
    json_it ← need Retval.unex_fields (get_object_item (some json_product) key)
    go (add_string_to_object decoded name (valuestring json_it))

  pub raw_fields : Node → Node → Outcome Node
  unfolding raw_field
  raw_fields json_product decoded = do
    quantity ← raw_field json_product (codes "nutrition_data_per") (codes "quantity") decoded
    ingredients ← raw_field json_product (codes "ingredients_text") (codes "ingredients") quantity
    brands ← raw_field json_product (codes "brands") (codes "brands") ingredients
    date ← raw_field json_product (codes "expiration_date") (codes "expiration_date") brands
    raw_field json_product (codes "labels") (codes "labels") date

  -- The loops over `json_it`.
  pub copy_strings : Node → List Node → Node
  copy_strings array [] = array
  copy_strings array (json_it ∷ rest) =
      copy_strings (add_item_to_array array (create_string (valuestring json_it))) rest

  pub raw_tag_array : Node → Bytes → Bytes → Node → Outcome Node
  unfolding copy_strings
  raw_tag_array json_product key name tags = do
    json_it_aux ← need Retval.unex_fields (get_object_item (some json_product) key)
    go (add_item_to_object tags name (copy_strings create_array (children json_it_aux)))

  pub raw_tags : Node → Node → Outcome Node
  unfolding raw_tag_array
  raw_tags json_product decoded = do
    additives ←
        raw_tag_array json_product (codes "additives_tags") (codes "additives") create_object
    allergens ← raw_tag_array json_product (codes "allergens_tags") (codes "allergens") additives
    tags ← raw_tag_array json_product (codes "ingredients_tags") (codes "ingredients") allergens
    go (add_item_to_object decoded (codes "tags") tags)

  -- The first url that there is goes under "front", whatever the image is.
  pub raw_first_url : List Node → Node → Outcome Node
  raw_first_url [] decoded_images = leave Retval.unex_fields
  raw_first_url (child ∷ rest) decoded_images = do
    url ← need Retval.unex_fields (valuestring child)
    go (add_string_to_object decoded_images (codes "front") (some url))

  -- The url in Spanish goes under `name`.
  pub raw_url : Option Node → Node → Bytes → Node → Outcome Node
  raw_url (some json_it) display name decoded_images =
      go (add_string_to_object decoded_images name (valuestring json_it))
  raw_url none display name decoded_images = raw_first_url (children display) decoded_images

  pub raw_display : Option Node → Bytes → Node → Outcome Node
  raw_display none name decoded_images = go decoded_images
  raw_display (some display) name decoded_images =
      raw_url (get_object_item (some display) (codes "es")) display name decoded_images

  pub raw_image_at : Option Node → Bytes → Node → Outcome Node
  raw_image_at none name decoded_images = go decoded_images
  raw_image_at (some image) name decoded_images =
      raw_display (get_object_item (some image) (codes "display")) name decoded_images

  pub raw_image : Node → Bytes → Node → Outcome Node
  unfolding raw_first_url raw_url raw_display raw_image_at
  raw_image json_images name decoded_images =
      raw_image_at (get_object_item (some json_images) name) name decoded_images

  -- With no memory for the object of the images `retval` stays NO_ERROR.
  pub raw_images : Bool → Node → Node → Outcome Node
  unfolding raw_image
  raw_images for_images json_product decoded = do
    json_images ←
        need Retval.unex_fields (get_object_item (some json_product) (codes "selected_images"))
    check Retval.no_error for_images
    front ← raw_image json_images (codes "front") create_object
    nutrition ← raw_image json_images (codes "nutrition") front
    decoded_images ← raw_image json_images (codes "ingredients") nutrition
    go (add_item_to_object decoded (codes "images") decoded_images)

  -- From the memory for the tags on. `number` and `code` are the caller's, and `str_timestamp` is what
  -- `strftime` wrote.
  pub raw_build : Memory → Bytes → ℤ → Bytes → Node → Outcome Node
  unfolding raw_name raw_fields raw_tags raw_images
  raw_build memory str_timestamp number code json_product = do
    check Retval.unex_fields memory.for_tags
    name ← raw_name json_product
    let named = add_string_to_object create_object (codes "name") (some name)
    let numbered = add_number_to_object named (codes "number") number
    texts ← raw_fields json_product numbered
    tagged ← raw_tags json_product texts
    pictured ← raw_images memory.for_images json_product tagged
    let stamped = add_string_to_object pictured (codes "timestamp") (some str_timestamp)
    go (add_string_to_object stamped (codes "code") (some code))

  -- From `cJSON_CreateObject` on. With no memory there `retval` stays NO_ERROR.
  pub raw_decode : Memory → Bytes → ℤ → Bytes → Node → Outcome Node
  unfolding raw_product raw_build
  raw_decode memory str_timestamp number code obj = do
    check Retval.no_error memory.for_decoded
    json_product ← raw_product obj
    raw_build memory str_timestamp number code json_product

  -- `retval` and `*pr_dec`; `none` is a crash.
  abbrev pub raw_end : Outcome Node → Option (ℕ × Option Node)
  raw_end (go decoded) = some (Retval.no_error, some decoded)
  raw_end (leave retval) = some (retval, none)
  raw_end crash = none

  pub sf_pr_raw_decoder : Memory → Bytes → Bytes → ℤ → Bytes → Option (ℕ × Option Node)
  unfolding raw_decode
  sf_pr_raw_decoder memory str_timestamp str_json number code = raw_end (do
    obj ← need Retval.inv_format (parse str_json)
    raw_decode memory str_timestamp number code obj)
