-- ===== src/Decoder/Raw/Answer.antt =====
-- The message that `sf_pr_raw_decoder` builds of an answer whose fields are known.
use smart_fridge.Prelude.{◌≡◌, Option, none, some, [], ◌∷◌, true, Bytes, codes}
use smart_fridge.Json.{CJson, Memory, go}
use smart_fridge.Json.Objects.{Text, Array, str, num, sub, Fields, build}
use smart_fridge.Decoder.{ProductImages}
use smart_fridge.Decoder.Stored.Fields.{Contents}
use smart_fridge.Decoder.Raw.{
  raw_name, raw_field, raw_fields, copy_strings, raw_tag_array, raw_tags, raw_url, raw_display,
  raw_image_at, raw_image, raw_images, raw_build,
}

abbrev pub enough : Memory
enough = record { for_decoded = true; for_tags = true; for_images = true }

module _ (c : CJson) where
  open c use {
    Node, parse, get_object_item, children, valuestring, create_array, create_string,
    add_item_to_array,
  }

  -- The image with a url in Spanish.
  pub record Spanish (a : Node) (key url : Bytes) : Type 0 where
    pub image : Node
    pub display : Node
    pub image_found : get_object_item (some a) key ≡ some image
    pub display_found : get_object_item (some image) (codes "display") ≡ some display
    pub url_text : Text c display (codes "es") url

  -- It is absent, or has a url in Spanish.
  abbrev pub Shown : Node → Bytes → Option Bytes → Type 0
  Shown a key none = get_object_item (some a) key ≡ none
  Shown a key (some url) = Spanish a key url

  -- The product of the answer has these contents, but for the number, the time and the code, which the reader adds.
  pub record IsAnswerOf (e : Contents) (n : Node) : Type 0 where
    pub selected : Node
    pub named : raw_name c n ≡ go e.name
    pub quantity : Text c n (codes "nutrition_data_per") e.quantity
    pub ingredients : Text c n (codes "ingredients_text") e.ingredients
    pub brands : Text c n (codes "brands") e.brands
    pub date : Text c n (codes "expiration_date") e.expiration_date
    pub labels : Text c n (codes "labels") e.labels
    pub additives : Array c n (codes "additives_tags") e.additives_tags
    pub allergens : Array c n (codes "allergens_tags") e.allergens_tags
    pub ingredient_tags : Array c n (codes "ingredients_tags") e.ingredients_tags
    pub selected_found : get_object_item (some n) (codes "selected_images") ≡ some selected
    pub front : Shown selected (codes "front") e.images.front
    pub nutrition : Shown selected (codes "nutrition") e.images.nutrition
    pub ingredients_image : Shown selected (codes "ingredients") e.images.ingredients

  abbrev pub copied : Node → Node
  copied item = copy_strings c create_array (children item)

  abbrev pub add_picture : Bytes → Option Bytes → Fields c → Fields c
  add_picture key none fields = fields
  add_picture key (some url) fields = (key, str url) ∷ fields

  abbrev pub pictures : ProductImages → Fields c
  pictures images = add_picture (codes "ingredients") images.ingredients (
      add_picture (codes "nutrition") images.nutrition
        (add_picture (codes "front") images.front []))

  module _ (e : Contents) (n : Node) (a : IsAnswerOf e n) where
    abbrev pub tags : Fields c
    tags =
        (codes "ingredients", sub (copied a.ingredient_tags.item))
        ∷ (codes "allergens", sub (copied a.allergens.item))
        ∷ (codes "additives", sub (copied a.additives.item))
        ∷ []

    abbrev pub fields : Fields c
    fields =
        (codes "code", str e.code)
        ∷ (codes "timestamp", str e.timestamp)
        ∷ (codes "images", sub (build c (pictures e.images)))
        ∷ (codes "tags", sub (build c tags))
        ∷ (codes "labels", str e.labels)
        ∷ (codes "expiration_date", str e.expiration_date)
        ∷ (codes "brands", str e.brands)
        ∷ (codes "ingredients", str e.ingredients)
        ∷ (codes "quantity", str e.quantity)
        ∷ (codes "number", num e.number)
        ∷ (codes "name", str e.name)
        ∷ []

    raw_image-Shown :
        (s : Node) (key : Bytes) (url : Option Bytes) (rest : Fields c)
        → Shown s key url
        → raw_image c s key (build c rest) ≡ go (build c (add_picture key url rest))
    unfolding raw_image raw_image_at raw_display raw_url
    raw_image-Shown s key none rest h = rw h
    raw_image-Shown s key (some url) rest h =
        rw (h.image_found, h.display_found, h.url_text.found, h.url_text.holds)

    pub raw_build-fields : raw_build c enough e.timestamp e.number e.code n ≡ go (build c fields)
    unfolding raw_build raw_fields raw_field raw_tags raw_tag_array raw_images
    raw_build-fields = rw (
      a.named,
      a.quantity.found,
      a.quantity.holds,
      a.ingredients.found,
      a.ingredients.holds,
      a.brands.found,
      a.brands.holds,
      a.date.found,
      a.date.holds,
      a.labels.found,
      a.labels.holds,
      a.additives.found,
      a.allergens.found,
      a.ingredient_tags.found,
      a.selected_found,
      raw_image-Shown a.selected (codes "front") e.images.front [] a.front,
      raw_image-Shown a.selected (codes "nutrition") e.images.nutrition _ a.nutrition,
      raw_image-Shown a.selected (codes "ingredients") e.images.ingredients _ a.ingredients_image,
    )
