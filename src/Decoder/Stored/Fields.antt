-- ===== src/Decoder/Stored/Fields.antt =====
-- What `sf_pr_decoder` makes of a message whose items are known.
use smart_fridge.Prelude.{
  ◌≡◌, refl, ap, Option, none, some, List, [], ◌∷◌, ◌++◌, Bytes, codes, str_eq, if◌then◌else◌,
  append_assoc, append-nil,
}
use smart_fridge.Prelude.Int.{ℤ}
use smart_fridge.Json.{CJson, go}
use smart_fridge.Json.Objects.{Text, Number, Array, Texts}
use smart_fridge.Decoder.{Product, ProductImages, cleared}
use smart_fridge.Decoder.Retval
use smart_fridge.Decoder.Stored.{
  copy_string, text_field, append_tags, tag_array, tag_field, copy_if_found, image_field,
  decode_texts, decode_tags, decode_images, decode_unless_removed, decode, sf_pr_decoder,
}

-- An empty text becomes NULL.
abbrev pub or_null : Bytes → Option Bytes
or_null s = if str_eq s [] then none else some s

-- An array without items is NULL.
abbrev pub tag_list : List Bytes → Option (List Bytes)
tag_list [] = none
tag_list (tag ∷ tags) = some (tag ∷ tags)

-- The contents of a message, with the texts as they are there.
pub record Contents : Type 0 where
  pub name : Bytes
  pub number : ℤ
  pub quantity : Bytes
  pub ingredients : Bytes
  pub brands : Bytes
  pub expiration_date : Bytes
  pub labels : Bytes
  pub additives_tags : List Bytes
  pub allergens_tags : List Bytes
  pub ingredients_tags : List Bytes
  pub images : ProductImages
  pub timestamp : Bytes
  pub code : Bytes

-- The product of these contents.
abbrev pub product_of : Contents → Product
product_of e = record {
  images = e.images;
  name = some e.name;
  code = or_null e.code;
  timestamp = or_null e.timestamp;
  quantity = or_null e.quantity;
  ingredients = or_null e.ingredients;
  brands = or_null e.brands;
  expiration_date = or_null e.expiration_date;
  labels = or_null e.labels;
  ingredients_tags = tag_list e.ingredients_tags;
  allergens_tags = tag_list e.allergens_tags;
  additives_tags = tag_list e.additives_tags;
  number = e.number;
}

module _ (c : CJson) where
  open c use {Node, parse, get_object_item, children, valuestring, valueint}

  -- An image is absent or a text.
  abbrev pub Picture : Node → Bytes → Option Bytes → Type 0
  Picture n key none = get_object_item (some n) key ≡ none
  Picture n key (some url) = Text c n key url

  -- The message has these contents and is no deletion request.
  pub record IsMessageOf (e : Contents) (d : Node) : Type 0 where
    pub tags : Node
    pub pictures : Node
    pub name : Text c d (codes "name") e.name
    pub number : Number c d (codes "number") e.number
    pub quantity : Text c d (codes "quantity") e.quantity
    pub ingredients : Text c d (codes "ingredients") e.ingredients
    pub brands : Text c d (codes "brands") e.brands
    pub date : Text c d (codes "expiration_date") e.expiration_date
    pub labels : Text c d (codes "labels") e.labels
    pub timestamp : Text c d (codes "timestamp") e.timestamp
    pub code : Text c d (codes "code") e.code
    pub kept : get_object_item (some d) (codes "remove") ≡ none
    pub tags_found : get_object_item (some d) (codes "tags") ≡ some tags
    pub pictures_found : get_object_item (some d) (codes "images") ≡ some pictures
    pub additives : Array c tags (codes "additives") e.additives_tags
    pub allergens : Array c tags (codes "allergens") e.allergens_tags
    pub ingredient_tags : Array c tags (codes "ingredients") e.ingredients_tags
    pub front : Picture pictures (codes "front") e.images.front
    pub nutrition : Picture pictures (codes "nutrition") e.images.nutrition
    pub ingredients_image : Picture pictures (codes "ingredients") e.images.ingredients

  text_field-Text :
      {n : Node} {key s : Bytes} → Text c n key s → text_field c n key ≡ go (or_null s)
  unfolding text_field
  text_field-Text t = rw (t.found, t.holds)

  append_tags-Texts :
      (ns : List Node) (ss tags : List Bytes)
      → Texts c ns ss
      → append_tags c tags ns ≡ go (tags ++ ss)
  unfolding append_tags
  append_tags-Texts [] [] tags h = rw (append-nil tags)
  append_tags-Texts (n ∷ ns) (s ∷ ss) tags (e, h) =
      rw (e, append_tags-Texts ns ss (tags ++ s ∷ []) h, append_assoc tags (s ∷ []) ss)
  append_tags-Texts [] (s ∷ ss) tags h = absurd h
  append_tags-Texts (n ∷ ns) [] tags h = absurd h

  tag_field-Array :
      {n : Node} {key : Bytes} {ss : List Bytes}
      → Array c n key ss
      → tag_field c (some n) key ≡ go (tag_list ss)
  unfolding tag_field
  tag_field-Array {ss = ss} t =
      rw (t.found, append_tags-Texts (children t.item) ss [] t.holds) (ap go (same_list ss))
    where
      same_list : (ss : List Bytes) → tag_array c ss ≡ tag_list ss
      same_list [] = refl
      same_list (s ∷ ss) = refl

  image_field-Picture :
      (n : Node) (key : Bytes) (url : Option Bytes)
      → Picture n key url
      → image_field c n key ≡ go url
  unfolding image_field copy_if_found copy_string
  image_field-Picture n key none h = rw h
  image_field-Picture n key (some url) t = rw (t.found, t.holds)

  -- A message with these contents is decoded to their product, with NO_ERROR.
  pub sf_pr_decoder-product_of :
      (e : Contents) (d : Node) (message : Bytes)
      → IsMessageOf e d
      → parse message ≡ some d
      → sf_pr_decoder c message ≡ some (Retval.no_error, some (product_of e))
  unfolding sf_pr_decoder decode decode_unless_removed decode_texts copy_string decode_tags
      decode_images
  sf_pr_decoder-product_of e d message m parsed = rw (
    parsed,
    text_field-Text m.code,
    m.kept,
    m.name.found,
    m.name.holds,
    m.number.found,
    text_field-Text m.quantity,
    text_field-Text m.ingredients,
    text_field-Text m.brands,
    text_field-Text m.date,
    text_field-Text m.timestamp,
    text_field-Text m.labels,
    m.number.holds,
    m.tags_found,
    tag_field-Array m.additives,
    tag_field-Array m.allergens,
    tag_field-Array m.ingredient_tags,
    m.pictures_found,
    image_field-Picture _ _ _ m.front,
    image_field-Picture _ _ _ m.nutrition,
    image_field-Picture _ _ _ m.ingredients_image,
  )

  -- A message with a code and an item `remove` is decoded to a product with that code alone, with DELETION_REQ.
  pub sf_pr_decoder-removal :
      (d item : Node) (code message : Bytes)
      → Text c d (codes "code") code
      → get_object_item (some d) (codes "remove") ≡ some item
      → parse message ≡ some d
      → sf_pr_decoder c message
        ≡ some (Retval.deletion_req, some (record cleared { code = or_null code }))
  unfolding sf_pr_decoder decode decode_unless_removed
  sf_pr_decoder-removal d item code message t removes parsed =
      rw (parsed, text_field-Text t, removes)
