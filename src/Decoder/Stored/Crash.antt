-- ===== src/Decoder/Stored/Crash.antt =====
-- When `sf_pr_decoder` reads through NULL: `valuestring` is NULL in an item that is no text.
use smart_fridge.Prelude.{ℕ, ◌≡◌, refl, List, [], ◌∷◌, ◌++◌, Option, none, some, Bytes, codes}
use smart_fridge.Json.{CJson, Outcome}
use smart_fridge.Json.Safe.{Safe, goes, leaves, Safe-bind, safety, found-Safe, IsText, TextAt}
use smart_fridge.Decoder.{Product}
use smart_fridge.Decoder.Stored.{
  copy_string, text_field, append_tags, tag_field, image_field, decode_texts, decode_tags,
  decode_images, decode_unless_removed, copy_if_found, decode, sf_pr_decoder, decoder_end,
}

module _ (c : CJson) where
  open c use {Node, parse, get_object_item, children, valuestring, valueint}

  abbrev pub AllText : List Node → Type 0
  AllText [] = Unit
  AllText (n ∷ l) = IsText c n × AllText l

  abbrev pub TextsAt : Option Node → Bytes → Type 0
  TextsAt n k = (it : Node) → get_object_item n k ≡ some it → AllText (children it)

  -- Every item of the message that the decoder reads as a text is one.
  pub record IsTextual (n : Node) : Type 0 where
    pub code : TextAt c n (codes "code")
    pub name : TextAt c n (codes "name")
    pub quantity : TextAt c n (codes "quantity")
    pub ingredients : TextAt c n (codes "ingredients")
    pub brands : TextAt c n (codes "brands")
    pub date : TextAt c n (codes "expiration_date")
    pub timestamp : TextAt c n (codes "timestamp")
    pub labels : TextAt c n (codes "labels")
    pub additives : TextsAt (get_object_item (some n) (codes "tags")) (codes "additives")
    pub allergens : TextsAt (get_object_item (some n) (codes "tags")) (codes "allergens")
    pub tags : TextsAt (get_object_item (some n) (codes "tags")) (codes "ingredients")
    pub images :
        (m : Node)
        → get_object_item (some n) (codes "images") ≡ some m
        → TextAt c m (codes "front")
          × TextAt c m (codes "nutrition")
          × TextAt c m (codes "ingredients")

  copy_string-Safe : (n : Node) → IsText c n → Safe (copy_string c n)
  unfolding copy_string
  copy_string-Safe n (s, e) = rw e goes

  text_field-Safe : (n : Node) (k : Bytes) → TextAt c n k → Safe (text_field c n k)
  unfolding text_field
  text_field-Safe n k h = found-Safe _ _ _ (λ it e. let (s, t) = h it e in rw t goes)

  append_tags-Safe : (tags : List Bytes) (l : List Node) → AllText l → Safe (append_tags c tags l)
  unfolding append_tags
  append_tags-Safe tags [] h = goes
  append_tags-Safe tags (n ∷ l) ((s, e), h) = rw e (append_tags-Safe (tags ++ s ∷ []) l h)

  tag_field-Safe : (n : Option Node) (k : Bytes) → TextsAt n k → Safe (tag_field c n k)
  unfolding tag_field
  tag_field-Safe n k h =
      found-Safe _ _ _
        (λ it e. Safe-bind _ (append_tags-Safe [] (children it) (h it e)) (λ l. goes))

  copy_if_found-Safe :
      (o : Option Node) → ((it : Node) → o ≡ some it → IsText c it) → Safe (copy_if_found c o)
  unfolding copy_if_found
  copy_if_found-Safe none h = goes
  copy_if_found-Safe (some n) h = copy_string-Safe n (h n refl)

  image_field-Safe : (n : Node) (k : Bytes) → TextAt c n k → Safe (image_field c n k)
  unfolding image_field
  image_field-Safe n k h = copy_if_found-Safe _ h

  module _ (n : Node) (textual : IsTextual n) where
    open textual use {code, name, quantity, ingredients, brands, date, timestamp, labels}

    decode_texts-Safe : (p : Product) → Safe (decode_texts c n p)
    unfolding decode_texts
    decode_texts-Safe p = found-Safe _ _ _ (λ it e.
        Safe-bind _ (copy_string-Safe it (name it e)) (λ s.
          search
            (
              safety,
              text_field-Safe n _ quantity,
              text_field-Safe n _ ingredients,
              text_field-Safe n _ brands,
              text_field-Safe n _ date,
              text_field-Safe n _ timestamp,
              text_field-Safe n _ labels,
            )
            depth 20))

    decode_tags-Safe : (p : Product) → Safe (decode_tags c n p)
    unfolding decode_tags
    decode_tags-Safe p =
        search
          (
            safety,
            tag_field-Safe _ _ textual.additives,
            tag_field-Safe _ _ textual.allergens,
            tag_field-Safe _ _ textual.tags,
          )
          depth 10

    decode_images-Safe : (p : Product) → Safe (decode_images c n p)
    unfolding decode_images
    decode_images-Safe p = found-Safe _ _ _ (λ m e.
        let (front, nutrition, ingredients) = textual.images m e in
        search
          (
            safety,
            image_field-Safe m _ front,
            image_field-Safe m _ nutrition,
            image_field-Safe m _ ingredients,
          )
          depth 10)

    decode_unless_removed-Safe :
        (p : Product) (o : Option Node) → Safe (decode_unless_removed c n p o)
    unfolding decode_unless_removed
    decode_unless_removed-Safe p (some it) = goes
    decode_unless_removed-Safe p none =
        search (safety, decode_texts-Safe, decode_tags-Safe, decode_images-Safe) depth 10

    decode-Safe : Safe (decode c n)
    unfolding decode
    decode-Safe = search (safety, text_field-Safe n _ code, decode_unless_removed-Safe) depth 10

  decoder_end-Safe :
      {m : Outcome (ℕ × Product)} → Safe m → (r : ℕ × Option Product) × (decoder_end c m ≡ some r)
  decoder_end-Safe goes = (_, refl)
  decoder_end-Safe leaves = (_, refl)

  -- sf_pr_decoder returns, and reads through no NULL, on a text that is no JSON and on every message
  -- in which the items that it reads as texts are texts or absent.
  pub sf_pr_decoder-returns :
      (text : Bytes)
      → ((n : Node) → parse text ≡ some n → IsTextual n)
      → (r : ℕ × Option Product) × (sf_pr_decoder c text ≡ some r)
  unfolding sf_pr_decoder
  sf_pr_decoder-returns text h = decoder_end-Safe (found-Safe _ _ _ (λ n e. decode-Safe n (h n e)))

  -- A message whose item `code` is no text crashes sf_pr_decoder, whatever else the message holds.
  pub sf_pr_decoder-crash :
      (text : Bytes) (root it : Node)
      → parse text ≡ some root
      → get_object_item (some root) (codes "code") ≡ some it
      → valuestring it ≡ none
      → sf_pr_decoder c text ≡ none
  unfolding sf_pr_decoder decode text_field
  sf_pr_decoder-crash text root it p f e = rw (p, f, e)
