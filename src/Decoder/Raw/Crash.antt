-- ===== src/Decoder/Raw/Crash.antt =====
-- When `sf_pr_raw_decoder` reads through no NULL.
use smart_fridge.Prelude.{
  ℕ, ◌≡◌, refl, List, [], ◌∷◌, Option, none, some, Bool, true, false, Bytes, codes, Bool-cases, inl,
  inr, str_eq,
}
use smart_fridge.Prelude.Int.{ℤ}
use smart_fridge.Json.{CJson, Memory, Outcome, ◌>>=◌, check}
use smart_fridge.Json.Safe.{Safe, goes, leaves, Safe-bind, safety, found-Safe, IsText, TextAt}
use smart_fridge.Decoder.Raw.{
  raw_missing, raw_found, raw_product, raw_text, non_empty, raw_name, raw_field, raw_fields,
  raw_tag_array, raw_tags, raw_first_url, raw_url, raw_display, raw_image_at, raw_image, raw_images,
  raw_build, raw_decode, raw_end, sf_pr_raw_decoder,
}

module _ (c : CJson) where
  open c use {Node, parse, get_object_item, children, valuestring}

  -- The items that the decoder reads as texts without a test: the status of an answer, and the three
  -- that the name is taken from.
  pub record HasTexts (obj : Node) : Type 0 where
    pub status : TextAt c obj (codes "status_verbose")
    pub names :
        (n : Node)
        → get_object_item (some obj) (codes "product") ≡ some n
        → TextAt c n (codes "product_name")
          × TextAt c n (codes "generic_name")
          × TextAt c n (codes "categories")

  raw_text-Safe : (n : Node) (k : Bytes) → TextAt c n k → Safe (raw_text c n k)
  unfolding raw_text
  raw_text-Safe n k h = found-Safe _ _ _ (λ it e. let (s, t) = h it e in rw t goes)

  non_empty-Safe : (s : Bytes) {m : Outcome Bytes} → Safe m → Safe (non_empty c s m)
  unfolding non_empty
  non_empty-Safe s h = elim (Bool-cases (str_eq s [])) [ inl e ↦ rw e h | inr e ↦ rw e goes ]

  raw_name-Safe :
      (n : Node)
      → TextAt c n (codes "product_name")
      → TextAt c n (codes "generic_name")
      → TextAt c n (codes "categories")
      → Safe (raw_name c n)
  unfolding raw_name
  raw_name-Safe n p g k = Safe-bind _ (raw_text-Safe n _ p) (λ a. non_empty-Safe a (
      Safe-bind _ (raw_text-Safe n _ g)
        (λ b. non_empty-Safe b (Safe-bind _ (raw_text-Safe n _ k) (λ d. non_empty-Safe d leaves)))))

  raw_field-Safe : (n : Node) (k name : Bytes) (d : Node) → Safe (raw_field c n k name d)
  unfolding raw_field
  raw_field-Safe n k name d = search safety

  raw_fields-Safe : (n d : Node) → Safe (raw_fields c n d)
  unfolding raw_fields
  raw_fields-Safe n d = search (safety, raw_field-Safe) depth 20

  raw_tag_array-Safe : (n : Node) (k name : Bytes) (d : Node) → Safe (raw_tag_array c n k name d)
  unfolding raw_tag_array
  raw_tag_array-Safe n k name d = search safety

  raw_tags-Safe : (n d : Node) → Safe (raw_tags c n d)
  unfolding raw_tags
  raw_tags-Safe n d = search (safety, raw_tag_array-Safe) depth 20

  raw_first_url-Safe : (l : List Node) (d : Node) → Safe (raw_first_url c l d)
  unfolding raw_first_url
  raw_first_url-Safe [] d = leaves
  raw_first_url-Safe (n ∷ l) d = search safety

  raw_url-Safe : (o : Option Node) (n : Node) (k : Bytes) (d : Node) → Safe (raw_url c o n k d)
  unfolding raw_url
  raw_url-Safe none n k d = raw_first_url-Safe (children n) d
  raw_url-Safe (some it) n k d = goes

  raw_display-Safe : (o : Option Node) (k : Bytes) (d : Node) → Safe (raw_display c o k d)
  unfolding raw_display
  raw_display-Safe none k d = goes
  raw_display-Safe (some n) k d = raw_url-Safe _ n k d

  raw_image_at-Safe : (o : Option Node) (k : Bytes) (d : Node) → Safe (raw_image_at c o k d)
  unfolding raw_image_at
  raw_image_at-Safe none k d = goes
  raw_image_at-Safe (some n) k d = raw_display-Safe _ k d

  raw_image-Safe : (n : Node) (k : Bytes) (d : Node) → Safe (raw_image c n k d)
  unfolding raw_image
  raw_image-Safe n k d = raw_image_at-Safe (get_object_item (some n) k) k d

  check-Safe : (r : ℕ) (b : Bool) → Safe (check r b)
  check-Safe r true = goes
  check-Safe r false = leaves

  raw_images-Safe : (b : Bool) (n d : Node) → Safe (raw_images c b n d)
  unfolding raw_images
  raw_images-Safe b n d = search (safety, raw_image-Safe, check-Safe) depth 20

  raw_build-Safe :
      (memory : Memory) (timestamp : Bytes) (number : ℤ) (code : Bytes) (n : Node)
      → Safe (raw_name c n)
      → Safe (raw_build c memory timestamp number code n)
  unfolding raw_build
  raw_build-Safe memory timestamp number code n named =
      search (safety, check-Safe, named, raw_fields-Safe, raw_tags-Safe, raw_images-Safe) depth 20

  -- an answer without a product ends there
  raw_missing-Safe :
      (o : Option Node) (f : Node → Outcome Node)
      → ((it : Node) → o ≡ some it → IsText c it)
      → Safe (raw_missing c o >>= f)
  unfolding raw_missing
  raw_missing-Safe none f h = leaves
  raw_missing-Safe (some it) f h = let (s, e) = h it refl in rw e leaves

  module _ (memory : Memory) (timestamp : Bytes) (number : ℤ) (code : Bytes) (obj : Node)
      (texts : HasTexts obj) where
    raw_found-Safe :
        (o : Option Node)
        → get_object_item (some obj) (codes "product") ≡ o
        → Safe (
            raw_found c o (get_object_item (some obj) (codes "status_verbose"))
            >>= raw_build c memory timestamp number code)
    unfolding raw_found
    raw_found-Safe none e = raw_missing-Safe _ _ texts.status
    raw_found-Safe (some n) e =
        let (p, g, k) = texts.names n e in
        raw_build-Safe memory timestamp number code n (raw_name-Safe n p g k)

  raw_end-Safe : {m : Outcome Node} → Safe m → (r : ℕ × Option Node) × (raw_end c m ≡ some r)
  raw_end-Safe goes = (_, refl)
  raw_end-Safe leaves = (_, refl)

  -- sf_pr_raw_decoder returns, and reads through no NULL, with or without memory, on a text that is no
  -- JSON and on every answer in which the status and the three items that the name is taken from are
  -- texts or absent.
  pub sf_pr_raw_decoder-returns :
      (memory : Memory) (timestamp text : Bytes) (number : ℤ) (code : Bytes)
      → ((n : Node) → parse text ≡ some n → HasTexts n)
      → (r : ℕ × Option Node) × (sf_pr_raw_decoder c memory timestamp text number code ≡ some r)
  unfolding sf_pr_raw_decoder raw_decode raw_product
  sf_pr_raw_decoder-returns memory timestamp text number code h = raw_end-Safe (
      found-Safe _ _ _ (λ n e.
        Safe-bind _ (check-Safe _ memory.for_decoded)
          (λ u. raw_found-Safe memory timestamp number code n (h n e) _ refl)))
