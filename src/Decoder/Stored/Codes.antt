-- ===== src/Decoder/Stored/Codes.antt =====
-- What the return value and the pointer of `sf_pr_decoder` tell together.
use smart_fridge.Prelude.{
  ℕ, ◌≡◌, refl, arith, List, [], ◌∷◌, ◌++◌, Option, none, some, Bytes, codes, is_some,
  if◌then◌else◌,
}
use smart_fridge.Json.{CJson, Outcome, go, leave, crash, ◌>>=◌, need}
use smart_fridge.Json.Ends.{
  LeavesBy, leaving, goes, leaves, LeavesBy-deref, LeavesBy-bind, bind-eq-go,
}
use smart_fridge.Decoder.{Product}
use smart_fridge.Decoder.Retval
use smart_fridge.Decoder.Stored.{
  copy_string, text_field, append_tags, tag_field, image_field, decode_texts, decode_tags,
  decode_images, decode_unless_removed, copy_if_found, decode, sf_pr_decoder, decoder_end,
}

module _ (c : CJson) where
  open c use {Node, parse, get_object_item, children, valuestring, valueint}

  copy_string-LeavesBy : (n : Node) → LeavesBy Retval.unex_fields (copy_string c n)
  unfolding copy_string
  copy_string-LeavesBy n = search leaving

  text_field-LeavesBy : (n : Node) (k : Bytes) → LeavesBy Retval.unex_fields (text_field c n k)
  unfolding text_field
  text_field-LeavesBy n k = search leaving

  append_tags-LeavesBy :
      (tags : List Bytes) (l : List Node) → LeavesBy Retval.unex_fields (append_tags c tags l)
  unfolding append_tags
  append_tags-LeavesBy tags [] = goes
  append_tags-LeavesBy tags (n ∷ l) =
      LeavesBy-bind _ (LeavesBy-deref _ (valuestring n))
        (λ s. append_tags-LeavesBy (tags ++ s ∷ []) l)

  tag_field-LeavesBy : (n : Option Node) (k : Bytes) → LeavesBy Retval.unex_fields (tag_field c n k)
  unfolding tag_field
  tag_field-LeavesBy n k = search (leaving, append_tags-LeavesBy)

  decode_texts-LeavesBy :
      (n : Node) (p : Product) → LeavesBy Retval.unex_fields (decode_texts c n p)
  unfolding decode_texts
  decode_texts-LeavesBy n p = search (leaving, copy_string-LeavesBy, text_field-LeavesBy) depth 20

  copy_if_found-LeavesBy : (o : Option Node) → LeavesBy Retval.unex_fields (copy_if_found c o)
  unfolding copy_if_found
  copy_if_found-LeavesBy none = goes
  copy_if_found-LeavesBy (some n) = copy_string-LeavesBy n

  image_field-LeavesBy : (n : Node) (k : Bytes) → LeavesBy Retval.unex_fields (image_field c n k)
  unfolding image_field
  image_field-LeavesBy n k = copy_if_found-LeavesBy (get_object_item (some n) k)

  decode_tags-LeavesBy : (n : Node) (p : Product) → LeavesBy Retval.unex_fields (decode_tags c n p)
  unfolding decode_tags
  decode_tags-LeavesBy n p = search (leaving, tag_field-LeavesBy) depth 20

  decode_images-LeavesBy :
      (n : Node) (p : Product) → LeavesBy Retval.unex_fields (decode_images c n p)
  unfolding decode_images
  decode_images-LeavesBy n p = search (leaving, image_field-LeavesBy) depth 20

  decode_unless_removed-LeavesBy :
      (n : Node) (p : Product) (o : Option Node)
      → LeavesBy Retval.unex_fields (decode_unless_removed c n p o)
  unfolding decode_unless_removed
  decode_unless_removed-LeavesBy n p none =
      search (leaving, decode_texts-LeavesBy, decode_tags-LeavesBy, decode_images-LeavesBy) depth 20
  decode_unless_removed-LeavesBy n p (some it) = goes

  decode-LeavesBy : (n : Node) → LeavesBy Retval.unex_fields (decode c n)
  unfolding decode
  decode-LeavesBy n = search (leaving, text_field-LeavesBy, decode_unless_removed-LeavesBy) depth 10

  -- A product comes with the code of the request that it is.
  decode_unless_removed-code :
      (n : Node) (p : Product) (o : Option Node) {r : ℕ} {q : Product}
      → decode_unless_removed c n p o ≡ go (r, q)
      → r ≡ (if is_some o then Retval.deletion_req else Retval.no_error)
  unfolding decode_unless_removed
  decode_unless_removed-code n p (some it) h = cc
  decode_unless_removed-code n p none h =
      let (t, e, h1) = bind-eq-go (decode_texts c n p) _ h in
      let (g, f, h2) = bind-eq-go (decode_tags c n t) _ h1 in
      let (d, k, h3) = bind-eq-go (decode_images c n g) _ h2 in cc

  decode-code :
      (n : Node) {r : ℕ} {q : Product}
      → decode c n ≡ go (r, q)
      → r ≡ (
          if is_some (get_object_item (some n) (codes "remove"))
          then Retval.deletion_req
          else Retval.no_error)
  unfolding decode
  decode-code n h =
      let (s, e, h1) = bind-eq-go (text_field c n (codes "code")) _ h in
      decode_unless_removed-code n _ _ h1

  -- What a pointer and a code say of the message that was parsed.
  abbrev pub Replies : Option Node → ℕ → Option Product → Type 0
  Replies none r p = (r ≡ Retval.inv_format) × (p ≡ none)
  Replies (some n) r none = r ≡ Retval.unex_fields
  Replies (some n) r (some q) = r ≡ (
      if is_some (get_object_item (some n) (codes "remove"))
      then Retval.deletion_req
      else Retval.no_error)

  decoder_end-Replies :
      (n : Node) (m : Outcome (ℕ × Product)) {r : ℕ} {p : Option Product}
      → decode c n ≡ m
      → LeavesBy Retval.unex_fields m
      → decoder_end c m ≡ some (r, p)
      → Replies (some n) r p
  decoder_end-Replies n (go (s, q)) {p = none} d l e = cc
  decoder_end-Replies n (go (s, q)) {p = some x} d l e = cc (decode-code n d)
  decoder_end-Replies n (leave s) {p = none} d (leaves f) e = cc
  decoder_end-Replies n (leave s) {p = some x} d l e = cc
  decoder_end-Replies n crash d l e = cc

  -- sf_pr_decoder, where it returns, returns NULL with INV_FORMAT if the text is no JSON, and
  -- otherwise either NULL with UNEX_FIELDS or a product with DELETION_REQ if the message has an
  -- item `remove` and NO_ERROR if not.
  pub sf_pr_decoder-codes :
      (text : Bytes) {r : ℕ} {p : Option Product}
      → sf_pr_decoder c text ≡ some (r, p)
      → Replies (parse text) r p
  unfolding sf_pr_decoder
  sf_pr_decoder-codes text e = cases (parse text) e
    where
      cases :
          (o : Option Node) {r : ℕ} {p : Option Product}
          → decoder_end c (need Retval.inv_format o >>= decode c) ≡ some (r, p)
          → Replies o r p
      cases none e = ground arith
      cases (some n) e = decoder_end-Replies n (decode c n) refl (decode-LeavesBy n) e
