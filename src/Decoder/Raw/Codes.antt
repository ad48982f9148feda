-- ===== src/Decoder/Raw/Codes.antt =====
-- What `sf_pr_raw_decoder` returns, given memory for the objects that it creates.
use smart_fridge.Prelude.{
  ℕ, ◌≡◌, ◌⊎◌, inl, inr, refl, arith, List, [], ◌∷◌, Option, none, some, true, false, Bytes, codes,
  false, Bool-cases, str_eq, str_eq_iff, Option-cases, ap, ◌∙◌,
}
use smart_fridge.Prelude.Int.{ℤ}
use smart_fridge.Json.{CJson, Memory, Outcome, go, leave, crash, ◌>>=◌, need}
use smart_fridge.Json.Ends.{LeavesBy, leaving, goes, leaves, LeavesBy-bind}
use smart_fridge.Decoder.Retval
use smart_fridge.Decoder.Raw.{
  raw_missing, raw_found, raw_product, raw_text, non_empty, raw_name, raw_field, raw_fields,
  raw_tag_array, raw_tags, raw_first_url, raw_url, raw_display, raw_image_at, raw_image, raw_images,
  raw_build, raw_decode, raw_end, sf_pr_raw_decoder,
}

module _ (c : CJson) where
  open c use {Node, parse, get_object_item, children, valuestring, valueint}

  raw_text-LeavesBy : (n : Node) (k : Bytes) → LeavesBy Retval.unex_fields (raw_text c n k)
  unfolding raw_text
  raw_text-LeavesBy n k = search leaving

  non_empty-LeavesBy :
      {r : ℕ} (s : Bytes) {m : Outcome Bytes} → LeavesBy r m → LeavesBy r (non_empty c s m)
  unfolding non_empty
  non_empty-LeavesBy s h = elim (Bool-cases (str_eq s [])) [ inl e ↦ rw e h | inr e ↦ rw e goes ]

  raw_name-LeavesBy : (n : Node) → LeavesBy Retval.unex_fields (raw_name c n)
  unfolding raw_name
  raw_name-LeavesBy n = LeavesBy-bind _ (raw_text-LeavesBy n _) (λ a. non_empty-LeavesBy a (
      LeavesBy-bind _ (raw_text-LeavesBy n _) (λ b.
        non_empty-LeavesBy b
          (LeavesBy-bind _ (raw_text-LeavesBy n _) (λ d. non_empty-LeavesBy d (leaves refl))))))

  raw_field-LeavesBy :
      (n : Node) (k name : Bytes) (d : Node) → LeavesBy Retval.unex_fields (raw_field c n k name d)
  unfolding raw_field
  raw_field-LeavesBy n k name d = search leaving

  raw_fields-LeavesBy : (n d : Node) → LeavesBy Retval.unex_fields (raw_fields c n d)
  unfolding raw_fields
  raw_fields-LeavesBy n d = search (leaving, raw_field-LeavesBy) depth 20

  raw_tag_array-LeavesBy :
      (n : Node) (k name : Bytes) (d : Node)
      → LeavesBy Retval.unex_fields (raw_tag_array c n k name d)
  unfolding raw_tag_array
  raw_tag_array-LeavesBy n k name d = search leaving

  raw_tags-LeavesBy : (n d : Node) → LeavesBy Retval.unex_fields (raw_tags c n d)
  unfolding raw_tags
  raw_tags-LeavesBy n d = search (leaving, raw_tag_array-LeavesBy) depth 20

  raw_first_url-LeavesBy :
      (l : List Node) (d : Node) → LeavesBy Retval.unex_fields (raw_first_url c l d)
  unfolding raw_first_url
  raw_first_url-LeavesBy [] d = leaves refl
  raw_first_url-LeavesBy (n ∷ l) d = search leaving

  raw_url-LeavesBy :
      (o : Option Node) (n : Node) (name : Bytes) (d : Node)
      → LeavesBy Retval.unex_fields (raw_url c o n name d)
  unfolding raw_url
  raw_url-LeavesBy none n name d = raw_first_url-LeavesBy (children n) d
  raw_url-LeavesBy (some it) n name d = goes

  raw_display-LeavesBy :
      (o : Option Node) (name : Bytes) (d : Node)
      → LeavesBy Retval.unex_fields (raw_display c o name d)
  unfolding raw_display
  raw_display-LeavesBy none name d = goes
  raw_display-LeavesBy (some n) name d = raw_url-LeavesBy _ n name d

  raw_image-LeavesBy :
      (o : Option Node) (name : Bytes) (d : Node)
      → LeavesBy Retval.unex_fields (raw_image_at c o name d)
  unfolding raw_image_at
  raw_image-LeavesBy none name d = goes
  raw_image-LeavesBy (some n) name d = raw_display-LeavesBy _ name d

  raw_images-LeavesBy : (n d : Node) → LeavesBy Retval.unex_fields (raw_images c true n d)
  unfolding raw_images raw_image
  raw_images-LeavesBy n d = search (leaving, raw_image-LeavesBy) depth 20

  missing_stops :
      (o : Option Node) (f : Node → Outcome Node) → (raw_missing c o >>= f) ≡ raw_missing c o
  unfolding raw_missing
  missing_stops none f = refl
  missing_stops (some st) f = elim (Option-cases (valuestring st)) [
    | inl h ↦ rw h
    | inr (v, h) ↦ rw h
  ]

  -- Every `cJSON_Create…` finds memory.
  abbrev pub Suffices : Memory → Type 0
  Suffices m = (m.for_decoded ≡ true) × (m.for_tags ≡ true) × (m.for_images ≡ true)

  -- The answer `obj` has no product, and its status says that there is none.
  pub record SaysNotFound (obj : Node) : Type 0 where
    pub absent : get_object_item (some obj) (codes "product") ≡ none
    pub status : Node
    pub found : get_object_item (some obj) (codes "status_verbose") ≡ some status
    pub says : valuestring status ≡ some (codes "product not found")

  -- What a code and a pointer say of the answer that was parsed.
  abbrev pub Answers : Option Node → ℕ → Option Node → Type 0
  Answers none r p = (r ≡ Retval.inv_format) × (p ≡ none)
  Answers (some obj) r none =
      ((r ≡ Retval.pr_not_found) × SaysNotFound obj)
      ⊎ ((r ≡ Retval.unex_fields) × ¬ (SaysNotFound obj))
  Answers (some obj) r (some d) = (r ≡ Retval.no_error) × ¬ (SaysNotFound obj)

  module _ (memory : Memory) (room : Suffices memory) (timestamp : Bytes) (number : ℤ)
      (code : Bytes) where
    raw_build-LeavesBy :
        (n : Node) → LeavesBy Retval.unex_fields (raw_build c memory timestamp number code n)
    unfolding raw_build
    raw_build-LeavesBy n =
        rw (room.1, room.2)
          (search
            (
              leaving, raw_name-LeavesBy, raw_fields-LeavesBy, raw_tags-LeavesBy,
              raw_images-LeavesBy,
            )
            depth 12)

    raw_end-eq :
        (m : Outcome Node) {r : ℕ} {p : Option Node}
        → LeavesBy Retval.unex_fields m
        → raw_end c m ≡ some (r, p)
        → ((r ≡ Retval.unex_fields) × (p ≡ none))
          ⊎ ((r ≡ Retval.no_error) × ((d : Node) × (p ≡ some d)))
    raw_end-eq (go d) {r} {p} l e = inr (cc, (d, cc))
    raw_end-eq (leave s) (leaves f) e = inl (cc, cc)
    raw_end-eq crash l e = cc

    says-Answers :
        (obj st : Node) (v : Option Bytes) {r : ℕ} {p : Option Node}
        → get_object_item (some obj) (codes "product") ≡ none
        → get_object_item (some obj) (codes "status_verbose") ≡ some st
        → valuestring st ≡ v
        → raw_end c (raw_missing c (some st)) ≡ some (r, p)
        → Answers (some obj) r p
    unfolding raw_missing
    says-Answers obj st none f g h e = cc
    says-Answers obj st (some v) {p = some d} f g h e = cc
    says-Answers obj st (some v) {r} {p = none} f g h e =
        elim (Bool-cases (str_eq v (codes "product not found"))) [
          | inl same ↦ inl (
            cc,
            record {
              absent = f;
              status = st;
              found = g;
              says = h ∙ ap some ((str_eq_iff _ _).0 same);
            },
          )
          | inr other ↦ inr (cc, λ x. absurd (other_text other x))
        ]
      where
        other_text : str_eq v (codes "product not found") ≡ false → SaysNotFound obj → ⊥
        other_text other x = cc ((str_eq_iff v (codes "product not found")).1 cc)

    not_found-cases :
        (obj : Node) (o s : Option Node) {r : ℕ} {p : Option Node}
        → get_object_item (some obj) (codes "product") ≡ o
        → get_object_item (some obj) (codes "status_verbose") ≡ s
        → raw_end c (raw_found c o s >>= raw_build c memory timestamp number code) ≡ some (r, p)
        → Answers (some obj) r p
    unfolding raw_found
    not_found-cases obj (some n) s f g e =
        elim (raw_end-eq (raw_build c memory timestamp number code n) (raw_build-LeavesBy n) e) [
          | inl (h, k) ↦ rw k (inr (h, λ x. cc (x.absent)))
          | inr (h, (d, k)) ↦ rw k (h, λ x. cc (x.absent))
        ]
    not_found-cases obj none none {p = none} f g e =
        unfold raw_missing in inr (cc, λ x. cc (x.found))
    not_found-cases obj none none {p = some d} f g e = unfold raw_missing in cc
    not_found-cases obj none (some st) f g e =
        says-Answers obj st (valuestring st) f g refl (rw missing_stops at e)

  -- Given memory, sf_pr_raw_decoder, where it returns, returns INV_FORMAT and NULL if the text is
  -- no JSON; if it is, PR_NOT_FOUND and NULL exactly if there is no product and the status is
  -- `product not found`, and otherwise UNEX_FIELDS with NULL or NO_ERROR with an object.
  pub sf_pr_raw_decoder-codes :
      (memory : Memory) (timestamp text : Bytes) (number : ℤ) (code : Bytes) {r : ℕ}
      {p : Option Node}
      → Suffices memory
      → sf_pr_raw_decoder c memory timestamp text number code ≡ some (r, p)
      → Answers (parse text) r p
  unfolding sf_pr_raw_decoder raw_decode raw_product
  sf_pr_raw_decoder-codes memory timestamp text number code room e = cases (parse text) e
    where
      cases :
          (o : Option Node) {r : ℕ} {p : Option Node}
          → raw_end c (need Retval.inv_format o >>= raw_decode c memory timestamp number code)
            ≡ some (r, p)
          → Answers o r p
      cases none e = ground arith
      cases (some n) e =
          not_found-cases memory room timestamp number code n _ _ refl refl (rw (room.0) at e)
