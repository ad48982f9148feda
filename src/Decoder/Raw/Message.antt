-- ===== src/Decoder/Raw/Message.antt =====
-- What the message that `sf_pr_raw_decoder` builds holds, where cJSON behaves as documented.
use smart_fridge.Prelude.{ℕ, ◌≡◌, refl, ◌∙◌, Option, none, some, Bool, false, Bytes, codes, str_eq}
use smart_fridge.Prelude.Int.{ℤ}
use smart_fridge.Json.{CJson, Memory, Outcome, go, leave, crash, ◌>>=◌, need, check}
use smart_fridge.Json.Laws.{CJsonLaws, same_key}
use mathlib.Core.Path.{subst}
use smart_fridge.Decoder.{Product}
use smart_fridge.Decoder.Retval
use smart_fridge.Decoder.Stored.{sf_pr_decoder}
use smart_fridge.Decoder.Stored.Codes.{sf_pr_decoder-codes}
use smart_fridge.Decoder.Raw.{
  raw_field, raw_fields, raw_tags, raw_images, raw_build, raw_decode, raw_end, raw_tag_array,
  raw_image, raw_name, sf_pr_raw_decoder, raw_product,
}

-- If it goes on, then with such a value.
data Ensures {ℓ κ} {A : Type ℓ} (P : A → Type κ) : Outcome A → Type (ℓ ⊔ κ) where
  goes : {a : A} → P a → Ensures P (go a)
  leaves : {s : ℕ} → Ensures P (leave s)
  crashes : Ensures P crash

module _ {ℓ} {A B : Type ℓ} where
  Ensures-bind :
      {P : A → Type 0} {Q : B → Type 0} {m : Outcome A} (f : A → Outcome B)
      → Ensures P m
      → ((a : A) → P a → Ensures Q (f a))
      → Ensures Q (m >>= f)
  Ensures-bind f (goes {a} p) h = h a p
  Ensures-bind f leaves h = leaves
  Ensures-bind f crashes h = crashes

  -- whatever value it goes on with
  any-Ensures :
      {Q : B → Type 0} (m : Outcome A) (f : A → Outcome B)
      → ((a : A) → Ensures Q (f a))
      → Ensures Q (m >>= f)
  any-Ensures (go a) f h = h a
  any-Ensures (leave s) f h = leaves
  any-Ensures crash f h = crashes

module _ (c : CJson) where
  open c use {Node, get_object_item, valuestring}

  -- The object has this code, and is no deletion request.
  pub record IsMessage (code : Bytes) (d : Node) : Type 0 where
    pub item : Node
    pub found : get_object_item (some d) (codes "code") ≡ some item
    pub text : valuestring item ≡ some code
    pub kept : get_object_item (some d) (codes "remove") ≡ none

module _ (c : CJson) (laws : CJsonLaws c) where
  open c use {
    Node, parse, get_object_item, valuestring, create_object, add_string_to_object,
    add_number_to_object, add_item_to_object,
  }

  -- The object has neither a code nor the mark of a deletion request.
  abbrev pub IsBlank : Node → Type 0
  IsBlank d =
      (get_object_item (some d) (codes "code") ≡ none)
      × (get_object_item (some d) (codes "remove") ≡ none)

  -- A key that is neither of the two.
  abbrev Other : Bytes → Type 0
  Other k = (same_key (codes "code") k ≡ false) × (same_key (codes "remove") k ≡ false)

  string-IsBlank :
      (d : Node) (k : Bytes) (s : Option Bytes)
      → Other k
      → IsBlank d
      → IsBlank (add_string_to_object d k s)
  string-IsBlank d k s (e, f) (g, h) =
      (laws.get_string_other d _ k s e ∙ g, laws.get_string_other d _ k s f ∙ h)

  number-IsBlank :
      (d : Node) (k : Bytes) (i : ℤ) → Other k → IsBlank d → IsBlank (add_number_to_object d k i)
  number-IsBlank d k i (e, f) (g, h) =
      (laws.get_number_other d _ k i e ∙ g, laws.get_number_other d _ k i f ∙ h)

  item-IsBlank : (d n : Node) (k : Bytes) → Other k → IsBlank d → IsBlank (add_item_to_object d k n)
  item-IsBlank d n k (e, f) (g, h) =
      (laws.get_item_other d n _ k e ∙ g, laws.get_item_other d n _ k f ∙ h)

  raw_field-IsBlank :
      (n : Node) (k name : Bytes) (d : Node)
      → Other name
      → IsBlank d
      → Ensures IsBlank (raw_field c n k name d)
  unfolding raw_field
  raw_field-IsBlank n k name d o b = any-Ensures _ _ (λ it. goes (string-IsBlank d name _ o b))

  raw_fields-IsBlank : (n d : Node) → IsBlank d → Ensures IsBlank (raw_fields c n d)
  unfolding raw_fields str_eq
  raw_fields-IsBlank n d b =
      Ensures-bind _ (raw_field-IsBlank n _ (codes "quantity") d (refl, refl) b) λ d1 b1.
        Ensures-bind _ (raw_field-IsBlank n _ (codes "ingredients") d1 (refl, refl) b1) λ d2 b2.
          Ensures-bind _ (raw_field-IsBlank n _ (codes "brands") d2 (refl, refl) b2) λ d3 b3.
            Ensures-bind _ (raw_field-IsBlank n _ (codes "expiration_date") d3 (refl, refl) b3)
              λ d4 b4. raw_field-IsBlank n _ (codes "labels") d4 (refl, refl) b4

  raw_tags-IsBlank : (n d : Node) → IsBlank d → Ensures IsBlank (raw_tags c n d)
  unfolding raw_tags str_eq
  raw_tags-IsBlank n d b =
      any-Ensures (raw_tag_array c n (codes "additives_tags") (codes "additives") create_object) _
        λ a. any-Ensures (raw_tag_array c n (codes "allergens_tags") (codes "allergens") a) _ λ e.
          any-Ensures (raw_tag_array c n (codes "ingredients_tags") (codes "ingredients") e) _
            λ t. goes (item-IsBlank d t (codes "tags") (refl, refl) b)

  raw_images-IsBlank : (m : Bool) (n d : Node) → IsBlank d → Ensures IsBlank (raw_images c m n d)
  unfolding raw_images str_eq
  raw_images-IsBlank m n d b =
      any-Ensures (need Retval.unex_fields (get_object_item (some n) (codes "selected_images"))) _
        λ a. any-Ensures (check Retval.no_error m) _ λ u.
          any-Ensures (raw_image c a (codes "front") create_object) _ λ f.
            any-Ensures (raw_image c a (codes "nutrition") f) _ λ g.
              any-Ensures (raw_image c a (codes "ingredients") g) _
                λ i. goes (item-IsBlank d i (codes "images") (refl, refl) b)

  code-IsMessage :
      (d : Node) (code : Bytes)
      → IsBlank d
      → IsMessage c code (add_string_to_object d (codes "code") (some code))
  unfolding str_eq
  code-IsMessage d code (g, h) =
      let (n, found, text) = laws.get_string d (codes "code") code g in
      record {
        item = n;
        found = found;
        text = text;
        kept = laws.get_string_other d _ (codes "code") (some code) refl ∙ h;
      }

  raw_build-IsMessage :
      (memory : Memory) (timestamp : Bytes) (number : ℤ) (code : Bytes) (n : Node)
      → Ensures (IsMessage c code) (raw_build c memory timestamp number code n)
  unfolding raw_build str_eq
  raw_build-IsMessage memory timestamp number code n =
      any-Ensures (check Retval.unex_fields memory.for_tags) _ λ u.
        any-Ensures (raw_name c n) _ λ name.
          let b0 : IsBlank create_object = (laws.get_empty _, laws.get_empty _) in
          let b1 = string-IsBlank create_object (codes "name") (some name) (refl, refl) b0 in
          let b2 = number-IsBlank _ (codes "number") number (refl, refl) b1 in
          Ensures-bind _ (raw_fields-IsBlank n _ b2) λ d1 c1.
            Ensures-bind _ (raw_tags-IsBlank n d1 c1) λ d2 c2.
              Ensures-bind _ (raw_images-IsBlank memory.for_images n d2 c2) λ d3 c3. goes (
                code-IsMessage _ code
                  (string-IsBlank d3 (codes "timestamp") (some timestamp) (refl, refl) c3))

  raw_end-Ensures :
      {P : Node → Type 0} {m : Outcome Node} {r : ℕ} {d : Node}
      → Ensures P m
      → raw_end c m ≡ some (r, some d)
      → P d
  raw_end-Ensures {P} {d = d} (goes {a} p) e = let same : a ≡ d = cc in subst P same p
  raw_end-Ensures leaves e = cc
  raw_end-Ensures crashes e = cc

  -- Where cJSON behaves as documented, a message that sf_pr_raw_decoder returns has the code of the
  -- node under `code` and no item `remove`.
  pub sf_pr_raw_decoder-IsMessage :
      (memory : Memory) (timestamp text : Bytes) (number : ℤ) (code : Bytes) {r : ℕ} {d : Node}
      → sf_pr_raw_decoder c memory timestamp text number code ≡ some (r, some d)
      → IsMessage c code d
  unfolding sf_pr_raw_decoder raw_decode
  sf_pr_raw_decoder-IsMessage memory timestamp text number code e =
      raw_end-Ensures
        (any-Ensures (need Retval.inv_format (parse text)) _ λ n.
          any-Ensures (check Retval.no_error memory.for_decoded) _ λ u.
            any-Ensures (raw_product c n) _ λ p. raw_build-IsMessage memory timestamp number code p)
        e

  -- Where cJSON behaves as documented: a message that `sf_pr_raw_decoder` built, and that is parsed as it
  -- was built, is decoded by `sf_pr_decoder`, if to a product, with NO_ERROR.
  pub sf_pr_decoder-sf_pr_raw_decoder :
      (memory : Memory) (timestamp text : Bytes) (number : ℤ) (code message : Bytes) {r s : ℕ}
      {d : Node} {p : Product}
      → sf_pr_raw_decoder c memory timestamp text number code ≡ some (r, some d)
      → parse message ≡ some d
      → sf_pr_decoder c message ≡ some (s, some p)
      → s ≡ Retval.no_error
  sf_pr_decoder-sf_pr_raw_decoder memory timestamp text number code message e parsed decoded =
      let m = sf_pr_raw_decoder-IsMessage memory timestamp text number code e in
      rw m.kept at (rw parsed at (sf_pr_decoder-codes c message decoded))
