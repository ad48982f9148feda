-- ===== src/Decoder/Stored/Tests.antt =====
-- The theorems on `sf_pr_decoder` at the message of a product, at a deletion request and at a message whose
-- code is a number.
use smart_fridge.Prelude.{ℕ, ◌≡◌, refl, [], ◌∷◌, Option, none, some, codes, str_eq}
use mathlib.Core.Path.{subst}
use smart_fridge.Prelude.Int.{pos}
use smart_fridge.Decoder.{Product, cleared}
use smart_fridge.Decoder.Stored.{sf_pr_decoder, decode_texts, decode_tags, decode_images}
use smart_fridge.Decoder.Stored.Codes.{Replies, sf_pr_decoder-codes}
use smart_fridge.Decoder.Stored.Crash.{IsTextual, sf_pr_decoder-returns}
use smart_fridge.Samples.Trees.{trees, parse, removal, removal_text, stored_text, Tree}

abbrev pub to_remove : Product
to_remove = record cleared { code = some (codes "84") }

abbrev pub to_store : Product
to_store = record cleared {
  images = record { front = some (codes "http://i/1"); nutrition = none; ingredients = none };
  name = some (codes "Salt");
  code = some (codes "84");
  timestamp = some (codes "now");
  quantity = some (codes "1g");
  ingredients = some (codes "salt");
  ingredients_tags = some (codes "en:salt" ∷ []);
  number = pos 2;
}

pub removal-decoded : sf_pr_decoder trees removal_text ≡ some (2, some to_remove)
unfolding sf_pr_decoder str_eq
removal-decoded = refl

pub stored-decoded : sf_pr_decoder trees stored_text ≡ some (0, some to_store)
unfolding sf_pr_decoder str_eq decode_texts decode_tags decode_images
stored-decoded = refl

sf_pr_decoder-codes_example : Replies trees (parse removal_text) 2 (some to_remove)
sf_pr_decoder-codes_example = sf_pr_decoder-codes trees removal_text removal-decoded

-- The items of a deletion request are texts.
removal-IsTextual : IsTextual trees removal
unfolding str_eq
removal-IsTextual = record {
  code = λ it e. (codes "84", cc);
  name = λ it e. cc;
  quantity = λ it e. cc;
  ingredients = λ it e. cc;
  brands = λ it e. cc;
  date = λ it e. cc;
  timestamp = λ it e. cc;
  labels = λ it e. cc;
  additives = λ it e. cc;
  allergens = λ it e. cc;
  tags = λ it e. cc;
  images = λ it e. cc;
}

removal-parsed : (n : Tree) → parse removal_text ≡ some n → IsTextual trees n
unfolding str_eq
removal-parsed n e =
    let same : removal ≡ n = cc in subst (λ t. IsTextual trees t) same removal-IsTextual

sf_pr_decoder-returns_example :
    (r : ℕ × Option Product) × (sf_pr_decoder trees removal_text ≡ some r)
sf_pr_decoder-returns_example = sf_pr_decoder-returns trees removal_text removal-parsed
