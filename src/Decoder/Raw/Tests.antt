-- ===== src/Decoder/Raw/Tests.antt =====
-- The theorems on `sf_pr_raw_decoder` at an answer with a product and at one without.
use smart_fridge.Prelude.{ℕ, Option, ◌≡◌, refl, [], ◌∷◌, none, some, codes, str_eq, arith}
use smart_fridge.Prelude.Int.{pos, IsInt}
use smart_fridge.Decoder.Retval
use smart_fridge.Decoder.Raw.{sf_pr_raw_decoder, raw_name, copy_strings}
use smart_fridge.Decoder.Raw.Crash.{HasTexts, sf_pr_raw_decoder-returns}
use mathlib.Core.Path.{subst}
use smart_fridge.Decoder.Raw.Codes.{Answers, sf_pr_raw_decoder-codes}
use smart_fridge.Json.Objects.{build}
use smart_fridge.Decoder.Stored.{sf_pr_decoder}
use smart_fridge.Decoder.Stored.Fields.{Contents, product_of}
use smart_fridge.Decoder.Raw.Answer.{enough, IsAnswerOf, fields}
use smart_fridge.Decoder.Raw.Restored.{sf_pr_raw_decoder-product_of}
use smart_fridge.Samples.Lawful.{trees-CJsonLaws}
use smart_fridge.Samples.Trees.{
  answer_text, answer, answer_product, item, stored, stored_text, Tree, empty, field, text, trees,
  room, not_found, not_found_text, parse,
}

abbrev named : Tree
named =
    field (field (field empty (codes "product_name") []) (codes "generic_name") (codes "Salt"))
      (codes "categories") (codes "Food")

not_found-decoded :
    sf_pr_raw_decoder trees room (codes "now") not_found_text (pos 1) (codes "84")
    ≡ some (Retval.pr_not_found, none)
unfolding sf_pr_raw_decoder str_eq
not_found-decoded = refl

sf_pr_raw_decoder-codes_example : Answers trees (parse not_found_text) Retval.pr_not_found none
sf_pr_raw_decoder-codes_example =
    sf_pr_raw_decoder-codes trees room (codes "now") not_found_text (pos 1) (codes "84")
      (refl, refl, refl) not_found-decoded

-- The status is a text, and there is no product.
not_found-HasTexts : HasTexts trees not_found
unfolding str_eq
not_found-HasTexts = record { status = λ it e. (codes "product not found", cc); names = λ n e. cc }

not_found-parsed : (n : Tree) → parse not_found_text ≡ some n → HasTexts trees n
unfolding str_eq
not_found-parsed n e =
    let same : not_found ≡ n = cc in subst (λ t. HasTexts trees t) same not_found-HasTexts

sf_pr_raw_decoder-returns_example :
    (r : ℕ × Option Tree) × (sf_pr_raw_decoder trees room
        (codes "now")
        not_found_text
        (pos 1)
        (codes "84")
      ≡ some r)
sf_pr_raw_decoder-returns_example =
    sf_pr_raw_decoder-returns trees room (codes "now") not_found_text (pos 1) (codes "84")
      not_found-parsed

-- The answer is decoded to the message that the tests of `sf_pr_decoder` start from.
answer-decoded :
    sf_pr_raw_decoder trees room (codes "now") answer_text (pos 2) (codes "84")
    ≡ some (Retval.no_error, some stored)
unfolding sf_pr_raw_decoder str_eq
answer-decoded = refl

stored-parsed : parse stored_text ≡ some stored
unfolding str_eq
stored-parsed = refl

abbrev success : ℕ
success = 0

-- What is in the answer, with what the reader adds.
abbrev pub salt_contents : Contents
salt_contents = record {
  name = codes "Salt";
  number = pos 2;
  quantity = codes "1g";
  ingredients = codes "salt";
  brands = [];
  expiration_date = [];
  labels = [];
  additives_tags = [];
  allergens_tags = [];
  ingredients_tags = codes "en:salt" ∷ [];
  images = record { front = some (codes "http://i/1"); nutrition = none; ingredients = none };
  timestamp = codes "now";
  code = codes "84";
}

pub answer-IsAnswerOf : IsAnswerOf trees salt_contents answer_product
unfolding str_eq raw_name
answer-IsAnswerOf = record {
  selected =
      item empty (codes "front")
        (item empty (codes "display") (field empty (codes "es") (codes "http://i/1")));
  named = refl;
  quantity = record { item = text (codes "1g"); found = refl; holds = refl };
  ingredients = record { item = text (codes "salt"); found = refl; holds = refl };
  brands = record { item = text []; found = refl; holds = refl };
  date = record { item = text []; found = refl; holds = refl };
  labels = record { item = text []; found = refl; holds = refl };
  additives = record { item = empty; found = refl; holds = tt };
  allergens = record { item = empty; found = refl; holds = tt };
  ingredient_tags = record {
    item = item empty [] (text (codes "en:salt"));
    found = refl;
    holds = (refl, tt);
  };
  selected_found = refl;
  front = record {
    image = item empty (codes "display") (field empty (codes "es") (codes "http://i/1"));
    display = field empty (codes "es") (codes "http://i/1");
    image_found = refl;
    display_found = refl;
    url_text = record { item = text (codes "http://i/1"); found = refl; holds = refl };
  };
  nutrition = refl;
  ingredients_image = refl;
}

pub two-IsInt : IsInt salt_contents.number
two-IsInt = (omega arith, omega arith)

pub built-parsed :
    parse stored_text
    ≡ some (build trees (fields trees salt_contents answer_product answer-IsAnswerOf))
unfolding str_eq copy_strings answer-IsAnswerOf
built-parsed = refl

pub answer-parsed : parse answer_text ≡ some answer
unfolding str_eq
answer-parsed = refl

sf_pr_raw_decoder-product_of_example :
    (sf_pr_raw_decoder trees enough (codes "now") answer_text (pos 2) (codes "84")
      ≡ some (
        Retval.no_error,
        some (build trees (fields trees salt_contents answer_product answer-IsAnswerOf)),
      ))
    × (sf_pr_decoder trees stored_text ≡ some (Retval.no_error, some (product_of salt_contents)))
sf_pr_raw_decoder-product_of_example =
    sf_pr_raw_decoder-product_of trees trees-CJsonLaws salt_contents answer_product
      answer-IsAnswerOf two-IsInt answer answer_text stored_text answer-parsed
      (unfold str_eq in refl) built-parsed
