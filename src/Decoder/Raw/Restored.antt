-- ===== src/Decoder/Raw/Restored.antt =====
-- From the answer to the product that the daemon decodes: every field.
use smart_fridge.Prelude.{◌≡◌, refl, some, Bytes, codes, str_eq}
use smart_fridge.Prelude.Int.{IsInt}
use smart_fridge.Json.{CJson}
use smart_fridge.Json.Laws.{CJsonLaws}
use smart_fridge.Json.Objects.{build, Distinct}
use smart_fridge.Decoder.Retval
use smart_fridge.Decoder.Stored.{sf_pr_decoder}
use smart_fridge.Decoder.Stored.Fields.{Contents, IsMessageOf, product_of, sf_pr_decoder-product_of}
use smart_fridge.Decoder.Raw.{raw_product, raw_found, raw_decode, sf_pr_raw_decoder}
use smart_fridge.Decoder.Raw.Answer.{enough, IsAnswerOf, pictures, tags, fields, raw_build-fields}
use smart_fridge.Decoder.Raw.Found.{
  build-Text, build-Number, build_item, build_absent, build-Array, build-Picture, pictures-Found,
}

module _ (c : CJson) (laws : CJsonLaws c) where
  open c use {
    Node, parse, get_object_item, children, valuestring, create_array, create_string,
    add_item_to_array,
  }

  module _ (e : Contents) (n : Node) (a : IsAnswerOf c e n) (fits : IsInt e.number) where
    fields-Distinct : Distinct c (fields c e n a)
    unfolding str_eq
    fields-Distinct = (
      refl,
      refl,
      tt,
      (
        refl,
        refl,
        tt,
        (
          refl,
          refl,
          tt,
          (
            refl,
            refl,
            tt,
            (
              refl,
              refl,
              tt,
              (
                refl,
                refl,
                tt,
                (
                  refl,
                  refl,
                  tt,
                  (refl, refl, tt, (refl, refl, tt, (refl, refl, fits, (refl, refl, tt, tt)))),
                ),
              ),
            ),
          ),
        ),
      ),
    )

    tags-Distinct : Distinct c (tags c e n a)
    unfolding str_eq
    tags-Distinct = (refl, refl, tt, (refl, refl, tt, (refl, refl, tt, tt)))

    pub message_of : IsMessageOf c e (build c (fields c e n a))
    unfolding str_eq
    message_of =
        let (d, af, an, ai, f, m, i) =
          pictures-Found c laws e.images.front e.images.nutrition e.images.ingredients in
        record {
          tags = build c (tags c e n a);
          pictures = build c (pictures c e.images);
          name = build-Text c laws _ e.name (fields c e n a) fields-Distinct refl refl;
          number = build-Number c laws _ e.number (fields c e n a) fields-Distinct refl refl;
          quantity = build-Text c laws _ e.quantity (fields c e n a) fields-Distinct refl refl;
          ingredients =
              build-Text c laws _ e.ingredients (fields c e n a) fields-Distinct refl refl;
          brands = build-Text c laws _ e.brands (fields c e n a) fields-Distinct refl refl;
          date = build-Text c laws _ e.expiration_date (fields c e n a) fields-Distinct refl refl;
          labels = build-Text c laws _ e.labels (fields c e n a) fields-Distinct refl refl;
          timestamp = build-Text c laws _ e.timestamp (fields c e n a) fields-Distinct refl refl;
          code = build-Text c laws _ e.code (fields c e n a) fields-Distinct refl refl;
          kept = build_absent c laws _ (fields c e n a) fields-Distinct refl refl;
          tags_found =
              build_item c laws _ (build c (tags c e n a)) (fields c e n a) fields-Distinct refl
                refl;
          pictures_found =
              build_item c laws _ (build c (pictures c e.images)) (fields c e n a) fields-Distinct
                refl refl;
          additives =
              build-Array c laws _ a.additives.item e.additives_tags (tags c e n a)
                a.additives.holds tags-Distinct refl refl;
          allergens =
              build-Array c laws _ a.allergens.item e.allergens_tags (tags c e n a)
                a.allergens.holds tags-Distinct refl refl;
          ingredient_tags =
              build-Array c laws _ a.ingredient_tags.item e.ingredients_tags (tags c e n a)
                a.ingredient_tags.holds tags-Distinct refl refl;
          front = build-Picture c laws _ e.images.front _ d af f;
          nutrition = build-Picture c laws _ e.images.nutrition _ d an m;
          ingredients_image = build-Picture c laws _ e.images.ingredients _ d ai i;
        }

    -- Where cJSON behaves as documented and memory is found: an answer whose product has the contents `e`, each image
    -- being absent or with a url in Spanish, becomes an object; and a message that is parsed as this object is decoded
    -- with NO_ERROR to the product with every field of `e`, empty texts and empty arrays being NULL.
    pub sf_pr_raw_decoder-product_of :
        (obj : Node) (text message : Bytes)
        → parse text ≡ some obj
        → get_object_item (some obj) (codes "product") ≡ some n
        → parse message ≡ some (build c (fields c e n a))
        → (sf_pr_raw_decoder c enough e.timestamp text e.number e.code
            ≡ some (Retval.no_error, some (build c (fields c e n a))))
          × (sf_pr_decoder c message ≡ some (Retval.no_error, some (product_of e)))
    unfolding sf_pr_raw_decoder raw_decode raw_product raw_found
    sf_pr_raw_decoder-product_of obj text message parsed product sent = (
      rw (parsed, product, raw_build-fields c e n a),
      sf_pr_decoder-product_of c e (build c (fields c e n a)) message message_of sent,
    )
