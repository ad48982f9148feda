-- ===== src/Journey/Tests.antt =====
-- Both journeys at a packet of salt.
use smart_fridge.Prelude.{◌≡◌, refl, arith, Bytes, codes, some, true, str_eq}
use smart_fridge.Prelude.Int.{pos}
use smart_fridge.Decoder.{create_product_node}
use smart_fridge.Decoder.Stored.Fields.{product_of}
use smart_fridge.Decoder.Raw.Answer.{enough}
use smart_fridge.Decoder.Raw.Tests.{
  salt_contents, answer-IsAnswerOf, two-IsInt, answer-parsed, built-parsed,
}
use smart_fridge.Sql.{Tables}
use smart_fridge.Db.Effects.{insert_effect, remove_effect}
use smart_fridge.Db.Messages.{msg_decoder}
use smart_fridge.Reader.{db_mode_add, db_mode_remove}
use smart_fridge.Reader.Codes.{
  Download, queued, from_brace, remove_msg, decode_node, send_message, sf_send_product,
}
use smart_fridge.Samples.Trees.{
  trees, text, answer, answer_product, answer_text, stored_text, removal,
}
use smart_fridge.Samples.Lawful.{trees-CJsonLaws}
use smart_fridge.Samples.Engines.{engine, engine-law, engine-works, no_tables}
use smart_fridge.Journey.{removed, decode_node-db_insert, decode_node-db_remove}

-- A network that answers with the product, whatever the address.
abbrev online : Download
online url = some (some answer_text)

abbrev header : Bytes
header = codes "!#1+"

decode_node-db_insert_example :
    (decode_node trees online enough
        (codes "now")
        (create_product_node (codes "84") (pos 2) db_mode_add)
      ≡ queued (some stored_text))
    × (sf_send_product true true true header stored_text
        ≡ (0, some (send_message header stored_text)))
    × (d : Tables) × (msg_decoder trees engine header 0 (send_message header stored_text) no_tables
        ≡ some (0, d))
    × (d ≡ insert_effect (product_of salt_contents) no_tables)
decode_node-db_insert_example =
    decode_node-db_insert trees engine engine-law engine-works trees-CJsonLaws online salt_contents
      answer_product answer answer-IsAnswerOf answer_text answer_text header stored_text 0 no_tables
      two-IsInt refl (unfold from_brace in refl) answer-parsed (unfold str_eq in refl) refl
      built-parsed (omega arith)

decode_node-db_remove_example :
    (decode_node trees online enough
        (codes "now")
        (create_product_node (codes "84") (pos 2) db_mode_remove)
      ≡ queued (some (remove_msg (codes "84"))))
    × (sf_send_product true true true header (remove_msg (codes "84"))
        ≡ (0, some (send_message header (remove_msg (codes "84")))))
    × (d : Tables) × (msg_decoder trees engine header 0
          (send_message header (remove_msg (codes "84")))
          no_tables
        ≡ some (0, d))
    × (d ≡ remove_effect (removed (codes "84")) no_tables)
decode_node-db_remove_example =
    decode_node-db_remove trees engine engine-law engine-works online enough (codes "now")
      (codes "84") (pos 2) removal (text (codes "yes")) header 0 no_tables (omega arith)
      (unfold str_eq in refl)
      (record { item = text (codes "84"); found = unfold str_eq in refl; holds = refl })
      (unfold str_eq in refl) (omega arith)
