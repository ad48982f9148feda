-- ===== src/Journey.antt =====
-- From a code that was scanned (sf_reader.c) over the answer of the food API (tools/product_decoder.c) and the
-- connection of the two programs to the tables of the daemon (sf_db.c).
mod Tests
use smart_fridge.Prelude.{
  ℕ, ◌+◌, ◌≤◌, ◌≡◌, refl, ◌∙◌, ap, arith, Bytes, codes, Option, none, some, ◌++◌, true, length,
  length-append, is_some, take-le, if◌then◌else◌, [], Bool,
}
use smart_fridge.Prelude.Int.{ℤ, IsInt}
use smart_fridge.Json.{CJson, Memory}
use smart_fridge.Json.Laws.{CJsonLaws}
use smart_fridge.Json.Objects.{Text, build}
use smart_fridge.Decoder.{Product, ProductNode, cleared, create_product_node}
use smart_fridge.Decoder.Stored.Fields.{Contents, or_null, product_of, sf_pr_decoder-removal}
use smart_fridge.Decoder.Raw.Answer.{enough, IsAnswerOf, fields}
use smart_fridge.Decoder.Raw.Restored.{sf_pr_raw_decoder-product_of, message_of}
use smart_fridge.Sql.{Tables}
use smart_fridge.Sql.Engine.{Sqlite, SqliteLaw, Works}
use smart_fridge.Db.{db_insert, db_remove}
use smart_fridge.Db.Effects.{insert_effect, remove_effect, db_insert-effect, db_remove-effect}
use smart_fridge.Db.Messages.{msg_decoder, checked}
use smart_fridge.Db.Messages.Dispatch.{msg_decoder-product}
use smart_fridge.Reader.{db_mode_add, db_mode_remove}
use smart_fridge.Reader.Codes.{
  Download, Made, queued, from_brace, remove_msg, of_api, print_url, decode_node, send_message,
  sf_send_product,
}
use smart_fridge.Reader.Codes.Limits.{send-msg_decoder, decode_node-remove, send_message-fits}

-- The product of a deletion request.
abbrev pub removed : Bytes → Product
removed code = record cleared { code = or_null code }

module _ (c : CJson) (s : Sqlite) (law : SqliteLaw s) (works : Works s) where
  open c use {Node, parse, print_unformatted, get_object_item}
  open s use {Db, tables}

  -- a call that succeeds with these tables
  checked-Leads :
      (r : ℕ × Db) (t : Tables)
      → (r.0 ≡ 0) × (tables r.1 ≡ t)
      → (db : Db) × (some (checked c s r) ≡ some (0, db)) × (tables db ≡ t)
  checked-Leads (r, db) t (e, f) = (db, rw e, f)

  -- Where cJSON behaves as documented, memory is found and SQLite works: let a code be scanned in the mode of adding,
  -- and let its address be answered by a text with a product of the contents `e`, each image being absent or with
  -- a url in Spanish; let the object that is built of it be printed as a text that is parsed as this object and
  -- fits into the buffer behind the header. Then this text is queued, its message is sent, and the daemon
  -- answers it with 0, having inserted the product of these contents.
  pub decode_node-db_insert :
      (laws : CJsonLaws c) (download : Download) (e : Contents) (n obj : Node)
      (a : IsAnswerOf c e n) (buffer text header message : Bytes) (sent : ℕ) (db : Db)
      → IsInt e.number
      → download (print_url (of_api e.code)) ≡ some (some buffer)
      → from_brace buffer ≡ some text
      → parse text ≡ some obj
      → get_object_item (some obj) (codes "product") ≡ some n
      → print_unformatted (some (build c (fields c e n a))) ≡ some message
      → parse message ≡ some (build c (fields c e n a))
      → length header + length message ≤ 65535
      → (decode_node c download enough e.timestamp (create_product_node e.code e.number db_mode_add)
          ≡ queued (some message))
        × (sf_send_product true true true header message ≡ (0, some (send_message header message)))
        × (db' : Db) × (msg_decoder c s header sent (send_message header message) db
            ≡ some (0, db'))
        × (tables db' ≡ insert_effect (product_of e) (tables db))
  unfolding decode_node create_product_node
  decode_node-db_insert laws download e n obj a buffer text header message sent db fits got brace
        parsed product printed reparsed short =
      let (built, decoded) =
        sf_pr_raw_decoder-product_of c laws e n a fits obj text message parsed product reparsed in
      let (db', stored, effect) =
        checked-Leads (db_insert s (product_of e) db) _
          (db_insert-effect s law works (product_of e) db) in
      (
        rw (got, brace, built, printed),
        (send-msg_decoder c s header message sent db short).0,
        db',
        ap (λ m. msg_decoder c s header sent m db) (send_message-fits header message short)
            ∙ msg_decoder-product c s header message sent db _ reparsed decoded
            ∙ rw ((message_of c laws e n a fits).kept) stored,
        effect,
      )

  -- Where SQLite works: let a code of at most 73 bytes be scanned in the mode of removing, and let its deletion request be
  -- parsed as an object with this code and an item `remove`, and fit into the buffer behind the header. Then, whatever
  -- the network does, the request is queued, its message is sent, and the daemon answers it with 0, having taken
  -- off one element of the product and deleted the products without elements.
  pub decode_node-db_remove :
      (download : Download) (memory : Memory) (timestamp : Bytes) (code : Bytes) (number : ℤ)
      (root item : Node) (header : Bytes) (sent : ℕ) (db : Db)
      → length code ≤ 73
      → parse (remove_msg code) ≡ some root
      → Text c root (codes "code") code
      → get_object_item (some root) (codes "remove") ≡ some item
      → length header + length (remove_msg code) ≤ 65535
      → (decode_node c download memory timestamp (create_product_node code number db_mode_remove)
          ≡ queued (some (remove_msg code)))
        × (sf_send_product true true true header (remove_msg code)
            ≡ (0, some (send_message header (remove_msg code))))
        × (db' : Db) × (msg_decoder c s header sent (send_message header (remove_msg code)) db
            ≡ some (0, db'))
        × (tables db' ≡ remove_effect (removed code) (tables db))
  unfolding create_product_node
  decode_node-db_remove download memory timestamp code number root item header sent db small parsed
        t removes short =
      let decoded = sf_pr_decoder-removal c root item code (remove_msg code) t removes parsed in
      let (db', stored, effect) =
        checked-Leads (db_remove s (removed code) db) _
          (db_remove-effect s law works (removed code) db) in
      (
        decode_node-remove c download memory timestamp _ refl small,
        (send-msg_decoder c s header (remove_msg code) sent db short).0,
        db',
        ap (λ m. msg_decoder c s header sent m db)
              (send_message-fits header (remove_msg code) short)
            ∙ msg_decoder-product c s header (remove_msg code) sent db root parsed decoded
            ∙ rw removes stored,
        effect,
      )
