-- ===== src/Db/Messages/Dispatch.antt =====
-- Which messages reach the database, and as what.
use smart_fridge.Prelude.{
  ℕ, ◌≡◌, refl, ◌∙◌, arith, Bytes, codes, none, some, [], ◌∷◌, ◌++◌, Bool, true, false, ◌==◌,
  if◌then◌else◌, starts_with, starts_with-append, drop, length, is_some, ◌&&◌,
}
use smart_fridge.Json.{CJson}
use smart_fridge.Decoder.{Product}
use smart_fridge.Decoder.Retval
use smart_fridge.Decoder.Stored.{sf_pr_decoder}
use smart_fridge.Decoder.Stored.Codes.{sf_pr_decoder-codes}
use smart_fridge.Sql.Engine.{Sqlite}
use smart_fridge.Db.{db_insert, db_remove}
use smart_fridge.Db.Messages.{
  msg_decoder, store_product, store_decoded, checked, db_sync_header, continue_it,
}

drop-append : (a b : Bytes) → drop (length a) (a ++ b) ≡ b
drop-append [] b = refl
drop-append (x ∷ a) b = drop-append a b

module _ (c : CJson) (s : Sqlite) where
  open s use {Db}

  -- A message that is the header and then a text is taken for that text.
  pub msg_decoder-header :
      (header text : Bytes) (sent : ℕ) (db : Db)
      → msg_decoder c s header sent (header ++ text) db
        ≡ store_decoded c s (sf_pr_decoder c text) db
  unfolding msg_decoder
  msg_decoder-header header text sent db = rw (starts_with-append, drop-append)

  removes :
      (p : Product) (db : Db) (b : Bool) (r : ℕ)
      → r ≡ (if b then Retval.deletion_req else Retval.no_error)
      → store_product c s (r, some p) db
        ≡ (if b then checked c s (db_remove s p db) else checked c s (db_insert s p db))
  unfolding store_product
  removes p db true r e = rw e
  removes p db false r e = rw e

  -- With the header in front, a text that is decoded to a product is a deletion exactly if it has
  -- an item `remove`, and else an insertion, of that product; the result is 0 if that succeeds and
  -- 1 if not.
  pub msg_decoder-product :
      (header text : Bytes) (sent : ℕ) (db : Db) (root : c.Node) {r : ℕ} {p : Product}
      → c.parse text ≡ some root
      → sf_pr_decoder c text ≡ some (r, some p)
      → msg_decoder c s header sent (header ++ text) db
        ≡ some (
            if is_some (c.get_object_item (some root) (codes "remove"))
            then checked c s (db_remove s p db)
            else checked c s (db_insert s p db))
  msg_decoder-product header text sent db root {r} {p} parsed e =
      msg_decoder-header header text sent db
      ∙ rw (e, removes p db _ r (rw parsed at (sf_pr_decoder-codes c text e)))

  -- A text that is refused changes nothing, and the result is 1.
  pub msg_decoder-refused :
      (header text : Bytes) (sent : ℕ) (db : Db) {r : ℕ}
      → sf_pr_decoder c text ≡ some (r, none)
      → msg_decoder c s header sent (header ++ text) db ≡ some (1, db)
  unfolding store_product
  msg_decoder-refused header text sent db e = msg_decoder-header header text sent db ∙ rw e

  -- Without the header in front no message changes the database: a request for a copy gets it, and
  -- ends the connection if the copy was sent, and anything else is an error.
  pub msg_decoder-other :
      (header msg : Bytes) (sent : ℕ) (db : Db)
      → starts_with msg header ≡ false
      → msg_decoder c s header sent msg db
        ≡ some (if starts_with msg db_sync_header && sent == 0 then continue_it else 1, db)
  unfolding msg_decoder
  msg_decoder-other header msg sent db h = ground arith
