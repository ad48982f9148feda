-- ===== src/Db/Messages/Serve.antt =====
-- What the messages of one connection do to the database, one after the other.
use smart_fridge.Prelude.{
  ℕ, zero, suc, ◌+◌, ◌<◌, ◌≡◌, refl, ◌∙◌, arith, Bytes, codes, Option, some, List, ◌∷◌, ◌++◌, Bool,
  true, false, if◌then◌else◌, length, replicate, is_some, Without, cut_at-Without,
}
use smart_fridge.Prelude.Int.{pos}
use smart_fridge.Json.{CJson}
use smart_fridge.Decoder.{Product}
use smart_fridge.Decoder.Stored.{sf_pr_decoder}
use smart_fridge.Sql.Engine.{Sqlite, SqliteLaw, Works}
use smart_fridge.Db.{db_insert, db_remove}
use smart_fridge.Db.Effects.Rows.{Fresh}
use smart_fridge.Db.Effects.Drain.{Others, left_over, remove_times, db_insert-remove_times}
use smart_fridge.Db.Messages.{receive, serve, after_message, checked}
use smart_fridge.Db.Messages.Dispatch.{msg_decoder-product}

module _ (c : CJson) where
  -- The header and then `text` is a string that does not fill the buffer, and the text is decoded to the
  -- product, as a deletion request or not.
  pub record Carries (header text : Bytes) (p : Product) (removes : Bool) : Type 0 where
    pub no_nul : Without 0 (header ++ text)
    pub fits : length (header ++ text) < 65536
    pub root : c.Node
    pub parsed : c.parse text ≡ some root
    pub code : ℕ
    pub decoded : sf_pr_decoder c text ≡ some (code, some p)
    pub flag : is_some (c.get_object_item (some root) (codes "remove")) ≡ removes

module _ (c : CJson) (s : Sqlite) where
  open s use {Db}

  receive-whole :
      (chunk : Bytes) → Without 0 chunk → length chunk < 65536 → receive c s chunk ≡ some chunk
  unfolding receive
  receive-whole chunk h k = rw (cut_at-Without 0 chunk h) (ground arith)

  abbrev pub product_effect : Bool → Product → Db → Db
  product_effect true p db = (db_remove s p db).1
  product_effect false p db = (db_insert s p db).1

  -- neither a success nor a failure ends the connection
  after_checked :
      (r : ℕ × Db) (next : Db → Option Db)
      → after_message c s (some (checked c s r)) next ≡ next r.1
  after_checked (zero, db) next = refl
  after_checked (suc r, db) next = refl

  after_product :
      (b : Bool) (p : Product) (db : Db) (next : Db → Option Db)
      → after_message c s
          (some (if b then checked c s (db_remove s p db) else checked c s (db_insert s p db)))
          next
        ≡ next (product_effect b p db)
  after_product true p db next = after_checked (db_remove s p db) next
  after_product false p db next = after_checked (db_insert s p db) next

  -- A message that carries a product has its effect, whether or not that succeeds, and the next one
  -- is served.
  pub serve-Carries :
      (header text : Bytes) (sent : ℕ) (chunks : List (Bytes × ℕ)) (p : Product) (b : Bool)
      (db : Db)
      → Carries c header text p b
      → serve c s header ((header ++ text, sent) ∷ chunks) db
        ≡ serve c s header chunks (product_effect b p db)
  unfolding serve
  serve-Carries header text sent chunks p b db m =
      rw
        (
          receive-whole (header ++ text) m.no_nul m.fits,
          msg_decoder-product c s header text sent db m.root m.parsed m.decoded,
          m.flag,
        )
        (after_product b p db (λ d. serve c s header chunks d))

-- The removal of one product and of another with its code are the same.
db_remove-code :
    (s : Sqlite) (p q : Product) (db : s.Db) → q.code ≡ p.code → db_remove s q db ≡ db_remove s p db
unfolding db_remove
db_remove-code s p q db e = rw e

module _ (c : CJson) (s : Sqlite) (law : SqliteLaw s) (works : Works s) where
  open s use {Db, tables}

  serve-removals :
      (header text : Bytes) (sent n : ℕ) (p q : Product) (db : Db)
      → q.code ≡ p.code
      → Carries c header text q true
      → serve c s header (replicate n (header ++ text, sent)) db ≡ some (remove_times s n p db)
  unfolding serve remove_times
  serve-removals header text sent zero p q db e m = refl
  serve-removals header text sent (suc n) p q db e m =
      serve-Carries c s header text sent (replicate n (header ++ text, sent)) q true db m
      ∙ rw (product_effect, db_remove-code s p q db e)
          (serve-removals header text sent n p q (db_remove s p db).1 e m)

  -- Where SQLite works, and each row that is there has another code and some elements: let a
  -- connection bring a message that carries a product with n + m elements, at least one in all, which
  -- breaks no constraint, and then n times a deletion request for its code. All are served, and then
  -- the product has m elements left, with no row for 0, and the other rows are as they were.
  pub serve-left_over :
      (header stored removal : Bytes) (sent n m : ℕ) (p q : Product) (db : Db)
      → Carries c header stored p false
      → Carries c header removal q true
      → q.code ≡ p.code
      → p.number ≡ pos (n + m)
      → 0 < n + m
      → Fresh p (tables db)
      → Others p.code (tables db).products_data
      → (d : Db) × (serve c s header
            ((header ++ stored, sent) ∷ replicate n (header ++ removal, sent))
            db
          ≡ some d)
        × ((tables d).products_data ≡ (tables db).products_data ++ left_over p m)
  serve-left_over header stored removal sent n m p q db first later e number some_left fresh
        others =
      (
        remove_times s n p (db_insert s p db).1,
        serve-Carries c s header stored sent (replicate n (header ++ removal, sent)) p false db
              first
            ∙ serve-removals header removal sent n p q (db_insert s p db).1 e later,
        db_insert-remove_times s law works n m p db number some_left fresh others,
      )
