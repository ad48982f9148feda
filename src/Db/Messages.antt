-- ===== src/Db/Messages.antt =====
-- sf_db.c, what the daemon does with the messages of one connection.
pub mod Dispatch
pub mod Serve
use smart_fridge.Prelude.{
  ℕ, zero, suc, Bytes, codes, Option, none, some, List, [], ◌∷◌, Bool, true, false, ◌==◌,
  if◌then◌else◌, starts_with, cut_at, drop, length,
}
use smart_fridge.Json.{CJson}
use smart_fridge.Decoder.{Product}
use smart_fridge.Decoder.Retval
use smart_fridge.Decoder.Stored.{sf_pr_decoder}
use smart_fridge.Sql.Engine.{Sqlite}
use smart_fridge.Db.{db_insert, db_remove}

abbrev pub max_logsize : ℕ
max_logsize = 65536

abbrev pub continue_it : ℕ
continue_it = 32

abbrev pub db_sync_header : Bytes
db_sync_header = codes "!#2+"

module _ (c : CJson) (s : Sqlite) where
  open s use {Db}

  -- A result that is not 0 makes `retval` 1.
  abbrev pub checked : ℕ × Db → ℕ × Db
  checked (zero, db) = (0, db)
  checked (suc r, db) = (1, db)

  -- What the decoder's end leads to.
  pub store_product : ℕ × Option Product → Db → ℕ × Db
  store_product (result, none) db = (1, db)
  store_product (result, some pr_dec) db =
      if result == Retval.deletion_req
      then checked (db_remove s pr_dec db)
      else checked (db_insert s pr_dec db)

  abbrev pub store_decoded : Option (ℕ × Option Product) → Db → Option (ℕ × Db)
  store_decoded none db = none
  store_decoded (some decoded) db = some (store_product decoded db)

  -- `sent` is the return value of `database_send`. The result is `none` where the decoder crashes.
  pub msg_decoder : Bytes → ℕ → Bytes → Db → Option (ℕ × Db)
  unfolding store_product
  msg_decoder internal_header sent msg db =
      if starts_with msg internal_header
      then store_decoded (sf_pr_decoder c (drop (length internal_header) msg)) db
      else if starts_with msg db_sync_header
      then (if sent == 0 then some (continue_it, db) else some (1, db))
      else some (1, db)

  -- A chunk that `recv` puts into the buffer of `max_logsize` bytes, as a string. The NUL that closes
  -- it is written behind the chunk: out of the buffer, if the chunk fills it.
  pub receive : Bytes → Option Bytes
  receive chunk = if length chunk == max_logsize then none else some (cut_at 0 chunk).0

  -- The loop over the chunks of a connection, each with what `database_send` would return then. `none` is
  -- a write out of bounds or a crash.
  abbrev pub after_message : Option (ℕ × Db) → (Db → Option Db) → Option Db
  after_message none next = none
  after_message (some (result, db)) next = elim (result == continue_it) [
    | true ↦ some db
    | false ↦ next db
  ]

  abbrev pub serve_chunk : Bytes → ℕ → Option Bytes → Db → (Db → Option Db) → Option Db
  serve_chunk internal_header sent none db next = none
  serve_chunk internal_header sent (some msg) db next =
      after_message (msg_decoder internal_header sent msg db) next

  unfoldable pub serve : Bytes → List (Bytes × ℕ) → Db → Option Db
  unfolding receive
  serve internal_header [] db = some db
  serve internal_header ((chunk, sent) ∷ chunks) db =
      serve_chunk internal_header sent (receive chunk) db (λ db'. serve internal_header chunks db')
