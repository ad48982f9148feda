-- ===== src/Db/Tests.antt =====
-- The theorems on sf_db.c at an SQLite that works, and at one that fails at the tags.
use smart_fridge.Prelude.{
  ℕ, not, Bool-cases, replicate, Without, ◌-◌, ◌≡◌, refl, arith, inl, inr, Bytes, codes, none, some,
  [], ◌∷◌, ◌++◌, Bool, true, false, if◌then◌else◌, ◌&&◌, ◌==◌, is_some, str_eq,
}
use smart_fridge.Decoder.{Product}
use smart_fridge.Decoder.Stored.Tests.{to_remove, to_store, stored-decoded, removal-decoded}
use smart_fridge.Sql.{Tables, QueryType, insert_allergen_tag, violates, any_row}
use smart_fridge.Sql.Engine.{Sqlite, SqliteLaw}
use smart_fridge.Db.{product_row, db_insert, db_remove}
use smart_fridge.Db.Effects.{insert_effect, db_insert-effect}
use smart_fridge.Db.Effects.Rows.{db_insert-lost}
use smart_fridge.Db.Effects.Drain.{left_over}
use smart_fridge.Db.Effects.Partial.{db_insert-keeps}
use smart_fridge.Db.Messages.{serve, msg_decoder, checked}
use smart_fridge.Db.Messages.Dispatch.{msg_decoder-product}
use smart_fridge.Prelude.Int.{pos, negsuc}
use smart_fridge.Db.Send.{Transfer, database_send}
use smart_fridge.Db.Send.Copy.{total, database_send-calls}
use smart_fridge.Db.Messages.Serve.{Carries, serve-left_over}
use smart_fridge.Samples.Trees.{stored, stored_text, trees, removal, removal_text, find}
use smart_fridge.Samples.Engines.{engine, engine-law, engine-works, no_tables, salt}

-- The tables with the product stored once.
abbrev filled : Tables
filled = record no_tables { products_data = product_row salt ∷ [] }

db_insert-effect_example :
    ((db_insert engine salt filled).0 ≡ 0)
    × ((db_insert engine salt filled).1 ≡ insert_effect salt filled)
db_insert-effect_example = db_insert-effect engine engine-law engine-works salt filled

-- The quantity is NULL.
abbrev weightless : Product
weightless = record salt { quantity = none }

db_insert-lost_example :
    ((db_insert engine weightless no_tables).0 ≡ 0)
    × ((db_insert engine weightless no_tables).1.products_data ≡ no_tables.products_data)
db_insert-lost_example =
    db_insert-lost engine engine-law engine-works weightless no_tables (inr (inr (inl refl)))
      (unfold any_row in refl)

-- An SQLite that prepares no insertion of an allergen.
abbrev prepared : QueryType → Bool
prepared insert_allergen_tag = false
prepared _ = true

abbrev failing : Sqlite
failing = record engine { prepare_v2 = λ t q. prepared q }

failing-law : SqliteLaw failing
failing-law t st = engine-law t st

abbrev allergenic : Product
allergenic = record salt { allergens_tags = some (codes "en:milk" ∷ []) }

db_insert-keeps_example :
    (db_insert failing allergenic no_tables).1.products_data
    ≡ no_tables.products_data ++ product_row allergenic ∷ []
db_insert-keeps_example =
    db_insert-keeps failing failing-law allergenic no_tables refl refl refl
      (unfold violates any_row in refl)

abbrev header : Bytes
header = codes "!#1+"

msg_decoder-product_example :
    msg_decoder trees engine header 0 (header ++ removal_text) filled
    ≡ some (
        if is_some (find removal (codes "remove"))
        then checked trees engine (db_remove engine to_remove filled)
        else checked trees engine (db_insert engine to_remove filled))
msg_decoder-product_example =
    msg_decoder-product trees engine header removal_text 0 filled removal (unfold str_eq in refl)
      removal-decoded

-- A file of 10000 bytes, of which 6144 are sent before a call fails.
abbrev cut_short : Transfer
cut_short = record {
  db_fd = pos 3;
  st_size = some 10000;
  size_sent = true;
  sent_bytes = pos 6144 ∷ negsuc 0 ∷ [];
}

database_send-calls_example : database_send cut_short ≡ (0, pos (10000 - total (6143 ∷ [])))
database_send-calls_example =
    database_send-calls cut_short 10000 (6143 ∷ []) (negsuc 0) refl refl refl (omega arith) refl
      refl (omega arith)

abbrev lacks : ℕ → Bytes → Bool
lacks b [] = true
lacks b (x ∷ xs) = not (x == b) && lacks b xs

lacks-Without : (b : ℕ) (s : Bytes) → lacks b s ≡ true → Without b s
lacks-Without b [] h = tt
lacks-Without b (x ∷ s) h = elim (Bool-cases (x == b)) [
  | inl e ↦ ground (arith, h, e)
  | inr e ↦ (e, lacks-Without b s (rw e at h))
]

pub stored-Carries : Carries trees header stored_text to_store false
unfolding str_eq
stored-Carries = record {
  no_nul = lacks-Without 0 (header ++ stored_text) refl;
  fits = omega arith;
  root = stored;
  parsed = refl;
  code = 0;
  decoded = stored-decoded;
  flag = refl;
}

pub removal-Carries : Carries trees header removal_text to_remove true
unfolding str_eq
removal-Carries = record {
  no_nul = lacks-Without 0 (header ++ removal_text) refl;
  fits = omega arith;
  root = removal;
  parsed = refl;
  code = 2;
  decoded = removal-decoded;
  flag = refl;
}

serve-left_over_example :
    (d : Tables) × (serve trees engine header
        ((header ++ stored_text, 0) ∷ replicate 1 (header ++ removal_text, 0))
        no_tables
      ≡ some d)
    × (d.products_data ≡ [] ++ left_over to_store 1)
serve-left_over_example =
    serve-left_over trees engine engine-law engine-works header stored_text removal_text 0 1 1
      to_store to_remove no_tables stored-Carries removal-Carries refl refl (omega arith)
      (unfold violates any_row in refl) tt
