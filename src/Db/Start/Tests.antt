-- ===== src/Db/Start/Tests.antt =====
-- The theorems on the start of the daemon, at a schema of two statements and a small configuration.
use smart_fridge.Prelude.{ℕ, suc, ◌≡◌, ◌↔◌, refl, arith, codes, none, some, [], ◌∷◌, true, false}
use smart_fridge.Prelude.Int.{pos}
use smart_fridge.Config.Reader.Document.{Key, Block, id_queue}
use smart_fridge.Log.{Log}
use smart_fridge.Db.Start.{Schema, completed, create_db}
use smart_fridge.Db.Start.Creation.{Advances, Accepts, create_db-Accepts}

-- An SQLite that counts the statements, each of one byte.
abbrev counting : Schema
counting = record {
  Db = ℕ;
  Stmt = Unit;
  open_v2 = λ db. true;
  prepare_v2 = λ db sql. elim sql [ [] ↦ some (none, []) | b ∷ tail ↦ some (some tt, tail) ];
  step = λ db stmt. (completed, suc db);
}

counting-Advances : Advances counting
counting-Advances db b sql tail stmt e = let same : sql ≡ tail = cc in rw same (omega arith)

create_db-Accepts_example :
    (create_db counting (codes ";;") 0 ≡ some (0, 2)) ↔ Accepts counting (codes ";;") 0 2
create_db-Accepts_example = create_db-Accepts counting (codes ";;") 0 2 counting-Advances refl

abbrev small : Block
small = (id_queue, (Key.size, codes "20") ∷ [])

abbrev quiet : Log
quiet = record {
  debug_level = pos 0;
  foreground = false;
  log_file = none;
  node_name = [];
  printed = [];
  appended = [];
}
