-- ===== src/Db/Start/Program.antt =====
-- `main` of sf_db.c as a whole: the schema is run on the file that the clients are then served with.
pub mod Rows
pub mod Serves
mod Tests
use smart_fridge.Prelude.{ℕ, Bytes, Option, none, some, List, Bool}
use smart_fridge.Json.{CJson}
use smart_fridge.Sql.Engine.{Sqlite}
use smart_fridge.Config.{DbConf}
use smart_fridge.Log.{Log}
use smart_fridge.Db.Start.{
  SchemaCode, Schema, create_db, start_daemon, DbOption, Started, returned, exited, crashed,
  started, Daemon, db_main,
}

-- What the whole program uses of SQLite: the statements of `create_db` beside those of DB_QUERIES, on the
-- same file.
pub record Database : Type 1 where
  pub sqlite : Sqlite
  pub Stmt : Type 0
  pub create_v2 : sqlite.Db → Bool
  pub prepare_text : sqlite.Db → Bytes → Option (Option Stmt × Bytes)
  pub step_text : sqlite.Db → Option Stmt → SchemaCode × sqlite.Db

abbrev pub schema_of : Database → Schema
schema_of d = record {
  Db = d.sqlite.Db;
  Stmt = d.Stmt;
  open_v2 = d.create_v2;
  prepare_v2 = d.prepare_text;
  step = d.step_text;
}

module _ (c : CJson) (d : Database) where
  -- `main` returns 0, whatever `start_daemon` returns.
  abbrev pub main_end : Option (Option ℕ × d.sqlite.Db) → Option (Option ℕ × d.sqlite.Db)
  main_end none = none
  main_end (some (none, db)) = some (none, db)
  main_end (some (some result, db)) = some (some 0, db)

  -- A `create_db` that fails is only logged.
  abbrev pub created :
      Option (ℕ × d.sqlite.Db)
      → Bool
      → Bytes
      → List (Option (List (Bytes × ℕ)))
      → Option (Option ℕ × d.sqlite.Db)
  created none bound internal_header clients = none
  created (some (result, db)) bound internal_header clients =
      main_end (start_daemon c d.sqlite bound internal_header clients db)

  abbrev pub from_start :
      Started Daemon
      → Bytes
      → Bool
      → List (Option (List (Bytes × ℕ)))
      → d.sqlite.Db
      → Option (Option ℕ × d.sqlite.Db)
  from_start (returned n) database_schema bound clients db = some (some n, db)
  from_start (exited n) database_schema bound clients db = some (some n, db)
  from_start crashed database_schema bound clients db = none
  from_start (started daemon) database_schema bound clients db =
      created (create_db (schema_of d) database_schema db) bound daemon.header clients

  -- The status of the process, or `none` while it goes on accepting, and the file. The result is `none` if
  -- the program crashes, or if the schema never ends.
  pub daemon_main :
      List DbOption
      → Bool
      → Bytes
      → Option (ℕ × Option DbConf)
      → Log
      → Bytes
      → Bool
      → List (Option (List (Bytes × ℕ)))
      → d.sqlite.Db
      → Option (Option ℕ × d.sqlite.Db)
  daemon_main options child log_file config l database_schema bound clients db =
      from_start (db_main options child log_file config l) database_schema bound clients db
