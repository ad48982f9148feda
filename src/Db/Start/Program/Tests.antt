-- ===== src/Db/Start/Program/Tests.antt =====
-- The whole program of the daemon on a new file, with a schema of two statements.
use smart_fridge.Prelude.{
  ℕ, ◌≡◌, refl, Bytes, Option, codes, none, some, List, [], ◌∷◌, ◌++◌, false, true,
}
use smart_fridge.Prelude.Int.{pos}
use smart_fridge.Config.{expect_nothing, cleared_db, DbConf}
use smart_fridge.Config.Reader.Document.{Key, id_queue}
use smart_fridge.Config.Database.Document.{port, header, assign_settings}
use smart_fridge.Config.Read.{read_db_config}
use smart_fridge.Config.Read.File.{file_tokens}
use smart_fridge.Log.{Log, sf_set_log_file, sf_set_node_name, sf_set_foreground}
use smart_fridge.Sql.{Tables}
use smart_fridge.Db.Tests.{stored-Carries, removal-Carries}
use smart_fridge.Db.Stock.{store, take, serve_requests, count}
use smart_fridge.Samples.Stock.{salt_code, name_of, names, stored-IsStock}
use smart_fridge.Db.Stock.Refine.{Stands, brings_product, brings_removal}
use smart_fridge.Db.Stock.Refine as Refine
use smart_fridge.Db.Start.{completed, daemon_with, foreground, started, Daemon, db_main}
use smart_fridge.Db.Start.Running.{db_main-file}
use smart_fridge.Db.Start.Program.{Database, daemon_main}
use smart_fridge.Db.Start.Program.Rows.{SchemaLaw}
use smart_fridge.Db.Start.Program.Serves.{Visits, no_more, refused, visit, daemon_main-Stands}
use smart_fridge.Samples.Trees.{stored_text, trees, removal_text}
use smart_fridge.Samples.Engines.{engine, engine-law, engine-works, no_tables}

-- An SQLite for which each byte of a schema is a statement without an effect on rows.
abbrev database : Database
database = record {
  sqlite = engine;
  Stmt = Unit;
  create_v2 = λ db. true;
  prepare_text = λ db sql. elim sql [ [] ↦ some (none, []) | b ∷ tail ↦ some (some tt, tail) ];
  step_text = λ db stmt. (completed, db);
}

schema : SchemaLaw database (codes ";;")
schema = record {
  tail_in = λ db b sql tail stmt e. ([], let same : sql ≡ tail = cc in same);
  rows_kept = λ db before sql tail stmt whole e. refl;
}

abbrev config : Option (ℕ × Option DbConf)
config = read_db_config expect_nothing (pos 9) (
    some (
      file_tokens ((id_queue, (Key.size, codes "20") ∷ []) ∷ [])
        (header (codes "!#1+") ∷ port (codes "5001") ∷ [])))

abbrev quiet : Log
quiet = record {
  debug_level = pos 0;
  foreground = false;
  log_file = none;
  node_name = [];
  printed = [];
  appended = [];
}

abbrev daemon : Daemon
daemon = record {
  log =
      sf_set_log_file
        (assign_settings (header (codes "!#1+") ∷ port (codes "5001") ∷ []) cleared_db).log_location
        (sf_set_log_file (some (codes "fridge.log"))
          (sf_set_node_name (codes "DATABASE_MANAGER") (sf_set_foreground quiet)));
  header = codes "!#1+";
  port =
      (assign_settings (header (codes "!#1+") ∷ port (codes "5001") ∷ []) cleared_db).internal_port;
}

daemon-started : db_main (foreground ∷ []) false (codes "fridge.log") config quiet ≡ started daemon
unfolding daemon_with
daemon-started =
    db_main-file expect_nothing (pos 9) (id_queue, (Key.size, codes "20") ∷ []) []
      (header (codes "!#1+")) (port (codes "5001") ∷ []) false (codes "fridge.log") quiet

-- A call of `accept` that fails, and a client that stores two packets of salt and removes one.
abbrev clients : List (Option (List (Bytes × ℕ)))
clients =
    none ∷ some ((codes "!#1+" ++ stored_text, 0) ∷ (codes "!#1+" ++ removal_text, 0) ∷ []) ∷ []

visits :
    Visits name_of names trees database engine-law engine-works
      (codes "!#1+")
      clients
      (store salt_code 2 ∷ take salt_code ∷ [])
visits = refused (
    visit
      (brings_product stored-Carries stored-IsStock
        (brings_removal removal-Carries refl Refine.no_more))
      no_more)

daemon_main-Stands_example :
    (db' : Tables) × (daemon_main trees database
        (foreground ∷ [])
        false
        (codes "fridge.log")
        config
        quiet
        (codes ";;")
        true
        clients
        no_tables
      ≡ some (none, db'))
    × Stands name_of names db'.products_data
        (serve_requests (store salt_code 2 ∷ take salt_code ∷ []) (count []))
daemon_main-Stands_example =
    daemon_main-Stands name_of names trees database engine-law engine-works (codes ";;") schema
      (foreground ∷ []) false (codes "fridge.log") config quiet daemon clients
      (store salt_code 2 ∷ take salt_code ∷ []) no_tables daemon-started visits tt
