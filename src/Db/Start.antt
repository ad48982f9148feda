-- ===== src/Db/Start.antt =====
-- sf_db.c, the start of the daemon: `create_db`, `start_daemon` and `main`.
pub mod Creation
pub mod Running
pub mod Program
mod Tests
use smart_fridge.Prelude.{
  ℕ, zero, suc, Bytes, codes, Option, none, some, List, [], ◌∷◌, Bool, true, false, not,
  if◌then◌else◌, length, ◌==◌,
}
use smart_fridge.Json.{CJson}
use smart_fridge.Sql.Engine.{Sqlite}
use smart_fridge.Config.{DbConf}
use smart_fridge.Db.Messages.{serve}
use smart_fridge.Log.{Log, sf_set_debug, sf_set_foreground, sf_set_node_name, sf_set_log_file}

-- What `sqlite3_step` returns of a statement of the schema: SQLITE_MISUSE, SQLITE_ROW, SQLITE_DONE or anything else.
pub data SchemaCode : Type 0 where
  misuse row completed other : SchemaCode

-- What `create_db` uses of SQLite. A prepared statement is NULL for a text without one.
pub record Schema : Type 1 where
  pub Db : Type 0
  pub Stmt : Type 0
  pub open_v2 : Db → Bool
  -- the statement and the text behind it; `none` where the result is not SQLITE_OK
  pub prepare_v2 : Db → Bytes → Option (Option Stmt × Bytes)
  pub step : Db → Option Stmt → SchemaCode × Db

abbrev pub is_accepted : SchemaCode → Bool
is_accepted other = false
is_accepted _ = true

module _ (s : Schema) where
  open s use {Db, Stmt, open_v2, prepare_v2, step}

  abbrev pub next_statement :
      Option (Option Stmt × Bytes) → Db → (Bytes → Db → Option (ℕ × Db)) → Option (ℕ × Db)
  next_statement none db next = some (1, db)
  next_statement (some (stmt, tail)) db next =
      let (result, db') = step db stmt in
      if is_accepted result then next tail db' else some (1, db')

  -- The loop, with the rounds that it is given; `none` where they do not suffice.
  pub create_tables : ℕ → Bytes → Db → Option (ℕ × Db)
  create_tables rounds [] db = some (0, db)
  create_tables zero (b ∷ sql) db = none
  create_tables (suc rounds) (b ∷ sql) db =
      next_statement (prepare_v2 db (b ∷ sql)) db (λ tail db'. create_tables rounds tail db')

  -- One round for each byte of the schema.
  pub create_db : Bytes → Db → Option (ℕ × Db)
  unfolding create_tables
  create_db database_schema db =
      if open_v2 db then create_tables (length database_schema) database_schema db else some (1, db)

module _ (c : CJson) (s : Sqlite) where
  open s use {Db}

  abbrev pub next_client : Option Db → (Db → Option Db) → Option Db
  next_client none next = none
  next_client (some db) next = next db

  -- The loop over the calls of `accept`: a client with its chunks, or an error. `none` is a crash.
  unfoldable pub accept_loop : Bytes → List (Option (List (Bytes × ℕ))) → Db → Option Db
  accept_loop internal_header [] db = some db
  accept_loop internal_header (none ∷ clients) db = accept_loop internal_header clients db
  accept_loop internal_header (some chunks ∷ clients) db =
      next_client (serve c s internal_header chunks db)
        (λ db'. accept_loop internal_header clients db')

  abbrev pub accepting : Option Db → Option (Option ℕ × Db)
  accepting none = none
  accepting (some db) = some (none, db)

  -- `none` stands for the status of a daemon that goes on accepting.
  pub start_daemon : Bool → Bytes → List (Option (List (Bytes × ℕ))) → Db → Option (Option ℕ × Db)
  unfolding accept_loop
  start_daemon bound internal_header clients db =
      if bound then accepting (accept_loop internal_header clients db) else some (some 1, db)

-- What `getopt` yields for "ddf".
pub data DbOption : Type 0 where
  debug foreground unknown : DbOption

-- `none` where the help is printed and 1 returned; else the log and `foreground_mode`.
pub db_options : List DbOption → Log → Bool → Option (Log × Bool)
db_options [] l foreground_mode = some (l, foreground_mode)
db_options (debug ∷ options) l foreground_mode = db_options options (sf_set_debug l) foreground_mode
db_options (foreground ∷ options) l foreground_mode = db_options options (sf_set_foreground l) true
db_options (unknown ∷ options) l foreground_mode = none

-- How `main` goes on: it returns, exits by `sf_exit_error`, reads through NULL, or starts.
pub data Started (A : Type 0) : Type 0 where
  returned exited : ℕ → Started A
  crashed : Started A
  started : A → Started A

-- What the daemon starts with: the log, its header and its port.
pub record Daemon : Type 0 where
  pub log : Log
  pub header : Bytes
  pub port : ℕ

-- `strlen` of a header that was not set reads through NULL.
pub daemon_with : Log → DbConf → Option Bytes → Started Daemon
daemon_with l config none = crashed
daemon_with l config (some header) = started (record {
  log = sf_set_log_file config.log_location l;
  header = header;
  port = config.internal_port;
})

-- From the result of `sf_read_config` on.
pub db_configured : Log → Option (ℕ × Option DbConf) → Started Daemon
unfolding daemon_with
db_configured l none = crashed
db_configured l (some (suc result, config)) = exited 1
db_configured l (some (zero, none)) = crashed
db_configured l (some (zero, some config)) = daemon_with l config config.internal_header

-- `child` says whether `fork` returns 0. The location of the logs that is used before the configuration is
-- read is LOG_FILE.
pub db_main : List DbOption → Bool → Bytes → Option (ℕ × Option DbConf) → Log → Started Daemon
unfolding db_options db_configured
db_main options child log_file config l = elim (db_options options l false) [
  | none ↦ returned 1
  | some (l', foreground_mode) ↦ elim foreground_mode [
    | true ↦
        db_configured
          (sf_set_log_file (some log_file) (sf_set_node_name (codes "DATABASE_MANAGER") l')) config
    | false ↦ elim child [
      | true ↦
          db_configured
            (sf_set_log_file (some log_file) (sf_set_node_name (codes "DATABASE_MANAGER") l'))
            config
      | false ↦ returned 0
    ]
  ]
]
