-- ===== src/Db/Start/Program/Serves.antt =====
-- The daemon from its start to its clients, as a stock of elements.
use smart_fridge.Prelude.{
  ℕ, ◌≡◌, refl, sym, Bytes, Option, none, some, List, [], ◌∷◌, ◌++◌, true, Bool, str_eq,
}
use mathlib.Core.Path.{subst, fun_ext}
use smart_fridge.Json.{CJson}
use smart_fridge.Sql.{ProductRow}
use smart_fridge.Sql.Engine.{SqliteLaw, Works}
use smart_fridge.Config.{DbConf}
use smart_fridge.Log.{Log}
use smart_fridge.Db.Stock.{Stock, Request, serve_requests, count, Shelf}
use smart_fridge.Db.Stock.Refine.{Stands, Brings, serve-Stands}
use smart_fridge.Db.Start.{accept_loop, start_daemon, DbOption, started, Daemon, db_main}
use smart_fridge.Db.Start.Program.{Database, daemon_main}
use smart_fridge.Db.Start.Program.Rows.{SchemaLaw, create_db-rows}

serve_requests-append :
    (rs rs' : List Request) (stock : Stock)
    → serve_requests (rs ++ rs') stock ≡ serve_requests rs' (serve_requests rs stock)
serve_requests-append [] rs' stock = refl
serve_requests-append (r ∷ rs) rs' stock = serve_requests-append rs rs' _

module _ (name_of : Bytes → Bytes)
    (names : (a b : Bytes) → str_eq (name_of a) (name_of b) ≡ str_eq a b) (c : CJson) (d : Database)
    (law : SqliteLaw d.sqlite) (works : Works d.sqlite) where
  open d use {sqlite}

  abbrev rows_of : sqlite.Db → List ProductRow
  rows_of db = (sqlite.tables db).products_data

  -- The clients that `accept` yields bring these requests, one client after the other.
  pub data Visits (header : Bytes) : List (Option (List (Bytes × ℕ))) → List Request → Type 0 where
    no_more : Visits header [] []
    refused :
        {clients : List (Option (List (Bytes × ℕ)))} {rs : List Request}
        → Visits header clients rs
        → Visits header (none ∷ clients) rs
    visit :
        {chunks : List (Bytes × ℕ)} {rs : List Request} {clients : List (Option (List (Bytes × ℕ)))}
        {rs' : List Request}
        → Brings name_of names c sqlite law works header chunks rs
        → Visits header clients rs'
        → Visits header (some chunks ∷ clients) (rs ++ rs')

  loop-Stands :
      (header : Bytes) (clients : List (Option (List (Bytes × ℕ)))) (rs : List Request)
      (db : sqlite.Db)
      → Visits header clients rs
      → Shelf name_of (rows_of db)
      → (db' : sqlite.Db) × (accept_loop c sqlite header clients db ≡ some db')
        × Stands name_of names (rows_of db') (serve_requests rs (count (rows_of db)))
  unfolding accept_loop
  loop-Stands header _ _ db no_more h = (db, refl, (h, λ j. refl))
  loop-Stands header _ _ db (refused {clients = clients} {rs = rs} v) h =
      loop-Stands header clients rs db v h
  loop-Stands header _ _ db (visit {chunks = chunks} {rs = rs} {clients = clients} {rs' = rs'} b v)
        h =
      let (db1, e, (shelf, counts)) =
        serve-Stands name_of names c sqlite law works header chunks rs db b h in
      let (db2, f, (shelf', counts')) = loop-Stands header clients rs' db1 v shelf in
      (
        db2,
        rw e f,
        (
          shelf',
          rw (serve_requests-append rs rs' (count (rows_of db))) (
              subst (λ g. (j : Bytes) → count (rows_of db2) j ≡ serve_requests rs' g j)
                (fun_ext counts) counts'),
        ),
      )

  -- Where SQLite works, no statement of the schema changes a row and different codes have different names: let the daemon start with a port that
  -- it can bind, on a file whose tables hold whole rows of different codes, each with
  -- its code's name and some elements, as a new file does; and let its clients bring products and deletion requests, each product being
  -- whole, with its code's name and some elements. Then all are served, the daemon goes on accepting, and the number of elements of each code
  -- was raised and lowered as the requests say, in their order.
  pub daemon_main-Stands :
      (text : Bytes) (schema : SchemaLaw d text) (options : List DbOption) (child : Bool)
      (log_file : Bytes) (config : Option (ℕ × Option DbConf)) (l : Log) (daemon : Daemon)
      (clients : List (Option (List (Bytes × ℕ)))) (rs : List Request) (db : sqlite.Db)
      → db_main options child log_file config l ≡ started daemon
      → Visits daemon.header clients rs
      → Shelf name_of (rows_of db)
      → (db' : sqlite.Db) × (daemon_main c d options child log_file config l text true clients db
          ≡ some (none, db'))
        × Stands name_of names (rows_of db') (serve_requests rs (count (rows_of db)))
  unfolding daemon_main start_daemon
  daemon_main-Stands text schema options child log_file config l daemon clients rs db e v h =
      let (r, mid, made, same) = create_db-rows d text schema db in
      let (db', f, stands) =
        loop-Stands daemon.header clients rs mid v
          (subst (λ t. Shelf name_of t.products_data) (sym same) h) in
      (
        db',
        rw (e, made, f),
        subst (λ t. Stands name_of names (rows_of db') (serve_requests rs (count t.products_data)))
            same stands,
      )
