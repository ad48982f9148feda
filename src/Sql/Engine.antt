-- ===== src/Sql/Engine.antt =====
-- What the program uses of SQLite (`sqlite3.h`), which is not part of the repository, as an interface,
-- and its documented behaviour.
use smart_fridge.Prelude.{◌≡◌, ◌≢◌, Bool, true, false}
use smart_fridge.Sql.{Tables, Statement, QueryType, violates, apply}

-- What `sqlite3_step` returns: SQLITE_DONE, SQLITE_CONSTRAINT, or anything else.
pub data StepCode : Type 0 where
  done constraint failure : StepCode

pub record Sqlite : Type 1 where
  -- a connection, with the file behind it
  pub Db : Type 0
  pub tables : Db → Tables
  -- whether `sqlite3_open_v2` and `sqlite3_prepare_v2` return SQLITE_OK
  pub open_v2 : Db → Bool
  pub prepare_v2 : Db → QueryType → Bool
  pub step : Db → Statement → StepCode × Db

-- A statement that is done has had its effect, and broke no constraint; one that is refused for a
-- constraint broke one; and no statement that is not done has an effect.
abbrev pub Steps : (s : Sqlite) → s.Db → Statement → StepCode → s.Db → Type 0
Steps s db st done db' =
    (violates st (s.tables db) ≡ false) × (s.tables db' ≡ apply st (s.tables db))
Steps s db st constraint db' = (violates st (s.tables db) ≡ true) × (s.tables db' ≡ s.tables db)
Steps s db st failure db' = s.tables db' ≡ s.tables db

abbrev pub SqliteLaw : Sqlite → Type 0
SqliteLaw s = (db : s.Db) (st : Statement) → Steps s db st (s.step db st).0 (s.step db st).1

-- No call fails for want of memory, of disk space, of a lock or the like.
pub record Works (s : Sqlite) : Type 0 where
  pub opens : (db : s.Db) → s.open_v2 db ≡ true
  pub prepares : (db : s.Db) (q : QueryType) → s.prepare_v2 db q ≡ true
  pub no_failure : (db : s.Db) (st : Statement) → (s.step db st).0 ≢ failure
