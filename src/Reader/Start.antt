-- ===== src/Reader/Start.antt =====
-- `main` of sf_reader.c: from the options and the two configurations to the queues and the threads.
pub mod Queues
pub mod Run
mod Tests
use smart_fridge.Prelude.{
  ℕ, zero, suc, Bytes, codes, Option, none, some, List, [], ◌∷◌, Bool, true, false, ◌==◌,
  if◌then◌else◌,
}
use smart_fridge.Prelude.Int.{ℤ, pos, negsuc, eq_ℤ}
use smart_fridge.Prelude.Number.{strtol, to_int}
use smart_fridge.Config.{ReaderConf, DbConf}
use smart_fridge.Queue.{Queue, sf_queue_set}
use smart_fridge.Decoder.{ProductNode}
use smart_fridge.Log.{Log, sf_set_debug, sf_set_foreground, sf_set_node_name, sf_set_log_file}

-- What `getopt` yields for "ddfst:p:".
pub data ReaderOption : Type 0 where
  debug foreground socket unknown : ReaderOption
  test speed : Bytes → ReaderOption

-- The static variables that the options set.
pub record Options : Type 0 where
  pub log : Log
  pub foreground_mode : Bool
  pub test_mode_file : Option Bytes
  pub test_mode_speed : ℤ
  pub socket_mode_port : ℤ

-- `none` where the help is printed and 1 returned.
pub reader_options : List ReaderOption → Options → Option Options
reader_options [] o = some o
reader_options (debug ∷ options) o = reader_options options (record o { log = sf_set_debug o.log })
reader_options (foreground ∷ options) o =
    reader_options options (record o { log = sf_set_foreground o.log; foreground_mode = true })
reader_options (socket ∷ options) o =
    reader_options options (record o { socket_mode_port = negsuc 0 })
reader_options (test file ∷ options) o =
    reader_options options (record o { test_mode_file = some file })
reader_options (speed text ∷ options) o =
    reader_options options (record o { test_mode_speed = to_int (strtol text) })
reader_options (unknown ∷ options) o = none

-- What the threads are started with.
pub record Reader : Type 0 where
  pub options : Options
  pub conf : ReaderConf
  pub header : Bytes
  pub int_address : Option Bytes
  pub int_port : ℤ
  pub idq : Queue ProductNode
  pub prq : Queue Bytes

-- How `main` goes on: it returns, exits by `sf_exit_error`, reads through NULL, or starts its threads.
pub data Main : Type 0 where
  returned exited : ℕ → Main
  crashed : Main
  started : Reader → Main

-- A static queue before `sf_queue_set`.
abbrev pub cleared_queue : {A : Type 0} → Queue A
cleared_queue = record { data_queue = []; size = 0; current = 0; write_p = 0 }

-- The results of `sf_queue_set` for the two queues, and whether `pthread_create` succeeds twice.
pub with_queues :
    Options → ReaderConf → DbConf → Bytes → Bool → ℕ × Queue ProductNode → ℕ × Queue Bytes → Main
with_queues o conf config_db header threads (suc result, idq) (r, prq) = exited 1
with_queues o conf config_db header threads (zero, idq) (suc result, prq) = exited 1
with_queues o conf config_db header false (zero, idq) (zero, prq) = exited 1
with_queues o conf config_db header true (zero, idq) (zero, prq) = started (record {
  options = o;
  conf = conf;
  header = header;
  int_address = config_db.internal_address;
  int_port = to_int (pos config_db.internal_port);
  idq = idq;
  prq = prq;
})

-- `strlen` of a header that was not set reads through NULL.
abbrev pub with_header : Options → ReaderConf → DbConf → Option Bytes → Bool → Main
with_header o conf config_db none threads = crashed
with_header o conf config_db (some header) threads =
    with_queues o conf config_db header threads (sf_queue_set cleared_queue conf.id_size)
      (sf_queue_set cleared_queue conf.pr_size)

-- From the results of `sf_read_config` on; a write over a pointer there is a crash. The port of the configuration is
-- taken where the option `s` was given.
pub configured : Options → Option (ℕ × Option ReaderConf) → Option (ℕ × Option DbConf) → Bool → Main
unfolding with_queues
configured o none config_db threads = crashed
configured o (some (suc result, config)) config_db threads = exited 1
configured o (some (zero, config)) none threads = crashed
configured o (some (zero, config)) (some (suc result, config_db)) threads = exited 1
configured o (some (zero, none)) (some (zero, config_db)) threads = crashed
configured o (some (zero, some conf)) (some (zero, none)) threads = crashed
configured o (some (zero, some conf)) (some (zero, some config_db)) threads =
    with_header
      (record o {
        log = sf_set_log_file conf.log_location o.log;
        socket_mode_port = if eq_ℤ o.socket_mode_port (pos 0) then pos 0 else conf.socket_mode_port;
      })
      conf config_db config_db.internal_header threads

abbrev pub named : Bytes → Options → Options
named log_file o = record o {
  log = sf_set_log_file (some log_file) (sf_set_node_name (codes "reader") o.log);
}

abbrev pub forked : Bool → Main → Main
forked true child = child
forked false child = returned 0

abbrev pub with_options :
    Option Options
    → Bool
    → Bytes
    → Option (ℕ × Option ReaderConf)
    → Option (ℕ × Option DbConf)
    → Bool
    → Main
with_options none child log_file config config_db threads = returned 1
with_options (some o) child log_file config config_db threads =
    forked (if o.foreground_mode then true else child)
      (configured (named log_file o) config config_db threads)

-- `child` says whether `fork` returns 0, and `log_file` is LOG_FILE.
pub reader_main :
    List ReaderOption
    → Options
    → Bool
    → Bytes
    → Option (ℕ × Option ReaderConf)
    → Option (ℕ × Option DbConf)
    → Bool
    → Main
unfolding reader_options configured
reader_main options o child log_file config config_db threads =
    with_options (reader_options options o) child log_file config config_db threads
