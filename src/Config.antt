-- ===== src/Config.antt =====
-- tools/config.c and include/config.h: the configuration, read from the tokens of config.yaml by
-- three state machines.
pub mod Reader
pub mod Database
pub mod Read
mod Tests
use smart_fridge.Prelude.{ℕ, Bytes, codes, Option, none, List, Bool}
use smart_fridge.Prelude.Int.{ℤ, pos, negsuc}

-- What `yaml_parser_scan` yields, as far as the source tells tokens apart. The scan of a file is the
-- list of its tokens up to the call that fails. A well-formed file has no such call: behind STREAM-END the
-- scan succeeds for ever without a token, which `no_tokens` stands for.
pub data Token : Type 0 where
  key value block_mapping_start block_end other no_tokens : Token
  scalar : Bytes → Token

-- `enum yaml_state`
pub data YamlState : Type 0 where
  expect_key expect_value expect_block_mapping expect_nothing : YamlState

-- `struct reader_conf`
pub record ReaderConf : Type 0 where
  pub id_sleep : ℤ
  pub id_size : ℤ
  pub pr_sleep : ℤ
  pub pr_size : ℤ
  pub test_sleep : ℤ
  pub test_repeat : Option Bytes
  pub device : Option Bytes
  pub log_location : Option Bytes
  pub socket_mode_port : ℤ

-- `struct db_conf`
pub record DbConf : Type 0 where
  pub internal_port : ℕ
  pub internal_header : Option Bytes
  pub internal_address : Option Bytes
  pub log_location : Option Bytes

-- As `calloc` leaves them.
abbrev pub cleared_reader : ReaderConf
cleared_reader = record {
  id_sleep = pos 0;
  id_size = pos 0;
  pr_sleep = pos 0;
  pr_size = pos 0;
  test_sleep = pos 0;
  test_repeat = none;
  device = none;
  log_location = none;
  socket_mode_port = pos 0;
}

abbrev pub cleared_db : DbConf
cleared_db = record {
  internal_port = 0;
  internal_header = none;
  internal_address = none;
  log_location = none;
}

-- How the loading of a section ends: with 0 and the tokens that are left, with 1, or by a write of
-- an `int` over a pointer, or not at all. The configuration is what has been filled in so far.
pub data Loaded (A : Type 0) : Type 0 where
  loaded : A → List Token → Loaded A
  refused : A → List Token → Loaded A
  corrupted endless : Loaded A
