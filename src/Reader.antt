-- ===== src/Reader.antt =====
-- sf_reader.c: where product codes come from, and what the two threads do with them.
pub mod Codes
pub mod Threads
pub mod Lines
pub mod Handler
pub mod Start
pub mod Stubs
mod Tests
use smart_fridge.Prelude.{
  ℕ, Bytes, codes, Option, none, some, List, [], ◌∷◌, ◌++◌, Bool, true, false, ◌==◌, if◌then◌else◌,
  cut_at,
}
use smart_fridge.Prelude.Int.{ℤ, pos}
use smart_fridge.Prelude.Number.{strtol, to_int}
use smart_fridge.Decoder.{ProductNode, create_product_node}

-- DB_MODE_ADD and DB_MODE_REMOVE
abbrev pub db_mode_add : ℕ
db_mode_add = 1

abbrev pub db_mode_remove : ℕ
db_mode_remove = 2

-- The signal handler; `is_sigtstp` is `signum == SIGTSTP`. The result is `db_mode`.
pub key_handler : Bool → ℕ → ℕ
key_handler is_sigtstp db_mode =
    if is_sigtstp then (if db_mode == db_mode_add then db_mode_remove else db_mode_add) else db_mode

-- Cut at the colon, if there is one.
abbrev pub node_of : Bytes × Option Bytes → ℕ → ProductNode
node_of (code, none) db_mode = create_product_node code (pos 1) db_mode
node_of (code, some number) db_mode = create_product_node code (to_int (strtol number)) db_mode

abbrev pub socket_node : Bytes × Option Bytes → ℕ → Option ProductNode
socket_node (before, none) db_mode = none
socket_node (before, some number) db_mode =
    some (create_product_node before (to_int (strtol number)) db_mode)

-- A message in socket mode, as a string: `!code:number`, or an error. The colon is looked for behind
-- the first byte, which is no colon.
pub socket_message : Bytes → ℕ → Option ProductNode
socket_message [] db_mode = none
socket_message (b ∷ msg) db_mode = if b == b'!' then socket_node (cut_at b':' msg) db_mode else none

-- A line of the test file, as `getline` returns it. A comment goes up to the end of the line; a line
-- that is nothing but a comment yields no code.
abbrev pub line_node : Bytes → ℕ → ProductNode
line_node pr_id db_mode = node_of (cut_at b':' (cut_at b'\n' pr_id).0) db_mode

abbrev pub uncommented : Bytes × Option Bytes → ℕ → Option ProductNode
uncommented ([], some comment) db_mode = none
uncommented (pr_id, rest) db_mode = some (line_node pr_id db_mode)

pub test_line : Bytes → ℕ → Option ProductNode
test_line pr_id db_mode = uncommented (cut_at b'#' pr_id) db_mode
