-- ===== src/Config/Reader.antt =====
-- `sf_load_reader_config`: the block `reader`. `sect` is not set before the first section is met, so
-- the machine starts from any value of it.
pub mod Document
use smart_fridge.Prelude.{
  ℕ, Bytes, codes, Option, none, some, List, [], ◌∷◌, Bool, true, false, not, ◌==◌, str_eq,
  if◌then◌else◌,
}
use smart_fridge.Prelude.Int.{ℤ, pos, eq_ℤ}
use smart_fridge.Prelude.Number.{strtol, to_int}
use smart_fridge.Config.{
  Token, key, value, block_mapping_start, block_end, other, no_tokens, scalar, YamlState,
  expect_key, expect_value, expect_block_mapping, expect_nothing, ReaderConf, cleared_reader,
  Loaded, loaded, refused, corrupted, endless,
}

-- `enum reader_section`
abbrev pub read_sect : ℤ
read_sect = pos 0

abbrev pub id_sect : ℤ
id_sect = pos 1

abbrev pub pr_sect : ℤ
pr_sect = pos 2

abbrev pub test_sect : ℤ
test_sect = pos 3

abbrev pub coder_sect : ℤ
coder_sect = pos 4

abbrev pub rlogs_sect : ℤ
rlogs_sect = pos 5

abbrev pub socket_mode : ℤ
socket_mode = pos 6

-- The fields of `reader_conf` to which `conv.data` points.
pub data ReaderField : Type 0 where
  id_sleep id_size pr_sleep pr_size test_sleep test_repeat device log_location : ReaderField
  socket_mode_port : ReaderField

-- The local variables; `conv_type` is 0 for a text and 1 for an `int`.
pub record ReaderLoad : Type 0 where
  pub config : ReaderConf
  pub state : YamlState
  pub sect : ℤ
  pub conv_data : Option ReaderField
  pub conv_type : ℕ
  pub out : Bool

-- What one token leads to; `again` is a loop that never ends.
pub data Step (A : Type 0) : Type 0 where
  next : A → Step A
  refuse : A → Step A
  corrupt : Step A
  again : Step A

abbrev pub point_to : ReaderField → ℕ → ReaderLoad → ReaderLoad
point_to field type l = record l { conv_data = some field; conv_type = type }

abbrev pub enter : ℤ → ReaderLoad → ReaderLoad
enter sect l = record l { sect = sect; state = expect_block_mapping }

-- A scalar where a key is expected.
pub reader_key : Bytes → ReaderLoad → Step ReaderLoad
reader_key tag l =
    if str_eq tag (codes "size")
    then next (
        if eq_ℤ l.sect id_sect
        then point_to id_size 1 l
        else if eq_ℤ l.sect pr_sect
        then point_to pr_size 1 l
        else record l { conv_type = 1 })
    else if str_eq tag (codes "sleep")
    then next (
        if eq_ℤ l.sect id_sect
        then point_to id_sleep 1 l
        else if eq_ℤ l.sect pr_sect
        then point_to pr_sleep 1 l
        else if eq_ℤ l.sect test_sect
        then point_to test_sleep 1 l
        else record l { conv_type = 1 })
    else if str_eq tag (codes "infinite")
    then next (point_to test_repeat 0 l)
    else if str_eq tag (codes "device")
    then next (point_to device 0 l)
    else if str_eq tag (codes "port")
    then next (point_to socket_mode_port 1 l)
    else if str_eq tag (codes "location")
    then next (point_to log_location 0 l)
    else if str_eq tag (codes "id_queue")
    then next (enter id_sect l)
    else if str_eq tag (codes "product_queue")
    then next (enter pr_sect l)
    else if str_eq tag (codes "test_mode")
    then next (enter test_sect l)
    else if str_eq tag (codes "code_reader")
    then next (enter coder_sect l)
    else if str_eq tag (codes "logs")
    then next (enter rlogs_sect l)
    else if str_eq tag (codes "socket_mode")
    then next (enter socket_mode l)
    else refuse l

-- `*conv.data = strdup(scalar)`, only ever at a field that holds a text
pub store_text : ReaderField → Bytes → ReaderConf → Option ReaderConf
store_text test_repeat text c = some (record c { test_repeat = some text })
store_text device text c = some (record c { device = some text })
store_text log_location text c = some (record c { log_location = some text })
store_text _ text c = none

-- `*integer = strtol(scalar, NULL, 10)`; at a field that holds a text it overwrites half a pointer
pub store_int : ReaderField → ℤ → ReaderConf → Option ReaderConf
store_int id_sleep i c = some (record c { id_sleep = i })
store_int id_size i c = some (record c { id_size = i })
store_int pr_sleep i c = some (record c { pr_sleep = i })
store_int pr_size i c = some (record c { pr_size = i })
store_int test_sleep i c = some (record c { test_sleep = i })
store_int socket_mode_port i c = some (record c { socket_mode_port = i })
store_int _ i c = none

abbrev pub stored : ReaderLoad → Option ReaderConf → Step ReaderLoad
stored l none = corrupt
stored l (some config) = next (record l { config = config; conv_data = none })

-- A scalar where a value is expected.
pub reader_value : Bytes → Option ReaderField → ReaderLoad → Step ReaderLoad
unfolding store_text store_int
reader_value text none l = next l
reader_value text (some field) l =
    if l.conv_type == 0
    then stored l (store_text field text l.config)
    else if l.conv_type == 1
    then stored l (store_int field (to_int (strtol text)) l.config)
    else next (record l { conv_data = none })

pub reader_scalar : YamlState → Bytes → ReaderLoad → Step ReaderLoad
unfolding reader_key reader_value
reader_scalar expect_key text l = reader_key text l
reader_scalar expect_value text l = reader_value text l.conv_data l
reader_scalar expect_block_mapping text l = next l
reader_scalar expect_nothing text l = next l

abbrev pub is_block_mapping : YamlState → Bool
is_block_mapping expect_block_mapping = true
is_block_mapping _ = false

-- The body of the loop.
pub reader_token : Token → ReaderLoad → Step ReaderLoad
unfolding reader_scalar
reader_token key l = next (record l { state = expect_key })
reader_token value l =
    next (if is_block_mapping l.state then l else record l { state = expect_value })
reader_token block_mapping_start l = if is_block_mapping l.state then next l else refuse l
reader_token (scalar text) l = reader_scalar l.state text l
reader_token block_end l =
    next (
      if not (eq_ℤ l.sect read_sect)
      then record l { sect = read_sect }
      else record l { out = true })
reader_token other l = next l
reader_token no_tokens l = again

-- The loop, `out` being false. The list ends where the scan fails.
pub reader_loop : ReaderLoad → List Token → Loaded ReaderConf
unfolding reader_token
reader_loop l [] = loaded l.config []
reader_loop l (token ∷ tokens) = elim (reader_token token l) [
  | corrupt ↦ corrupted
  | again ↦ endless
  | refuse l' ↦ refused l'.config tokens
  | next l' ↦ elim l'.out [ true ↦ loaded l'.config tokens | false ↦ reader_loop l' tokens ]
]

abbrev pub reader_start : ℤ → ReaderLoad
reader_start sect = record {
  config = cleared_reader;
  state = expect_block_mapping;
  sect = sect;
  conv_data = none;
  conv_type = 0;
  out = false;
}

-- `sect` is the indeterminate value of the variable.
unfoldable pub sf_load_reader_config : ℤ → List Token → Loaded ReaderConf
unfolding reader_loop
sf_load_reader_config sect tokens = reader_loop (reader_start sect) tokens
