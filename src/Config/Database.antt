-- ===== src/Config/Database.antt =====
-- `sf_load_db_config`: the block `database`. `sect` is not set before the first section is met, so the
-- machine starts from any value of it.
pub mod Document
use smart_fridge.Prelude.{
  ℕ, Bytes, codes, Option, none, some, List, [], ◌∷◌, Bool, true, false, not, str_eq, if◌then◌else◌,
}
use smart_fridge.Prelude.Int.{ℤ, pos, negsuc, eq_ℤ}
use smart_fridge.Prelude.Number.{strtol, to_uint}
use smart_fridge.Config.{
  Token, key, value, block_mapping_start, block_end, other, no_tokens, scalar, YamlState,
  expect_key, expect_value, expect_block_mapping, expect_nothing, DbConf, cleared_db, Loaded,
  loaded, refused, endless,
}
use smart_fridge.Config.Reader.{is_block_mapping}

-- `enum database_section`
abbrev pub ports : ℤ
ports = pos 0

abbrev pub headers : ℤ
headers = pos 1

abbrev pub addresses : ℤ
addresses = pos 2

abbrev pub dlogs_sect : ℤ
dlogs_sect = pos 3

-- The enumerator of the other section type, which the source uses here: it is `ports`.
abbrev pub read_sect : ℤ
read_sect = pos 0

-- The fields of `db_conf` to which `conv.data` points. `conv.type` is always set with it: 1 at the
-- port and 2 at a text.
pub data DbField : Type 0 where
  internal_port internal_header internal_address log_location : DbField

-- The local variables.
pub record DbLoad : Type 0 where
  pub config : DbConf
  pub state : YamlState
  pub sect : ℤ
  pub conv : Option DbField
  pub out : Bool

pub data Step : Type 0 where
  next : DbLoad → Step
  refuse : DbLoad → Step
  again : Step

abbrev pub enter : ℤ → DbLoad → DbLoad
enter sect l = record l { sect = sect; state = expect_block_mapping }

-- The key `internal`: the field depends on the section, which is left.
pub internal_key : DbLoad → DbLoad
internal_key l =
    let conv : Option DbField =
      if eq_ℤ l.sect ports
      then some internal_port
      else if eq_ℤ l.sect headers
      then some internal_header
      else if eq_ℤ l.sect addresses
      then some internal_address
      else l.conv in
    record l { conv = conv; sect = negsuc 0 }

-- A scalar where a key is expected.
pub db_key : Bytes → DbLoad → Step
unfolding internal_key
db_key tag l =
    if str_eq tag (codes "internal")
    then next (internal_key l)
    else if str_eq tag (codes "location")
    then next (record l { conv = some log_location })
    else if str_eq tag (codes "ports")
    then next (enter ports l)
    else if str_eq tag (codes "headers")
    then next (enter headers l)
    else if str_eq tag (codes "addresses")
    then next (enter addresses l)
    else if str_eq tag (codes "logs")
    then next (enter dlogs_sect l)
    else refuse l

-- A scalar where a value is expected. The port is written as a `void *`: its low half is the port,
-- and the rest falls on the padding behind it.
pub store : Option DbField → Bytes → DbConf → DbConf
store none text c = c
store (some internal_port) text c = record c { internal_port = to_uint (strtol text) }
store (some internal_header) text c = record c { internal_header = some text }
store (some internal_address) text c = record c { internal_address = some text }
store (some log_location) text c = record c { log_location = some text }

pub db_scalar : YamlState → Bytes → DbLoad → Step
unfolding db_key store
db_scalar expect_key text l = db_key text l
db_scalar expect_value text l = next (record l { config = store l.conv text l.config })
db_scalar expect_block_mapping text l = next l
db_scalar expect_nothing text l = next l

-- The body of the loop.
pub db_token : Token → DbLoad → Step
unfolding db_scalar
db_token key l = next (record l { state = expect_key })
db_token value l = next (if is_block_mapping l.state then l else record l { state = expect_value })
db_token block_mapping_start l = if is_block_mapping l.state then next l else refuse l
db_token (scalar text) l = db_scalar l.state text l
db_token block_end l =
    next (
      if not (eq_ℤ l.sect read_sect)
      then record l { sect = read_sect }
      else record l { out = true })
db_token other l = next l
db_token no_tokens l = again

-- The loop, `out` being false. The list ends where the scan fails.
pub db_loop : DbLoad → List Token → Loaded DbConf
unfolding db_token
db_loop l [] = loaded l.config []
db_loop l (token ∷ tokens) = elim (db_token token l) [
  | again ↦ endless
  | refuse l' ↦ refused l'.config tokens
  | next l' ↦ elim l'.out [ true ↦ loaded l'.config tokens | false ↦ db_loop l' tokens ]
]

abbrev pub db_start : ℤ → DbLoad
db_start sect = record {
  config = cleared_db;
  state = expect_block_mapping;
  sect = sect;
  conv = none;
  out = false;
}

unfoldable pub sf_load_db_config : ℤ → List Token → Loaded DbConf
unfolding db_loop
sf_load_db_config sect tokens = db_loop (db_start sect) tokens
