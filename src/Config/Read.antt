-- ===== src/Config/Read.antt =====
-- `sf_read_config`: the search for the block of one kind, and what its loader's end leads to.
pub mod File
use smart_fridge.Prelude.{
  ℕ, Bytes, codes, Option, none, some, List, [], ◌∷◌, Bool, true, false, ◌&&◌, str_eq,
  if◌then◌else◌,
}
use smart_fridge.Prelude.Int.{ℤ}
use smart_fridge.Config.{
  Token, key, value, block_mapping_start, block_end, other, no_tokens, scalar, YamlState,
  expect_key, expect_value, expect_block_mapping, expect_nothing, ReaderConf, DbConf, Loaded,
  loaded, refused, corrupted, endless,
}
use smart_fridge.Config.Reader.{sf_load_reader_config}
use smart_fridge.Config.Database.{sf_load_db_config}

-- The return value and `*config`; `none` is no return: a write over a pointer, an abort, or a loop that never ends.
abbrev pub Result : Type 0 → Type 0
Result A = Option (ℕ × Option A)

abbrev pub is_key : YamlState → Bool
is_key expect_key = true
is_key _ = false

-- What follows the call of the loader: the reader's failure is not looked at.
abbrev pub reader_end : Loaded ReaderConf → Result ReaderConf
reader_end (loaded config tokens) = some (0, some config)
reader_end (refused config tokens) = some (0, some config)
reader_end corrupted = none
reader_end endless = none

abbrev pub db_end : Loaded DbConf → Result DbConf
db_end (loaded config tokens) = some (0, some config)
db_end (refused config tokens) = some (1, some config)
db_end corrupted = none
db_end endless = none

module _ {A : Type 0} (section : Bytes) (load : List Token → Result A) where
  -- The loop, with the block's name and the loader of the wanted kind. The other block's name, and
  -- any other scalar, only sets the state. The list ends where the scan fails.
  pub read_loop : YamlState → List Token → Result A
  read_loop state [] = some (0, none)
  read_loop state (key ∷ tokens) = read_loop expect_key tokens
  read_loop state (scalar text ∷ tokens) =
      let rest = read_loop expect_nothing tokens in
      if is_key state && str_eq text section then load tokens else rest
  read_loop state (no_tokens ∷ tokens) = none
  read_loop state (_ ∷ tokens) = read_loop expect_nothing tokens

-- The file's tokens, or `none` where it cannot be opened: `yaml_parser_delete` is then given NULL, and aborts. The indeterminate values are those of `state`
-- here and of `sect` in the loader.
pub read_reader_config : YamlState → ℤ → Option (List Token) → Result ReaderConf
unfolding read_loop
read_reader_config state sect none = none
read_reader_config state sect (some tokens) =
    read_loop (codes "reader") (λ rest. reader_end (sf_load_reader_config sect rest)) state tokens

pub read_db_config : YamlState → ℤ → Option (List Token) → Result DbConf
unfolding read_loop
read_db_config state sect none = none
read_db_config state sect (some tokens) =
    read_loop (codes "database") (λ rest. db_end (sf_load_db_config sect rest)) state tokens
