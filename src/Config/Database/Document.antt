-- ===== src/Config/Database/Document.antt =====
-- What a block `database` means, and that the machine of `sf_load_db_config` finds it out.
use smart_fridge.Prelude.{◌≡◌, refl, ◌∙◌, Bytes, codes, Option, some, List, [], ◌∷◌, false, str_eq}
use smart_fridge.Prelude.Int.{ℤ}
use smart_fridge.Prelude.Number.{strtol, to_uint}
use smart_fridge.Config.{
  Token, block_mapping_start, block_end, scalar, YamlState, expect_value, expect_block_mapping,
  DbConf, cleared_db, loaded,
}
use smart_fridge.Config.Database.{
  DbField, DbLoad, db_loop, sf_load_db_config, read_sect, internal_port, internal_header,
  internal_address, log_location,
}

-- A section with the key that is meant for it: `internal`, or `location` in `logs`.
pub data Setting : Type 0 where
  port header address log : Bytes → Setting

abbrev pub section_name : Setting → Bytes
section_name (port text) = codes "ports"
section_name (header text) = codes "headers"
section_name (address text) = codes "addresses"
section_name (log text) = codes "logs"

abbrev pub key_name : Setting → Bytes
key_name (log text) = codes "location"
key_name _ = codes "internal"

abbrev pub setting_text : Setting → Bytes
setting_text (port text) = text
setting_text (header text) = text
setting_text (address text) = text
setting_text (log text) = text

abbrev pub setting_tokens : List Setting → List Token → List Token
setting_tokens [] rest = rest
setting_tokens (s ∷ settings) rest =
    Token.key
    ∷ scalar (section_name s)
    ∷ Token.value
    ∷ block_mapping_start
    ∷ Token.key
    ∷ scalar (key_name s)
    ∷ Token.value
    ∷ scalar (setting_text s)
    ∷ block_end
    ∷ setting_tokens settings rest

abbrev pub assign : Setting → DbConf → DbConf
assign (port text) c = record c { internal_port = to_uint (strtol text) }
assign (header text) c = record c { internal_header = some text }
assign (address text) c = record c { internal_address = some text }
assign (log text) c = record c { log_location = some text }

abbrev pub assign_settings : List Setting → DbConf → DbConf
assign_settings [] c = c
assign_settings (s ∷ settings) c = assign_settings settings (assign s c)

abbrev field : Setting → DbField
field (port text) = internal_port
field (header text) = internal_header
field (address text) = internal_address
field (log text) = log_location

-- The machine between two sections.
abbrev at : DbConf → YamlState → ℤ → Option DbField → DbLoad
at c state sect conv = record { config = c; state = state; sect = sect; conv = conv; out = false }

setting_lem :
    (s : Setting) (c : DbConf) (state : YamlState) (sect : ℤ) (conv : Option DbField)
    (rest : List Token)
    → db_loop (at c state sect conv) (setting_tokens (s ∷ []) rest)
      ≡ db_loop (at (assign s c) expect_value read_sect (some (field s))) rest
unfolding db_loop str_eq
setting_lem (port text) c state sect conv rest = refl
setting_lem _ c state sect conv rest = refl

settings_lem :
    (settings : List Setting) (c : DbConf) (state : YamlState) (conv : Option DbField)
    (rest : List Token)
    → db_loop (at c state read_sect conv) (setting_tokens settings (block_end ∷ rest))
      ≡ loaded (assign_settings settings c) rest
unfolding db_loop
settings_lem [] c state conv rest = refl
settings_lem (s ∷ settings) c state conv rest =
    setting_lem s c state read_sect conv (setting_tokens settings (block_end ∷ rest))
    ∙ settings_lem settings (assign s c) expect_value (some (field s)) rest

-- Whatever `sect` holds at first, the tokens of a block `database` with at least one section, each
-- with the key that is meant for it, are read up to the block's end, and the last value of a
-- setting wins.
pub load-setting_tokens :
    (sect : ℤ) (s : Setting) (settings : List Setting) (rest : List Token)
    → sf_load_db_config sect
        (Token.value ∷ block_mapping_start ∷ setting_tokens (s ∷ settings) (block_end ∷ rest))
      ≡ loaded (assign_settings (s ∷ settings) cleared_db) rest
unfolding sf_load_db_config db_loop
load-setting_tokens sect s settings rest =
    setting_lem s cleared_db expect_block_mapping sect _
      (setting_tokens settings (block_end ∷ rest))
    ∙ settings_lem settings (assign s cleared_db) expect_value (some (field s)) rest

-- A section `ports` whose only key is `location` ends the whole block: its end is taken for the end of
-- the block, since the section is compared with the first section of the other block. What follows
-- is left unread.
pub load-ports_ends :
    (sect : ℤ) (text : Bytes) (rest : List Token)
    → sf_load_db_config sect (
        Token.value
        ∷ block_mapping_start
        ∷ Token.key
        ∷ scalar (codes "ports")
        ∷ Token.value
        ∷ block_mapping_start
        ∷ Token.key
        ∷ scalar (codes "location")
        ∷ Token.value
        ∷ scalar text
        ∷ block_end
        ∷ rest)
      ≡ loaded (record cleared_db { log_location = some text }) rest
unfolding sf_load_db_config db_loop str_eq
load-ports_ends sect text rest = refl
