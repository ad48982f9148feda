-- ===== src/Config/Reader/Document.antt =====
-- What a block `reader` means, and that the machine of `sf_load_reader_config` finds it out.
use smart_fridge.Prelude.{ℕ, ◌≡◌, refl, ◌∙◌, Bytes, codes, none, some, List, [], ◌∷◌, false, str_eq}
use smart_fridge.Prelude.Int.{ℤ}
use smart_fridge.Prelude.Number.{strtol, to_int}
use smart_fridge.Config.{
  Token, block_mapping_start, block_end, scalar, YamlState, expect_value, expect_block_mapping,
  ReaderConf, cleared_reader, loaded,
}
use smart_fridge.Config.Reader.{
  ReaderLoad, reader_loop, sf_load_reader_config, read_sect, id_sect, pr_sect, test_sect,
  coder_sect, rlogs_sect, socket_mode,
}

pub data Section : Type 0 where
  id_queue product_queue test_mode code_reader logs socket : Section

pub data Key : Type 0 where
  size sleep infinite device port location : Key

-- A section of the block, with its keys and their texts in order.
abbrev pub Block : Type 0
Block = Section × List (Key × Bytes)

abbrev pub section_name : Section → Bytes
section_name id_queue = codes "id_queue"
section_name product_queue = codes "product_queue"
section_name test_mode = codes "test_mode"
section_name code_reader = codes "code_reader"
section_name logs = codes "logs"
section_name socket = codes "socket_mode"

abbrev pub key_name : Key → Bytes
key_name size = codes "size"
key_name sleep = codes "sleep"
key_name infinite = codes "infinite"
key_name device = codes "device"
key_name port = codes "port"
key_name location = codes "location"

-- The tokens of a block, as libyaml documents them, with what follows.
abbrev pub entry_tokens : List (Key × Bytes) → List Token → List Token
entry_tokens [] rest = rest
entry_tokens ((k, text) ∷ entries) rest =
    Token.key ∷ scalar (key_name k) ∷ Token.value ∷ scalar text ∷ entry_tokens entries rest

abbrev pub block_tokens : List Block → List Token → List Token
block_tokens [] rest = rest
block_tokens ((s, entries) ∷ blocks) rest =
    Token.key
    ∷ scalar (section_name s)
    ∷ Token.value
    ∷ block_mapping_start
    ∷ entry_tokens entries (block_end ∷ block_tokens blocks rest)

-- What a key sets depends on the section only for the sizes and the waiting times.
abbrev pub assign : Section → Key → Bytes → ReaderConf → ReaderConf
assign id_queue size text c = record c { id_size = to_int (strtol text) }
assign product_queue size text c = record c { pr_size = to_int (strtol text) }
assign _ size text c = c
assign id_queue sleep text c = record c { id_sleep = to_int (strtol text) }
assign product_queue sleep text c = record c { pr_sleep = to_int (strtol text) }
assign test_mode sleep text c = record c { test_sleep = to_int (strtol text) }
assign _ sleep text c = c
assign _ infinite text c = record c { test_repeat = some text }
assign _ device text c = record c { device = some text }
assign _ port text c = record c { socket_mode_port = to_int (strtol text) }
assign _ location text c = record c { log_location = some text }

abbrev pub assign_entries : Section → List (Key × Bytes) → ReaderConf → ReaderConf
assign_entries s [] c = c
assign_entries s ((k, text) ∷ entries) c = assign_entries s entries (assign s k text c)

abbrev pub assign_blocks : List Block → ReaderConf → ReaderConf
assign_blocks [] c = c
assign_blocks ((s, entries) ∷ blocks) c = assign_blocks blocks (assign_entries s entries c)

abbrev number : Section → ℤ
number id_queue = id_sect
number product_queue = pr_sect
number test_mode = test_sect
number code_reader = coder_sect
number logs = rlogs_sect
number socket = socket_mode

abbrev key_type : Key → ℕ
key_type size = 1
key_type sleep = 1
key_type port = 1
key_type _ = 0

-- The machine between two entries.
abbrev at : ReaderConf → YamlState → ℤ → ℕ → ReaderLoad
at c state sect type = record {
  config = c;
  state = state;
  sect = sect;
  conv_data = none;
  conv_type = type;
  out = false;
}

entry_lem :
    (s : Section) (k : Key) (text : Bytes) (c : ReaderConf) (state : YamlState) (type : ℕ)
    (rest : List Token)
    → reader_loop (at c state (number s) type) (entry_tokens ((k, text) ∷ []) rest)
      ≡ reader_loop (at (assign s k text c) expect_value (number s) (key_type k)) rest
unfolding reader_loop str_eq
entry_lem id_queue size text c state type rest = refl
entry_lem id_queue _ text c state type rest = refl
entry_lem product_queue size text c state type rest = refl
entry_lem product_queue _ text c state type rest = refl
entry_lem test_mode size text c state type rest = refl
entry_lem test_mode _ text c state type rest = refl
entry_lem code_reader size text c state type rest = refl
entry_lem code_reader _ text c state type rest = refl
entry_lem logs size text c state type rest = refl
entry_lem logs _ text c state type rest = refl
entry_lem socket size text c state type rest = refl
entry_lem socket _ text c state type rest = refl

entries_lem :
    (s : Section) (entries : List (Key × Bytes)) (c : ReaderConf) (state : YamlState) (type : ℕ)
    (rest : List Token)
    → (state' : YamlState) × (type' : ℕ) × (reader_loop
          (at c state (number s) type)
          (entry_tokens entries rest)
        ≡ reader_loop (at (assign_entries s entries c) state' (number s) type') rest)
entries_lem s [] c state type rest = (state, type, refl)
entries_lem s ((k, text) ∷ entries) c state type rest =
    let (state', type', later) =
      entries_lem s entries (assign s k text c) expect_value (key_type k) rest in
    (state', type', entry_lem s k text c state type (entry_tokens entries rest) ∙ later)

header_lem :
    (s : Section) (c : ReaderConf) (state : YamlState) (sect : ℤ) (type : ℕ) (rest : List Token)
    → reader_loop
        (at c state sect type)
        (Token.key ∷ scalar (section_name s) ∷ Token.value ∷ block_mapping_start ∷ rest)
      ≡ reader_loop (at c expect_block_mapping (number s) type) rest
unfolding reader_loop str_eq
header_lem id_queue c state sect type rest = refl
header_lem _ c state sect type rest = refl

-- the end of a section's block
section_end :
    (s : Section) (c : ReaderConf) (state : YamlState) (type : ℕ) (rest : List Token)
    → reader_loop (at c state (number s) type) (block_end ∷ rest)
      ≡ reader_loop (at c state read_sect type) rest
unfolding reader_loop
section_end id_queue c state type rest = refl
section_end _ c state type rest = refl

blocks_lem :
    (blocks : List Block) (c : ReaderConf) (state : YamlState) (type : ℕ) (rest : List Token)
    → reader_loop (at c state read_sect type) (block_tokens blocks (block_end ∷ rest))
      ≡ loaded (assign_blocks blocks c) rest
unfolding reader_loop
blocks_lem [] c state type rest = refl
blocks_lem ((s, entries) ∷ blocks) c state type rest =
    let (state', type', body) =
      entries_lem s entries c expect_block_mapping type
        (block_end ∷ block_tokens blocks (block_end ∷ rest)) in
    header_lem s c state read_sect type _
    ∙ body
    ∙ section_end s (assign_entries s entries c) state' type' _
    ∙ blocks_lem blocks (assign_entries s entries c) state' type' rest

-- Whatever `sect` holds at first, the tokens of a block `reader` with at least one section are read up
-- to the block's end, each key sets what it means in its section, and the last one wins.
pub load-block_tokens :
    (sect : ℤ) (s : Section) (entries : List (Key × Bytes)) (blocks : List Block)
    (rest : List Token)
    → sf_load_reader_config sect (
        Token.value ∷ block_mapping_start ∷ block_tokens ((s, entries) ∷ blocks) (block_end ∷ rest))
      ≡ loaded (assign_blocks ((s, entries) ∷ blocks) cleared_reader) rest
unfolding sf_load_reader_config
load-block_tokens sect s entries blocks rest =
    let (state', type', body) =
      entries_lem s entries cleared_reader expect_block_mapping 0
        (block_end ∷ block_tokens blocks (block_end ∷ rest)) in
    header_lem s cleared_reader expect_block_mapping sect 0 _
    ∙ body
    ∙ section_end s (assign_entries s entries cleared_reader) state' type' _
    ∙ blocks_lem blocks (assign_entries s entries cleared_reader) state' type' rest
