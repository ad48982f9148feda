-- ===== src/Config/Read/File.antt =====
-- `sf_read_config` on a whole file.
use smart_fridge.Prelude.{◌≡◌, refl, ◌∙◌, Bytes, codes, some, List, [], ◌∷◌, str_eq}
use smart_fridge.Prelude.Int.{ℤ}
use smart_fridge.Config.{
  Token, block_mapping_start, block_end, other, no_tokens, scalar, YamlState, expect_nothing,
  cleared_reader, cleared_db,
}
use smart_fridge.Config.Reader.Document as ReaderDocument
use smart_fridge.Config.Reader.Document.{Block, Section, Key, block_tokens, entry_tokens}
use smart_fridge.Config.Database.{sf_load_db_config}
use smart_fridge.Config.Database.Document as DbDocument
use smart_fridge.Config.Database.Document.{Setting, setting_tokens}
use smart_fridge.Config.Read.{Result, db_end, read_loop, read_reader_config, read_db_config}

-- The tokens of a well-formed file with a block `reader` and then a block `database`.
abbrev pub file_tokens : List Block → List Setting → List Token
file_tokens blocks settings =
    other
    ∷ block_mapping_start
    ∷ Token.key
    ∷ scalar (codes "reader")
    ∷ Token.value
    ∷ block_mapping_start
    ∷ block_tokens blocks (
        block_end
        ∷ Token.key
        ∷ scalar (codes "database")
        ∷ Token.value
        ∷ block_mapping_start
        ∷ setting_tokens settings (block_end ∷ block_end ∷ other ∷ no_tokens ∷ []))

module _ {A : Type 0} (load : List Token → Result A) where
  -- The block of the reader holds no key "database".
  skip_entries :
      (entries : List (Key × Bytes)) (state : YamlState) (rest : List Token)
      → read_loop (codes "database") load state (entry_tokens entries (block_end ∷ rest))
        ≡ read_loop (codes "database") load expect_nothing rest
  unfolding read_loop str_eq
  skip_entries [] state rest = refl
  skip_entries ((k, text) ∷ entries) state rest = one k ∙ skip_entries entries expect_nothing rest
    where
      one :
          (k : Key)
          → read_loop
              (codes "database")
              load
              state
              (entry_tokens ((k, text) ∷ entries) (block_end ∷ rest))
            ≡ read_loop
                (codes "database")
                load
                expect_nothing
                (entry_tokens entries (block_end ∷ rest))
      one Key.size = refl
      one _ = refl

  skip_blocks :
      (blocks : List Block) (state : YamlState) (rest : List Token)
      → read_loop (codes "database") load state (block_tokens blocks (block_end ∷ rest))
        ≡ read_loop (codes "database") load expect_nothing rest
  unfolding read_loop str_eq
  skip_blocks [] state rest = refl
  skip_blocks ((s, entries) ∷ blocks) state rest =
      header s ∙ skip_entries entries expect_nothing _ ∙ skip_blocks blocks expect_nothing rest
    where
      body : List Token
      body = entry_tokens entries (block_end ∷ block_tokens blocks (block_end ∷ rest))

      header :
          (s : Section)
          → read_loop (codes "database") load state (
              Token.key
              ∷ scalar (ReaderDocument.section_name s)
              ∷ Token.value
              ∷ block_mapping_start
              ∷ body)
            ≡ read_loop (codes "database") load expect_nothing body
      header Section.id_queue = refl
      header _ = refl

-- Whatever the uninitialised variables hold, both calls of sf_read_config on a well-formed file that
-- holds a block `reader`, behind it a block `database`, and nothing else, each with at least one
-- section, where `reader` holds only sections and keys that its loader knows, each key with a text,
-- and each section of `database` is known and holds exactly the one key meant for it (`internal`, or
-- `location` in `logs`), return 0 and the configuration that the block means.
pub read_config-file :
    (state : YamlState) (sect : ℤ) (b : Block) (blocks : List Block) (s : Setting)
    (settings : List Setting)
    → (read_reader_config state sect (some (file_tokens (b ∷ blocks) (s ∷ settings)))
        ≡ some (0, some (ReaderDocument.assign_blocks (b ∷ blocks) cleared_reader)))
      × (read_db_config state sect (some (file_tokens (b ∷ blocks) (s ∷ settings)))
          ≡ some (0, some (DbDocument.assign_settings (s ∷ settings) cleared_db)))
unfolding read_reader_config read_db_config read_loop str_eq
read_config-file state sect (section, entries) blocks s settings = (
  rw (ReaderDocument.load-block_tokens sect section entries blocks _),
  skip_blocks (λ rest. db_end (sf_load_db_config sect rest)) ((section, entries) ∷ blocks)
        expect_nothing _
      ∙ rw (DbDocument.load-setting_tokens sect s settings _),
)
