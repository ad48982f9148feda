-- ===== src/Config/Tests.antt =====
-- The theorems on tools/config.c at a small configuration.
use smart_fridge.Prelude.{◌≡◌, [], ◌∷◌, some, codes}
use smart_fridge.Prelude.Int.{pos}
use smart_fridge.Config.{expect_nothing, cleared_reader, cleared_db}
use smart_fridge.Config.Reader.Document.{Key, Block, id_queue, test_mode, assign_blocks}
use smart_fridge.Config.Database.Document.{port, assign_settings}
use smart_fridge.Config.Read.{read_reader_config, read_db_config}
use smart_fridge.Config.Read.File.{file_tokens, read_config-file}

abbrev queues : Block
queues = (id_queue, (Key.size, codes "20") ∷ (Key.sleep, codes "3") ∷ [])

abbrev lines : Block
lines = (test_mode, (Key.infinite, codes "yes") ∷ (Key.sleep, codes "1") ∷ [])

read_config-file_example :
    (read_reader_config expect_nothing
        (pos 9)
        (some (file_tokens (queues ∷ lines ∷ []) (port (codes "5001") ∷ [])))
      ≡ some (0, some (assign_blocks (queues ∷ lines ∷ []) cleared_reader)))
    × (read_db_config expect_nothing
          (pos 9)
          (some (file_tokens (queues ∷ lines ∷ []) (port (codes "5001") ∷ [])))
        ≡ some (0, some (assign_settings (port (codes "5001") ∷ []) cleared_db)))
read_config-file_example =
    read_config-file expect_nothing (pos 9) queues (lines ∷ []) (port (codes "5001")) []
