-- ===== src/Db/Start/Running.antt =====
-- What the daemon starts with, and what holds as long as it runs.
use smart_fridge.Prelude.{◌≡◌, Bytes, some, List, [], ◌∷◌, Bool, codes}
use smart_fridge.Prelude.Int.{ℤ}
use smart_fridge.Config.{YamlState, cleared_db}
use smart_fridge.Config.Reader.Document.{Block}
use smart_fridge.Config.Database.Document.{Setting, assign_settings}
use smart_fridge.Config.Read.{read_db_config}
use smart_fridge.Config.Read.File.{file_tokens, read_config-file}
use smart_fridge.Log.{Log, sf_set_log_file, sf_set_node_name, sf_set_foreground}
use smart_fridge.Db.Start.{foreground, daemon_with, db_main}

-- In foreground mode, on a well-formed file with a block `reader` in front of a block `database`, each with at least
-- one section, where each section of `database` holds exactly the one key meant for it, the daemon starts with the port, the header and the log that the settings mean, if they set a header; if
-- they do not, it reads through NULL.
pub db_main-file :
    (state : YamlState) (sect : ℤ) (b : Block) (blocks : List Block) (s : Setting)
    (settings : List Setting) (child : Bool) (log_file : Bytes) (l : Log)
    → let conf = assign_settings (s ∷ settings) cleared_db in
      db_main
        (foreground ∷ [])
        child
        log_file
        (read_db_config state sect (some (file_tokens (b ∷ blocks) (s ∷ settings))))
        l
      ≡ daemon_with
          (sf_set_log_file
            (some log_file)
            (sf_set_node_name (codes "DATABASE_MANAGER") (sf_set_foreground l)))
          conf
          conf.internal_header
unfolding db_main
db_main-file state sect b blocks s settings child log_file l =
    rw ((read_config-file state sect b blocks s settings).1)
