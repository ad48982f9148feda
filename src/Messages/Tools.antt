-- ===== src/Messages/Tools.antt =====
-- The calls of the log functions in tools/downloader.c and tools/config.c, each with what it is given at run time.
use smart_fridge.Prelude.{refl, [], ◌∷◌, Bytes, some}
use smart_fridge.Log.{error}
use smart_fridge.Messages.{curl_expand_error, inv_config_in_block, inv_config_tag_block, text}
use smart_fridge.Messages.Conversions.{conversions_from, Called, Reads}

pub data ToolCall : Type 0 where
  not_expanded : ToolCall
  content_refused : Bytes → ToolCall
  tag_refused : Bytes → Bytes → ToolCall

-- The level, the message and the arguments.
abbrev pub called : ToolCall → Called
called not_expanded = (error, curl_expand_error, [])
called (content_refused block) = (error, inv_config_in_block, text (some block) ∷ [])
called (tag_refused tag block) =
    (error, inv_config_tag_block, text (some tag) ∷ text (some block) ∷ [])

-- Each call gives what its format reads.
pub reads : (c : ToolCall) → Reads (called c)
unfolding conversions_from
reads not_expanded = refl
reads (content_refused block) = refl
reads (tag_refused tag block) = refl
