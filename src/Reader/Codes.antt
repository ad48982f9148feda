-- ===== src/Reader/Codes.antt =====
-- What the decoder thread makes of one product node, and what the storer thread sends.
pub mod Limits
use smart_fridge.Prelude.{
  ℕ, Bytes, codes, Option, none, some, List, [], ◌∷◌, ◌++◌, Bool, true, false, ◌==◌, if◌then◌else◌,
  take, ◌-◌,
}
use smart_fridge.Json.{CJson, Memory}
use smart_fridge.Decoder.{ProductNode}
use smart_fridge.Decoder.Retval
use smart_fridge.Decoder.Raw.{sf_pr_raw_decoder}
use smart_fridge.Reader.{db_mode_remove}

-- `snprintf(url, 100, …)`
abbrev pub url_size : ℕ
url_size = 100

-- REMOVE_MSG and OF_API around a code.
abbrev pub remove_msg : Bytes → Bytes
remove_msg code = codes "{\"code\":\"" ++ (code ++ codes "\",\"remove\":\"yes\"}")

abbrev pub of_api : Bytes → Bytes
of_api code = codes "https://world.openfoodfacts.org/api/v0/product/" ++ (code ++ codes ".json")

abbrev pub print_url : Bytes → Bytes
print_url s = take (url_size - 1) s

-- `strchr(buffer, '{')`
unfoldable pub from_brace : Bytes → Option Bytes
from_brace [] = none
from_brace (b ∷ s) = let rest = from_brace s in if b == b'{' then some (b ∷ s) else rest

-- `sf_download_file`: `none` if it fails, and else the payload, which is NULL if nothing arrived.
abbrev pub Download : Type 0
Download = Bytes → Option (Option Bytes)

-- What a node comes to: nothing is queued, a pointer is queued (NULL where cJSON prints nothing), or
-- the thread crashes.
pub data Made : Type 0 where
  nothing crashes : Made
  queued : Option Bytes → Made

module _ (c : CJson) (download : Download) (memory : Memory) (str_timestamp : Bytes) where
  abbrev pub made_of : Option (ℕ × Option c.Node) → Made
  made_of none = crashes
  made_of (some (result, decoded_pr)) =
      if result == Retval.no_error then queued (c.print_unformatted decoded_pr) else nothing

  abbrev pub made_json : Option Bytes → ProductNode → Made
  made_json none node = nothing
  made_json (some str_json) node =
      made_of (sf_pr_raw_decoder c memory str_timestamp str_json node.number node.code)

  abbrev pub made_payload : Option (Option Bytes) → ProductNode → Made
  made_payload none node = nothing
  made_payload (some none) node = crashes
  made_payload (some (some buffer)) node = made_json (from_brace buffer) node

  -- The body of the loop of `sf_decoder` on a node, up to `sf_queue_add`.
  unfoldable pub decode_node : ProductNode → Made
  unfolding from_brace
  decode_node node =
      if node.mode == db_mode_remove
      then queued (some (print_url (remove_msg node.code)))
      else made_payload (download (print_url (of_api node.code))) node

-- The message of `sf_send_product`, in a buffer of MAX_LOGSIZE + 1 bytes of which `snprintf` uses MAX_LOGSIZE.
pub send_message : Bytes → Bytes → Bytes
send_message internal_header product = take 65535 (internal_header ++ product)

-- `sf_send_product`; the arguments say whether `socket`, `connect` and `send` succeed. The result is `retval`
-- and what was sent.
pub sf_send_product : Bool → Bool → Bool → Bytes → Bytes → ℕ × Option Bytes
unfolding send_message
sf_send_product socket connected sent internal_header product =
    if socket
    then (if connected
        then (if sent then (0, some (send_message internal_header product)) else (1, none))
        else (1, none))
    else (1, none)
