-- ===== src/Messages.antt =====
-- include/messages.h: the formats of the messages, and what `vsnprintf` makes of one. The calls are in Messages/Reader,
-- Messages/Daemon and Messages/Tools.
pub mod Conversions
pub mod Reader
pub mod Daemon
pub mod Tools
pub mod Written
mod Tests
use smart_fridge.Prelude.{
  ℕ, suc, Bytes, codes, Option, none, some, List, [], ◌∷◌, ◌++◌, Bool, true, false, ◌==◌, ◌||◌,
  if◌then◌else◌, map,
}
use smart_fridge.Prelude.Int.{ℤ, pos, negsuc}
use smart_fridge.Log.{decimal}

pub data Message : Type 0 where
  load_config_error threads_init_error init_decoder init_storer inv_config : Message
  inv_config_tag inv_config_tag_block inv_config_in_block small_queue_size : Message
  large_queue_size full_queue init_bar_hand empty_queue curl_expand_error : Message
  download_file_error invalid_file invalid_file_format unexpected_fields : Message
  init_bar_hand_test test_file_open_error code_read database_create_error decoded_json : Message
  product_send_error bind_error incoming_con_error msg_received receive_error : Message
  decoder_error connect_server_error unknown_msg_format product_insert_error : Message
  tags_insert_error product_not_found test_mode_end decoder_end storer_end listen_port : Message
  db_copy_sent db_copy_sent_error db_size_msg db_chunk_remaining product_images_error : Message
  zbar_debug_msg device_open_error key_pressed key_handler_error deletion_request : Message
  product_remove_error socket_format_error socket_succ_extract : Message

abbrev pub format : Message → Bytes
format load_config_error = codes "(000) Could not load the configuration."
format threads_init_error = codes "(001) The threads could not be started."
format init_decoder = codes "(002) Starting decoder."
format init_storer = codes "(003) Starting storer."
format inv_config = codes "(004) The configuration could not be readed due to invalid formatting."
format inv_config_tag =
    codes "(005) The configuration could not be loaded because an invalid tag (%s) was found."
format inv_config_tag_block =
    codes
      "(006) The configuration could not be loaded because an invalid tag (%s) was found in '%s' block."
format inv_config_in_block =
    codes
      "(007) The configuration could not be loaded because the block '%s' has a invalid content."
format small_queue_size = codes "(008) The %s queue has been assigned too small: %i."
format large_queue_size = codes "(009) The %s queue has been assigned too large: %i."
format full_queue = codes "(010) The ID '%s' is discarded because the queue is full."
format init_bar_hand = codes "(011) Starting bar handler."
format empty_queue = codes "(012) The %s queue is empty."
format curl_expand_error = codes "(013) Failed to expand buffer in curl_callback."
format download_file_error = codes "(014) Could not download from '%s'."
format invalid_file = codes "(015) The downloaded file with the code '%s' is invalid."
format invalid_file_format = codes "(016) The file is not json format."
format unexpected_fields = codes "(017) Unexpected fields when parsing the file."
format init_bar_hand_test =
    codes "(018) Starting bar handler in test mode with %d seconds period. Feed: '%s'."
format test_file_open_error = codes "(019) The test file could not be opened."
format code_read = codes "(020) The '%s' code has been read. Elements: %d."
format database_create_error = codes "(021) The database could not be created."
format decoded_json = codes "(022) Decoded JSON: '%s'."
format product_send_error = codes "(023) The product could not be sent."
format bind_error = codes "(024) The %d port could not be binded. Error: %d."
format incoming_con_error = codes "(025) The incoming connection could not be accepted."
format msg_received = codes "(026) Message received: '%s'."
format receive_error = codes "(027) One of the messages could not be received."
format decoder_error = codes "(028) Message received could not be decoded."
format connect_server_error = codes "(029) Could not connect to the server."
format unknown_msg_format = codes "(030) Unknown message format."
format product_insert_error = codes "(031) The product could not be inserted into the database."
format tags_insert_error = codes "(032) %s tags could not be inserted."
format product_not_found =
    codes "(033) No information could be extracted of the product with code '%s'."
format test_mode_end = codes "(034) Finishing test mode."
format decoder_end = codes "(035) Finishing product decoding."
format storer_end = codes "(036) Finishing product storing."
format listen_port = codes "(037) Listening on port %d."
format db_copy_sent = codes "(038) A copy of the database has been sent."
format db_copy_sent_error = codes "(039) A database copy could not be sent."
format db_size_msg = codes "(040) Database size: %s."
format db_chunk_remaining = codes "(041) %d bytes have been sent to the client. %d to go."
format product_images_error = codes "(042) The product images could not be inserted."
format zbar_debug_msg = codes "(043) Decoded [%s] symbol -> [%s]"
format device_open_error = codes "(044) Could not open the device '%s'."
format key_pressed = codes "(045) A key has been pressed. Database mode: '%s'."
format key_handler_error = codes "(046) The key manager could not be activated."
format deletion_request = codes "(047) The deletion request for '%s' has been pasted."
format product_remove_error = codes "(048) The product could not be removed from the database."
format socket_format_error =
    codes "(049) The product code could not be extracted in socket mode from '%s'."
format socket_succ_extract = codes "(050) Product code extracted from socket connection: '%s'x%i."

-- An argument of a call: a string, which may be NULL, or an `int`.
pub data Argument : Type 0 where
  text : Option Bytes → Argument
  number : ℤ → Argument

-- `%d` and `%i`
abbrev pub print_int : ℤ → Bytes
print_int (pos n) = decimal 20 n
print_int (negsuc n) = b'-' ∷ decimal 20 (suc n)

abbrev pub before : Bytes → Option Bytes → Option Bytes
before s none = none
before s (some rest) = some (s ++ rest)

-- What a `%` reads, by the character behind it: a string or a number.
pub data Conversion : Type 0 where
  string integer other : Conversion

abbrev pub conversion : ℕ → Conversion
conversion c = if c == b's' then string else if (c == b'd') || (c == b'i') then integer else other

abbrev pub print_argument :
    Conversion → List Argument → (List Argument → Option Bytes) → Option Bytes
print_argument string (text (some s) ∷ arguments) next = before s (next arguments)
print_argument integer (number i ∷ arguments) next = before (print_int i) (next arguments)
print_argument _ _ next = none

-- A character of the text, which is printed unless it is a `%`.
abbrev pub print_plain : Bool → ℕ → Option Bytes → Option Bytes
print_plain true b rest = rest
print_plain false b rest = before (b ∷ []) rest

-- From a character on, which stands behind a `%` if the first argument says so.
unfoldable pub print_from : Bool → Bytes → List Argument → Option Bytes
print_from false [] arguments = some []
print_from true [] arguments = none
print_from true (c ∷ rest) arguments =
    print_argument (conversion c) arguments (print_from false rest)
print_from false (b ∷ rest) arguments =
    print_plain (b == b'%') b (print_from (b == b'%') rest arguments)

-- `vsnprintf` without the limit of the buffer. The result is `none` where it is undefined: an argument is missing, is of
-- another type or is NULL, or the conversion is none of those that the program uses.
abbrev pub print_format : Bytes → List Argument → Option Bytes
print_format = print_from false
