-- ===== src/Messages/Reader.antt =====
-- The calls of the log functions in sf_reader.c, each with what it is given at run time.
use smart_fridge.Prelude.{refl, [], ◌∷◌, Bytes, codes, Option, none, some, Bool, if◌then◌else◌}
use smart_fridge.Prelude.Int.{ℤ, negsuc}
use smart_fridge.Log.{error, warning, info, debug1, debug2}
use smart_fridge.Messages.{
  bind_error, code_read, connect_server_error, decoded_json, decoder_end, deletion_request,
  device_open_error, download_file_error, empty_queue, full_queue, incoming_con_error,
  init_bar_hand, init_bar_hand_test, init_decoder, init_storer, invalid_file, invalid_file_format,
  key_handler_error, key_pressed, large_queue_size, listen_port, load_config_error, msg_received,
  product_not_found, product_send_error, receive_error, small_queue_size, socket_format_error,
  socket_succ_extract, storer_end, test_file_open_error, test_mode_end, threads_init_error,
  unexpected_fields, zbar_debug_msg, text, number,
}
use smart_fridge.Messages.Conversions.{conversions_from, Called, Reads}

pub data ReaderCall : Type 0 where
  zbar_symbol : Bytes → Bytes → ReaderCall
  id_refused request_queued download_failed no_product answer_refused received : Bytes → ReaderCall
  not_a_code : Bytes → ReaderCall
  mode_changed : Bool → ReaderCall
  decoder_started decoder_ended no_ids request_refused no_json no_fields : ReaderCall
  connect_failed storer_started storer_ended no_products send_failed accept_failed : ReaderCall
  receive_failed camera_started no_key_handler no_test_file test_ended : ReaderCall
  no_configuration no_threads : ReaderCall
  product_refused product_decoded no_device : Option Bytes → ReaderCall
  bind_failed listening : ℤ → ReaderCall
  code_extracted line_read size_too_small size_too_large : Bytes → ℤ → ReaderCall
  test_started : ℤ → Bytes → ReaderCall

-- The level, the message and the arguments.
abbrev pub called : ReaderCall → Called
called (zbar_symbol symbol code) =
    (debug2, zbar_debug_msg, text (some symbol) ∷ text (some code) ∷ [])
called (id_refused code) = (warning, full_queue, text (some code) ∷ [])
called (mode_changed add) =
    (info, key_pressed, text (some (if add then codes "ADD" else codes "REMOVE")) ∷ [])
called decoder_started = (info, init_decoder, [])
called decoder_ended = (info, decoder_end, [])
called no_ids = (debug2, empty_queue, text (some (codes "ID")) ∷ [])
called request_refused = (warning, full_queue, text none ∷ [])
called (request_queued code) = (debug1, deletion_request, text (some code) ∷ [])
called (download_failed url) = (error, download_file_error, text (some url) ∷ [])
called no_json = (error, invalid_file_format, [])
called no_fields = (error, unexpected_fields, [])
called (no_product code) = (info, product_not_found, text (some code) ∷ [])
called (answer_refused code) = (error, invalid_file, text (some code) ∷ [])
called (product_refused str_product) = (warning, full_queue, text str_product ∷ [])
called (product_decoded str_product) = (debug2, decoded_json, text str_product ∷ [])
called connect_failed = (error, connect_server_error, [])
called storer_started = (info, init_storer, [])
called storer_ended = (info, storer_end, [])
called no_products = (debug2, empty_queue, text (some (codes "products")) ∷ [])
called send_failed = (error, product_send_error, [])
called (bind_failed port) = (error, bind_error, number port ∷ number (negsuc 1) ∷ [])
called (listening port) = (info, listen_port, number port ∷ [])
called accept_failed = (error, incoming_con_error, [])
called (received msg) = (debug1, msg_received, text (some msg) ∷ [])
called (not_a_code msg) = (error, socket_format_error, text (some msg) ∷ [])
called (code_extracted code n) = (debug2, socket_succ_extract, text (some code) ∷ number n ∷ [])
called receive_failed = (error, receive_error, [])
called camera_started = (info, init_bar_hand, [])
called no_key_handler = (error, key_handler_error, [])
called (no_device device) = (error, device_open_error, text device ∷ [])
called (test_started speed file) = (info, init_bar_hand_test, number speed ∷ text (some file) ∷ [])
called no_test_file = (error, test_file_open_error, [])
called test_ended = (info, test_mode_end, [])
called (line_read code n) = (debug1, code_read, text (some code) ∷ number n ∷ [])
called no_configuration = (error, load_config_error, [])
called (size_too_small kind size) = (error, small_queue_size, text (some kind) ∷ number size ∷ [])
called (size_too_large kind size) = (error, large_queue_size, text (some kind) ∷ number size ∷ [])
called no_threads = (error, threads_init_error, [])

-- Each call gives what its format reads.
pub reads : (c : ReaderCall) → Reads (called c)
unfolding conversions_from
reads (zbar_symbol symbol code) = refl
reads (id_refused code) = refl
reads (mode_changed add) = refl
reads decoder_started = refl
reads decoder_ended = refl
reads no_ids = refl
reads request_refused = refl
reads (request_queued code) = refl
reads (download_failed url) = refl
reads no_json = refl
reads no_fields = refl
reads (no_product code) = refl
reads (answer_refused code) = refl
reads (product_refused str_product) = refl
reads (product_decoded str_product) = refl
reads connect_failed = refl
reads storer_started = refl
reads storer_ended = refl
reads no_products = refl
reads send_failed = refl
reads (bind_failed port) = refl
reads (listening port) = refl
reads accept_failed = refl
reads (received msg) = refl
reads (not_a_code msg) = refl
reads (code_extracted code n) = refl
reads receive_failed = refl
reads camera_started = refl
reads no_key_handler = refl
reads (no_device device) = refl
reads (test_started speed file) = refl
reads no_test_file = refl
reads test_ended = refl
reads (line_read code n) = refl
reads no_configuration = refl
reads (size_too_small kind size) = refl
reads (size_too_large kind size) = refl
reads no_threads = refl
