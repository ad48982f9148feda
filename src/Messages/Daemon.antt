-- ===== src/Messages/Daemon.antt =====
-- The calls of the log functions in sf_db.c, each with what it is given at run time.
use smart_fridge.Prelude.{refl, [], ◌∷◌, Bytes, some}
use smart_fridge.Prelude.Int.{ℤ, negsuc}
use smart_fridge.Log.{error, info, debug1, debug2}
use smart_fridge.Messages.{
  bind_error, database_create_error, db_chunk_remaining, db_copy_sent, db_copy_sent_error,
  db_size_msg, decoder_error, incoming_con_error, listen_port, load_config_error, msg_received,
  product_images_error, product_insert_error, product_remove_error, receive_error,
  tags_insert_error, unknown_msg_format, text, number,
}
use smart_fridge.Messages.Conversions.{conversions_from, Called, Reads}

pub data DaemonCall : Type 0 where
  bind_failed listening : ℤ → DaemonCall
  accept_failed not_decoded receive_failed removal_failed insertion_failed : DaemonCall
  copy_not_sent copy_sent unknown_header images_not_inserted no_configuration : DaemonCall
  not_created : DaemonCall
  received size_found tags_not_inserted : Bytes → DaemonCall
  chunk_sent : ℤ → ℤ → DaemonCall

-- The level, the message and the arguments.
abbrev pub called : DaemonCall → Called
called (bind_failed port) = (error, bind_error, number port ∷ number (negsuc 1) ∷ [])
called (listening port) = (info, listen_port, number port ∷ [])
called accept_failed = (error, incoming_con_error, [])
called (received msg) = (debug1, msg_received, text (some msg) ∷ [])
called not_decoded = (error, decoder_error, [])
called receive_failed = (error, receive_error, [])
called removal_failed = (error, product_insert_error, [])
called insertion_failed = (error, product_remove_error, [])
called copy_not_sent = (error, db_copy_sent_error, [])
called copy_sent = (debug1, db_copy_sent, [])
called unknown_header = (error, unknown_msg_format, [])
called (size_found buffer) = (debug2, db_size_msg, text (some buffer) ∷ [])
called (chunk_sent sent_bytes remaining) =
    (debug2, db_chunk_remaining, number sent_bytes ∷ number remaining ∷ [])
called (tags_not_inserted kind) = (error, tags_insert_error, text (some kind) ∷ [])
called images_not_inserted = (error, product_images_error, [])
called no_configuration = (error, load_config_error, [])
called not_created = (error, database_create_error, [])

-- Each call gives what its format reads.
pub reads : (c : DaemonCall) → Reads (called c)
unfolding conversions_from
reads (bind_failed port) = refl
reads (listening port) = refl
reads accept_failed = refl
reads (received msg) = refl
reads not_decoded = refl
reads receive_failed = refl
reads removal_failed = refl
reads insertion_failed = refl
reads copy_not_sent = refl
reads copy_sent = refl
reads unknown_header = refl
reads (size_found buffer) = refl
reads (chunk_sent sent_bytes remaining) = refl
reads (tags_not_inserted kind) = refl
reads images_not_inserted = refl
reads no_configuration = refl
reads not_created = refl
