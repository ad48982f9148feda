-- ===== src/Messages/Tests.antt =====
-- The theorems on the messages at a few calls.
use smart_fridge.Prelude.{◌≡◌, refl, arith, codes, some, List, [], ◌∷◌, true, not, is_some, map}
use smart_fridge.Prelude.Int.{pos}
use smart_fridge.Log.{Log, Date, error, warning, info, debug1, debug2, log_header}
use smart_fridge.Log.Lines.{Entry, Fits, wanted, with_lines, line_of}
use smart_fridge.Messages.Conversions.{has_null}
use smart_fridge.Messages.Reader.{request_refused, bind_failed, line_read}
use smart_fridge.Messages.Written.{
  Call, the_reader, reader, text_of, arguments, AllGiven, Prints, reached, log_calls,
  text_of-defined, log_calls-lines,
}

-- The warning of a deletion request that is dropped.
text_of-defined_example :
    is_some (text_of (reader request_refused)) ≡ not (has_null (arguments (reader request_refused)))
text_of-defined_example = text_of-defined (reader request_refused)

abbrev noon : Date
noon = record { year = 2020; month = 5; day = 1; hour = 12; minute = 0; second = 30 }

abbrev later : Date
later = record { year = 2020; month = 5; day = 1; hour = 12; minute = 0; second = 31 }

abbrev verbose : Log
verbose = record {
  debug_level = pos 1;
  foreground = true;
  log_file = some (codes "fridge.log");
  node_name = codes "reader";
  printed = [];
  appended = [];
}

noon-Fits : Fits noon verbose.node_name
unfolding log_header
noon-Fits error = omega arith
noon-Fits warning = omega arith
noon-Fits info = omega arith
noon-Fits debug1 = omega arith
noon-Fits debug2 = omega arith

later-Fits : Fits later verbose.node_name
unfolding log_header
later-Fits error = omega arith
later-Fits warning = omega arith
later-Fits info = omega arith
later-Fits debug1 = omega arith
later-Fits debug2 = omega arith

-- A line is read, and a second later `bind` fails, which ends the reader.
abbrev calls : List (Date × Call the_reader)
calls =
    (noon, reader (line_read (codes "84") (pos 3)))
    ∷ (later, reader (bind_failed (pos 80)))
    ∷ (later, reader request_refused)
    ∷ []

calls-AllGiven : AllGiven verbose.node_name (reached calls)
unfolding reached
calls-AllGiven = (refl, noon-Fits, (refl, later-Fits, tt))

log_calls-lines_example :
    (lines : List Entry) × Prints (reached calls) lines
    × (log_calls calls verbose
        ≡ some (
            with_lines
              (codes "fridge.log")
              verbose
              (map (line_of (codes "reader")) (wanted 1 lines))))
log_calls-lines_example =
    log_calls-lines (codes "fridge.log") 1 calls verbose calls-AllGiven refl refl
